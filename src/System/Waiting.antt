-- ===== src/System/Waiting.antt =====
-- The waiting tasks after the first k, through the changes of the tasks of a pool.
use kbrain.Prelude.{
  ℕ, zero, suc, ◌-◌, ◌≤◌, ◌<◌, true, false, List, [], ◌∷◌, ◌++◌, ◌≡◌, refl, sym, ap, subst, inl,
  inr, Bool-cases, drop, All, arith,
}
use kbrain.Api.{AgentTask}
use kbrain.PoolController.Slots.{grant}
use kbrain.PoolController.Groups.{is_waiting, select}
use kbrain.System.Steps.{ReplacedBy, Removed, GrantedAmong}
use kbrain.System.Counting.{beyond, Starts, Stays, Done, Starts-counts}
use kbrain.System.Changes.{SameTask}
use kbrain.System.Order.{times}

-- The times of creation of the waiting tasks after the first k.
abbrev pub later_waiting : ℕ → List AgentTask → List ℕ
later_waiting k ts = drop k (times (select is_waiting ts))

module _ (P : ℕ → Type 0) where
  pub All-drop_more : (k j : ℕ) (ns : List ℕ) → k ≤ j → All P (drop k ns) → All P (drop j ns)
  All-drop_more zero zero ns h a = a
  All-drop_more zero (suc j) [] h a = tt
  All-drop_more zero (suc j) (n ∷ ns) h a = All-drop_more zero j ns (omega arith) a.1
  All-drop_more (suc k) zero ns h a = absurd (omega (arith, h))
  All-drop_more (suc k) (suc j) [] h a = tt
  All-drop_more (suc k) (suc j) (n ∷ ns) h a = All-drop_more k j ns (omega (arith, h)) a

  All-drop_tail : (k : ℕ) (n : ℕ) (ns : List ℕ) → All P (drop k (n ∷ ns)) → All P (drop k ns)
  All-drop_tail zero n ns a = a.1
  All-drop_tail (suc k) n ns a = All-drop_more k (suc k) ns (omega arith) a

  All-drop_snoc :
      (k : ℕ) (n : ℕ) (ns : List ℕ) → P n → All P (drop k ns) → All P (drop k (ns ++ n ∷ []))
  All-drop_snoc zero n [] p a = (p, tt)
  All-drop_snoc zero n (m ∷ ns) p a = (a.0, All-drop_snoc zero n ns p a.1)
  All-drop_snoc (suc k) n [] p a = All-drop_more 0 k [] (omega arith) tt
  All-drop_snoc (suc k) n (m ∷ ns) p a = All-drop_snoc k n ns p a

  -- Of a list and a shorter one, what holds after the first k of the one holds so of the other.
  All-drop_cons :
      (n : ℕ) (ms ns : List ℕ)
      → ((k : ℕ) → All P (drop k ms) → All P (drop k ns))
      → (k : ℕ) → All P (drop k (n ∷ ms))
      → All P (drop k (n ∷ ns))
  All-drop_cons n ms ns f zero a = (a.0, f 0 a.1)
  All-drop_cons n ms ns f (suc k) a = f k a

  -- So it is with a task in front of both.
  cons_later :
      (t : AgentTask) (ts us : List AgentTask)
      → ((k : ℕ) → All P (later_waiting k ts) → All P (later_waiting k us))
      → (k : ℕ) → All P (later_waiting k (t ∷ ts))
      → All P (later_waiting k (t ∷ us))
  unfolding select
  cons_later t ts us f k a = elim (Bool-cases (is_waiting t.status.phase)) [
    | inl w ↦ rw w (All-drop_cons t.creation_timestamp _ _ f k (rw w at a))
    | inr w ↦ rw w (f k (rw w at a))
  ]

  tail_later :
      (t : AgentTask) (ts : List AgentTask) (k : ℕ)
      → All P (later_waiting k (t ∷ ts))
      → All P (later_waiting k ts)
  unfolding select
  tail_later t ts k a = elim (Bool-cases (is_waiting t.status.phase)) [
    | inl w ↦ All-drop_tail k t.creation_timestamp _ (rw w at a)
    | inr w ↦ rw w at a
  ]

  idle_later :
      (t : AgentTask) (ts : List AgentTask) (k : ℕ)
      → is_waiting t.status.phase ≡ false
      → All P (later_waiting k ts)
      → All P (later_waiting k (t ∷ ts))
  unfolding select
  idle_later t ts k w a = rw w a

  pub Done-later :
      (ts us : List AgentTask)
      → ReplacedBy (λ t u. Done u) ts us
      → (k : ℕ) → All P (later_waiting k ts)
      → All P (later_waiting k us)
  Done-later [] us h k a = absurd h
  Done-later (t ∷ ts) [] h k a = absurd h
  Done-later (t ∷ ts) (u ∷ us) (inl (d, e)) k a =
      rw e (idle_later u ts k d.settled (tail_later t ts k a))
  Done-later (t ∷ ts) (u ∷ us) (inr (e, h)) k a = rw e (cons_later t ts us (Done-later ts us h) k a)

  pub Removed-later :
      (ts us : List AgentTask)
      → Removed ts us
      → (k : ℕ) → All P (later_waiting k ts)
      → All P (later_waiting k us)
  Removed-later [] us h k a = absurd h
  Removed-later (t ∷ ts) [] h k a = unfold select in All-drop_more 0 k [] (omega arith) tt
  Removed-later (t ∷ ts) (u ∷ us) (inl e) k a =
      subst (λ l. All P (later_waiting k l)) (sym e) (tail_later t ts k a)
  Removed-later (t ∷ ts) (u ∷ us) (inr (e, h)) k a =
      rw e (cons_later t ts us (Removed-later ts us h) k a)

  pub arrives-later :
      (t : AgentTask) (ts : List AgentTask)
      → P t.creation_timestamp
      → (k : ℕ) → All P (later_waiting k ts)
      → All P (later_waiting k (ts ++ t ∷ []))
  unfolding select
  arrives-later t [] p k a = elim (Bool-cases (is_waiting t.status.phase)) [
    | inl w ↦
        rw w (All-drop_snoc k t.creation_timestamp [] p (All-drop_more 0 k [] (omega arith) tt))
    | inr w ↦ rw w (All-drop_more 0 k [] (omega arith) tt)
  ]
  arrives-later t (u ∷ ts) p k a = cons_later u ts (ts ++ t ∷ []) (arrives-later t ts p) k a

  -- With a waiting task in front of the one that starts.
  Starts-behind :
      (t : AgentTask) (ts us : List AgentTask)
      → is_waiting t.status.phase ≡ true
      → ((k : ℕ) → beyond k ts ≡ 0 → 0 < k)
      → ((k : ℕ) → beyond k ts ≡ 0 → All P (later_waiting k ts) → All P (later_waiting (k - 1) us))
      → (k : ℕ) → beyond k (t ∷ ts) ≡ 0
      → All P (later_waiting k (t ∷ ts))
      → All P (later_waiting (k - 1) (t ∷ us))
  unfolding select beyond
  Starts-behind t ts us w pos f zero z a = absurd (omega (arith, pos 0 (ground arith)))
  Starts-behind t ts us w pos f (suc zero) z a = absurd (omega (arith, pos 0 (ground arith)))
  Starts-behind t ts us w pos f (suc (suc k)) z a =
      let e : suc (suc k) - 1 ≡ suc k = omega arith in
      let d : suc k - 1 ≡ k = omega arith in
      rw (e, w) (rw d at (f (suc k) (ground arith) (rw w at a)))

  -- A task that starts was one of the first k that wait, so those after them are as they were.
  pub Starts-later :
      (ts us : List AgentTask)
      → ReplacedBy Starts ts us
      → (k : ℕ) → beyond k ts ≡ 0
      → All P (later_waiting k ts)
      → All P (later_waiting (k - 1) us)
  unfolding select beyond
  Starts-later [] us h k z a = absurd h
  Starts-later (t ∷ ts) [] h k z a = absurd h
  Starts-later (t ∷ ts) (u ∷ us) (inl (s, e)) zero z a =
      absurd (ground (arith, s.waited, s.granted))
  Starts-later (t ∷ ts) (u ∷ us) (inl (s, e)) (suc k) z a =
      let d : suc k - 1 ≡ k = omega arith in rw (e, d) (idle_later u ts k s.left (rw s.waited at a))
  Starts-later (t ∷ ts) (u ∷ us) (inr (e, h)) k z a =
      elim (Bool-cases (is_waiting t.status.phase)) [
        | inl w ↦ rw e (
            Starts-behind t ts us w (λ j y. ((Starts-counts ts us h).1 j y).0)
              (Starts-later ts us h) k z a)
        | inr w ↦
            rw e (idle_later t us (k - 1) w (Starts-later ts us h k (ground arith) (rw w at a)))
      ]

-- The times of the waiting tasks stay.
pub Stays-later :
    (ts us : List AgentTask)
    → ReplacedBy (λ t u. Stays t u × SameTask t u) ts us
    → times (select is_waiting us) ≡ times (select is_waiting ts)
unfolding select
Stays-later [] us h = absurd h
Stays-later (t ∷ ts) [] h = absurd h
Stays-later (t ∷ ts) (u ∷ us) (inl ((s, m), e)) = elim (Bool-cases (is_waiting t.status.phase)) [
  | inl w ↦ rw (e, s.same_waiting, w) (ap (λ n. n ∷ times (select is_waiting ts)) m.same_creation)
  | inr w ↦ rw (e, s.same_waiting, w) refl
]
Stays-later (t ∷ ts) (u ∷ us) (inr (e, h)) = elim (Bool-cases (is_waiting t.status.phase)) [
  | inl w ↦ rw (e, w) (ap (◌∷◌ t.creation_timestamp) (Stays-later ts us h))
  | inr w ↦ rw (e, w) (Stays-later ts us h)
]

pub GrantedAmong-later :
    (C ts us : List AgentTask)
    → GrantedAmong C ts us
    → times (select is_waiting us) ≡ times (select is_waiting ts)
unfolding select grant
GrantedAmong-later C [] [] g = refl
GrantedAmong-later C [] (u ∷ us) g = absurd g
GrantedAmong-later C (t ∷ ts) [] g = absurd g
GrantedAmong-later C (t ∷ ts) (u ∷ us) (inl e, g) = elim (Bool-cases (is_waiting t.status.phase)) [
  | inl w ↦ rw (e, w) (ap (◌∷◌ t.creation_timestamp) (GrantedAmong-later C ts us g))
  | inr w ↦ rw (e, w) (GrantedAmong-later C ts us g)
]
GrantedAmong-later C (t ∷ ts) (u ∷ us) (inr (m, e), g) =
    elim (Bool-cases (is_waiting t.status.phase)) [
      | inl w ↦ rw (e, w) (ap (◌∷◌ t.creation_timestamp) (GrantedAmong-later C ts us g))
      | inr w ↦ rw (e, w) (GrantedAmong-later C ts us g)
    ]
