-- ===== src/System/Slots.antt =====
-- The promise of a pool, as an abstract machine of three counters, and how many tasks of the list it
-- counts.
use kbrain.Prelude.{
  ℕ, suc, ◌+◌, ◌≤◌, true, List, [], ◌∷◌, ◌++◌, ◌≡◌, refl, inl, inr, ◌&&◌, not, arith,
}
use kbrain.Prelude.Text.{text_eq_refl, lit}
use kbrain.Api.{AgentTask, Dict, lookup, insert, index}
use kbrain.TaskController.Pending.{slot_annotation, slot_granted}
use kbrain.PoolController.Slots.{grant}
use kbrain.PoolController.Groups.{is_active, is_waiting, select}
use kbrain.System.Steps.{ReplacedBy, Removed, GrantedAmong}
use kbrain.System.Counting.{occupied, one_if, granted_waiting}

-- The tasks that wait for a slot, that have one and are about to start, and that occupy one.
pub record Slots : Type 0 where
  pub queued : ℕ
  pub granted : ℕ
  pub active : ℕ

-- What a pool with so many slots may do: it never gives out more of them than it has.
pub data SlotStep (max : ℕ) (s u : Slots) : Type 0 where
  submits : u.queued ≡ suc s.queued → u.granted ≡ s.granted → u.active ≡ s.active → SlotStep max s u
  grants :
      u.queued + u.granted ≡ s.queued + s.granted
      → s.granted ≤ u.granted
      → u.granted + u.active ≤ max
      → u.active ≡ s.active
      → SlotStep max s u
  begins :
      u.queued ≡ s.queued → suc u.granted ≡ s.granted → u.active ≡ suc s.active → SlotStep max s u
  finishes :
      u.queued ≡ s.queued → u.granted ≡ s.granted → suc u.active ≡ s.active → SlotStep max s u
  withdraws :
      suc u.queued ≡ s.queued → u.granted ≡ s.granted → u.active ≡ s.active → SlotStep max s u
  gives_back :
      u.queued ≡ s.queued → suc u.granted ≡ s.granted → u.active ≡ s.active → SlotStep max s u
  rests : u.queued ≡ s.queued → u.granted ≡ s.granted → u.active ≡ s.active → SlotStep max s u

unfoldable pub total : (AgentTask → ℕ) → List AgentTask → ℕ
total w [] = 0
total w (t ∷ ts) = w t + total w ts

abbrev pub queued_of : AgentTask → ℕ
queued_of t = one_if (is_waiting t.status.phase && not (slot_granted t))

abbrev pub granted_of : AgentTask → ℕ
granted_of t = one_if (is_waiting t.status.phase && slot_granted t)

abbrev pub active_of : AgentTask → ℕ
active_of t = one_if (is_active t.status.phase)

-- The counters of a list of tasks.
unfoldable pub slots_of : List AgentTask → Slots
unfolding total
slots_of ts = record {
  queued = total queued_of ts;
  granted = total granted_of ts;
  active = total active_of ts;
}

pub active-eq-occupied : (ts : List AgentTask) → (slots_of ts).active ≡ occupied ts
unfolding slots_of total select
active-eq-occupied [] = refl
active-eq-occupied (t ∷ ts) = ground (arith, active-eq-occupied ts)

pub granted-eq-granted_waiting : (ts : List AgentTask) → (slots_of ts).granted ≡ granted_waiting ts
unfolding slots_of total granted_waiting
granted-eq-granted_waiting [] = refl
granted-eq-granted_waiting (t ∷ ts) = ground (arith, granted-eq-granted_waiting ts)

-- Where one task is replaced, each count changes by that task.
pub ReplacedBy-total :
    (R : AgentTask → AgentTask → Type 0) (ts us : List AgentTask)
    → ReplacedBy R ts us
    → (t : AgentTask) × (u : AgentTask) × R t u
      × ((w : AgentTask → ℕ) → total w us + w t ≡ total w ts + w u)
unfolding total
ReplacedBy-total R [] us h = absurd h
ReplacedBy-total R (t ∷ ts) [] h = absurd h
ReplacedBy-total R (t ∷ ts) (u ∷ us) (inl (r, e)) = (t, u, r, λ w. rw e (omega arith))
ReplacedBy-total R (t ∷ ts) (u ∷ us) (inr (e, h)) =
    let (a, b, r, f) = ReplacedBy-total R ts us h in (a, b, r, λ w. rw e (omega (arith, f w)))

pub Removed-total :
    (ts us : List AgentTask)
    → Removed ts us
    → (t : AgentTask) × ((w : AgentTask → ℕ) → total w us + w t ≡ total w ts)
unfolding total
Removed-total [] us h = absurd h
Removed-total (t ∷ ts) [] h = (t, λ w. rw h (omega arith))
Removed-total (t ∷ ts) (u ∷ us) (inl e) = (t, λ w. rw (← e) (omega arith))
Removed-total (t ∷ ts) (u ∷ us) (inr (e, h)) =
    let (a, f) = Removed-total ts us h in (a, λ w. rw e (omega (arith, f w)))

pub total-arrives :
    (w : AgentTask → ℕ) (t : AgentTask) (ts : List AgentTask)
    → total w (ts ++ t ∷ []) ≡ total w ts + w t
unfolding total
total-arrives w t [] = omega arith
total-arrives w t (u ∷ ts) = omega (arith, total-arrives w t ts)

index-insert_self : (k v : _) (m : Dict) → index k (insert k v m) ≡ v
unfolding index lookup insert
index-insert_self k v [] = ground (arith, text_eq_refl k)
index-insert_self k v ((j, w) ∷ m) = ground (arith, text_eq_refl k, index-insert_self k v m)

pub grant-granted : (t : AgentTask) → slot_granted (grant t) ≡ true
unfolding slot_granted grant
grant-granted t = rw (index-insert_self slot_annotation (lit "true") t.annotations) (text_eq_refl _)

pub GrantedAmong-total :
    (C ts us : List AgentTask)
    → GrantedAmong C ts us
    → (total active_of us ≡ total active_of ts)
      × (total queued_of us + total granted_of us ≡ total queued_of ts + total granted_of ts)
      × (total granted_of ts ≤ total granted_of us)
unfolding total grant
GrantedAmong-total C [] [] g = (refl, refl, omega arith)
GrantedAmong-total C [] (u ∷ us) g = absurd g
GrantedAmong-total C (t ∷ ts) [] g = absurd g
GrantedAmong-total C (t ∷ ts) (u ∷ us) (inl e, g) =
    let (a, b, c) = GrantedAmong-total C ts us g in rw e (ground arith, ground arith, ground arith)
GrantedAmong-total C (t ∷ ts) (u ∷ us) (inr (m, e), g) =
    let (a, b, c) = GrantedAmong-total C ts us g in
    rw e (
      ground (arith, grant-granted t),
      ground (arith, grant-granted t),
      ground (arith, grant-granted t),
    )
