-- ===== src/TaskController/Tracking.antt =====
-- Statements about the calls of a program that depend on the task as it was last answered: by the
-- read that Reconcile begins with, and by the update that adds the finalizer.
use kbrain.Prelude.{Option, none, some, ◌≡◌, refl}
use kbrain.Api.{AgentTask}
use kbrain.Effects.{
  ok, err, Call, Answer, get_task, update_task, Program, done, call, panic, ◌>>=◌, Paths, Always,
}

-- The task in hand after an answer.
abbrev pub observe : (c : Call) → Answer c → Option AgentTask → Option AgentTask
observe (get_task k) (ok t) cur = some t
observe (get_task k) (err e) cur = cur
observe (update_task u) (ok t) cur = some t
observe (update_task u) (err e) cur = cur
observe _ r cur = cur

-- With no task in hand the only call is the read of one.
abbrev pub LegalIn : (AgentTask → Call → Type 0) → Option AgentTask → Call → Type 0
LegalIn L (some t) c = L t c
LegalIn L none (get_task k) = Unit
LegalIn L none _ = ⊥

-- Every call on every path is legal for the task in hand.
abbrev pub Tracks {ℓ} :
    {A : Type ℓ} → (AgentTask → Call → Type 0) → Option AgentTask → Program A → Type 0
Tracks L cur (done a) = Unit
Tracks L cur (call c k) = LegalIn L cur c × ((r : Answer c) → Tracks L (observe c r cur) (k r))
Tracks L cur panic = Unit

-- A call that leaves the task in hand.
abbrev pub KeepsTask : Call → Type 0
KeepsTask (get_task k) = ⊥
KeepsTask (update_task u) = ⊥
KeepsTask _ = Unit

observe_kept :
    (c : Call) (r : Answer c) (cur : Option AgentTask) → KeepsTask c → observe c r cur ≡ cur
observe_kept (get_task k) r cur h = absurd h
observe_kept (update_task u) r cur h = absurd h
observe_kept _ r cur h = refl

module _ {ℓ} {A : Type ℓ} (L : AgentTask → Call → Type 0) (t : AgentTask) where
  Tracks-Paths :
      (Q : A → Type 0) (m : Program A) → Paths (λ c. L t c × KeepsTask c) Q m → Tracks L (some t) m
  Tracks-Paths Q (done a) h = tt
  Tracks-Paths Q (call c k) h =
      (h.0.0, λ r. rw (observe_kept c r (some t) h.0.1) (Tracks-Paths Q (k r) (h.1 r)))
  Tracks-Paths Q panic h = tt

  -- A handler that keeps the task in hand is judged by that task alone.
  pub Always-Tracks :
      {Q : A → Type 0} (m : Program A) → Always (λ c. L t c × KeepsTask c) Q m → Tracks L (some t) m
  Always-Tracks {Q} m h = Tracks-Paths Q m h.paths

module _ {ℓ} {A : Type ℓ} where
  -- What is legal by one judgement is legal by a weaker one.
  pub Tracks-weaken :
      {L M : AgentTask → Call → Type 0}
      → ((t : AgentTask) (c : Call) → L t c → M t c)
      → (cur : Option AgentTask) (m : Program A) → Tracks L cur m
      → Tracks M cur m
  Tracks-weaken w cur (done a) h = tt
  Tracks-weaken w (some t) (call c k) h =
      (w t c h.0, λ r. Tracks-weaken w (observe c r (some t)) (k r) (h.1 r))
  Tracks-weaken w none (call (get_task key) k) h =
      (tt, λ r. Tracks-weaken w (observe (get_task key) r none) (k r) (h.1 r))
  Tracks-weaken w none (call _ k) h = absurd h.0
  Tracks-weaken w cur panic h = tt

module _ {ℓ κ} {A : Type ℓ} {B : Type κ} (L : AgentTask → Call → Type 0) (t : AgentTask) where
  Tracks-Paths_bind :
      (m : Program A) (f : A → Program B)
      → Paths (λ c. L t c × KeepsTask c) (λ a. Tracks L (some t) (f a)) m
      → Tracks L (some t) (m >>= f)
  Tracks-Paths_bind (done a) f h = h
  Tracks-Paths_bind (call c k) f h =
      (h.0.0, λ r. rw (observe_kept c r (some t) h.0.1) (Tracks-Paths_bind (k r) f (h.1 r)))
  Tracks-Paths_bind panic f h = tt

  -- What follows a part that keeps the task in hand is judged by that task.
  pub Tracks-bind :
      (m : Program A) (f : A → Program B)
      → Always (λ c. L t c × KeepsTask c) (λ a. Tracks L (some t) (f a)) m
      → Tracks L (some t) (m >>= f)
  Tracks-bind m f h = Tracks-Paths_bind m f h.paths
