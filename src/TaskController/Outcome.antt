-- ===== src/TaskController/Outcome.antt =====
-- What a reconciler returns, `(ctrl.Result, error)`; durations are in nanoseconds.
use kbrain.Prelude.{ℕ, ◌*◌, Bool, true, false, Option, none, some}
use kbrain.Effects.{Error}

pub record Outcome : Type 0 where
  pub requeue : Bool
  pub requeue_after : ℕ
  pub error : Option Error

-- `return ctrl.Result{}, nil`.
abbrev pub finished : Outcome
finished = record { requeue = false; requeue_after = 0; error = none }

-- `return ctrl.Result{}, err`.
abbrev pub failure : Error → Outcome
failure e = record finished { error = some e }

abbrev pub requeue_now : Outcome
requeue_now = record finished { requeue = true }

abbrev pub requeue_in : ℕ → Outcome
requeue_in d = record finished { requeue_after = d }

abbrev pub second : ℕ
second = 1000000000

abbrev pub minute : ℕ
minute = 60 * second
