-- ===== src/Effects/LastWrites.antt =====
-- Programs that write a status at most once, and do nothing afterwards.
use kbrain.Prelude.{Bool, true, false, Option, none, some, if◌then◌else◌}
use kbrain.Effects.Errors.{Error, Result, ok, err}
use kbrain.Effects.Calls.{Call, Answer, update_task_status}
use kbrain.Effects.Programs.{or_panic, Program, done, call, panic, ◌>>=◌, Paths, Always}
use kbrain.Effects.Rules.{Anything}

-- No call on any path.
abbrev pub Quiet {ℓ} : {A : Type ℓ} → Program A → Type 0
Quiet (done a) = Unit
Quiet (call c k) = ⊥
Quiet panic = Unit

-- After a status write, no path makes another call.
abbrev pub QuietAfterWrite {ℓ} : {A : Type ℓ} → Program A → Type 0
QuietAfterWrite (done a) = Unit
QuietAfterWrite panic = Unit
QuietAfterWrite (call (update_task_status u) k) = (r : Result _) → Quiet (k r)
QuietAfterWrite (call c k) = (r : Answer c) → QuietAfterWrite (k r)

-- The same as a record, so that rules apply by the form of the program.
pub record WritesLast {ℓ} {A : Type ℓ} (m : Program A) : Type 0 where
  pub quiet : QuietAfterWrite m

-- Any call but a status write.
abbrev pub NoStatusWrite : Call → Type 0
NoStatusWrite (update_task_status u) = ⊥
NoStatusWrite _ = Unit

QuietAfterWrite-call {ℓ} :
    {A : Type ℓ} (c : Call) (k : Answer c → Program A)
    → NoStatusWrite c
    → ((r : Answer c) → QuietAfterWrite (k r))
    → QuietAfterWrite (call c k)
QuietAfterWrite-call (update_task_status u) k h f = absurd h
QuietAfterWrite-call _ k h f = f

QuietAfterWrite-bind {ℓ κ} :
    {A : Type ℓ} {B : Type κ} (m : Program A) (f : A → Program B)
    → Paths NoStatusWrite Anything m
    → ((a : A) → QuietAfterWrite (f a))
    → QuietAfterWrite (m >>= f)
QuietAfterWrite-bind (done a) f h k = k a
QuietAfterWrite-bind (call c m) f h k =
    QuietAfterWrite-call c (λ r. m r >>= f) h.0 (λ r. QuietAfterWrite-bind (m r) f (h.1 r) k)
QuietAfterWrite-bind panic f h k = tt

module _ {ℓ} {A : Type ℓ} where
  pub WritesLast-done : {a : A} → WritesLast (done a)
  WritesLast-done = record { quiet = tt }

  pub WritesLast-write :
      {t : _} {k : Answer (update_task_status t) → Program A}
      → ((r : Answer (update_task_status t)) → Quiet (k r))
      → WritesLast (call (update_task_status t) k)
  WritesLast-write h = record { quiet = h }

  pub WritesLast-call :
      (c : Call) {k : Answer c → Program A}
      → NoStatusWrite c
      → ((r : Answer c) → WritesLast (k r))
      → WritesLast (call c k)
  WritesLast-call c {k} h f = record { quiet = QuietAfterWrite-call c k h (λ r. (f r).quiet) }

  pub WritesLast-if :
      (b : Bool) {m n : Program A} → WritesLast m → WritesLast n → WritesLast (if b then m else n)
  WritesLast-if true h k = h
  WritesLast-if false h k = k

  pub WritesLast-result {κ} :
      {X : Type κ} (r : Result X) {f : X → Program A} {g : Error → Program A}
      → ((x : X) → WritesLast (f x))
      → ((e : Error) → WritesLast (g e))
      → WritesLast (elim r [ ok x ↦ f x | err e ↦ g e ])
  WritesLast-result (ok x) h k = h x
  WritesLast-result (err e) h k = k e

  pub WritesLast-bind {κ} :
      {X : Type κ} {m : Program X} (f : X → Program A)
      → Always NoStatusWrite Anything m
      → ((x : X) → WritesLast (f x))
      → WritesLast (m >>= f)
  WritesLast-bind {m = m} f h k = record {
    quiet = QuietAfterWrite-bind m f h.paths (λ x. (k x).quiet);
  }

pub or_panic-NoStatusWrite {ℓ} :
    {A : Type ℓ} (o : Option A) → Always NoStatusWrite Anything (or_panic o)
or_panic-NoStatusWrite none = record { paths = tt }
or_panic-NoStatusWrite (some a) = record { paths = tt }
