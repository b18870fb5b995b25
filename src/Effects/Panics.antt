-- ===== src/Effects/Panics.antt =====
-- Programs that panic on no path, and the rules that show it by a program's form.
use kbrain.Prelude.{Bool, true, false, Option, none, some, ◌≢◌, refl, if◌then◌else◌}
use kbrain.Effects.Errors.{Error, Result, ok, err}
use kbrain.Effects.Calls.{Call, Answer}
use kbrain.Effects.Programs.{or_panic, Program, done, call, panic, ◌>>=◌}

-- On no path is there a panic.
abbrev pub NeverPanics {ℓ} : {A : Type ℓ} → Program A → Type 0
NeverPanics (done a) = Unit
NeverPanics (call c k) = (r : Answer c) → NeverPanics (k r)
NeverPanics panic = ⊥

-- The same as a record, so that a goal shows the program.
pub record PanicFree {ℓ} {A : Type ℓ} (m : Program A) : Type 0 where
  pub paths : NeverPanics m

module _ {ℓ} {A : Type ℓ} where
  pub PanicFree-done : {a : A} → PanicFree (done a)
  PanicFree-done = record { paths = tt }

  pub PanicFree-call :
      {c : Call} {k : Answer c → Program A}
      → ((r : Answer c) → PanicFree (k r))
      → PanicFree (call c k)
  PanicFree-call f = record { paths = λ r. (f r).paths }

  pub PanicFree-if :
      (b : Bool) {m n : Program A} → PanicFree m → PanicFree n → PanicFree (if b then m else n)
  PanicFree-if true h k = h
  PanicFree-if false h k = k

  pub PanicFree-result {κ} :
      {X : Type κ} (r : Result X) {f : X → Program A} {g : Error → Program A}
      → ((x : X) → PanicFree (f x))
      → ((e : Error) → PanicFree (g e))
      → PanicFree (elim r [ ok x ↦ f x | err e ↦ g e ])
  PanicFree-result (ok x) h k = h x
  PanicFree-result (err e) h k = k e

  pub PanicFree-option {κ} :
      {X : Type κ} (o : Option X) {m : Program A} {f : X → Program A}
      → PanicFree m
      → ((x : X) → PanicFree (f x))
      → PanicFree (elim o [ none ↦ m | some x ↦ f x ])
  PanicFree-option none h k = h
  PanicFree-option (some x) h k = k x

module _ {ℓ κ} {A : Type ℓ} {B : Type κ} where
  NeverPanics-bind :
      (m : Program A) (f : A → Program B)
      → NeverPanics m
      → ((a : A) → NeverPanics (f a))
      → NeverPanics (m >>= f)
  NeverPanics-bind (done a) f h k = k a
  NeverPanics-bind (call c m) f h k = λ r. NeverPanics-bind (m r) f (h r) k
  NeverPanics-bind panic f h k = absurd h

  pub PanicFree-bind :
      (m : Program A) (f : A → Program B)
      → PanicFree m
      → ((a : A) → PanicFree (f a))
      → PanicFree (m >>= f)
  PanicFree-bind m f h k = record { paths = NeverPanics-bind m f h.paths (λ a. (k a).paths) }

  pub PanicFree-or_panic :
      (o : Option A) (f : A → Program B)
      → o ≢ none
      → ((a : A) → PanicFree (f a))
      → PanicFree (or_panic o >>= f)
  PanicFree-or_panic none f n h = absurd (n refl)
  PanicFree-or_panic (some a) f n h = h a
