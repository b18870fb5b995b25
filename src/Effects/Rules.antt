-- ===== src/Effects/Rules.antt =====
-- Rules that take a statement about every path through the parts of a program.
use kbrain.Prelude.{Bool, true, false, Option, none, some, ◌≡◌, refl, if◌then◌else◌}
use kbrain.Effects.Errors.{Error, Result, ok, err}
use kbrain.Effects.Calls.{Call, Answer}
use kbrain.Effects.Programs.{or_panic, Program, done, call, panic, ◌>>=◌, Paths, Always}

-- A statement about calls alone asks nothing of the result.
abbrev pub Anything {ℓ} : {A : Type ℓ} → A → Type 0
Anything a = Unit

module _ {ℓ} {A : Type ℓ} {P : Call → Type 0} {Q : A → Type 0} where
  pub Always-done : {a : A} → Q a → Always P Q (done a)
  Always-done h = record { paths = h }

  pub Always-panic : Always P Q panic
  Always-panic = record { paths = tt }

  pub Always-call :
      {c : Call} {k : Answer c → Program A}
      → P c
      → ((r : Answer c) → Always P Q (k r))
      → Always P Q (call c k)
  Always-call h f = record { paths = (h, λ r. (f r).paths) }

  pub Always-if :
      (b : Bool) {m n : Program A}
      → (b ≡ true → Always P Q m)
      → (b ≡ false → Always P Q n)
      → Always P Q (if b then m else n)
  Always-if true h k = h refl
  Always-if false h k = k refl

  pub Always-result {κ} :
      {X : Type κ} (r : Result X) {f : X → Program A} {g : Error → Program A}
      → ((x : X) → r ≡ ok x → Always P Q (f x))
      → ((e : Error) → r ≡ err e → Always P Q (g e))
      → Always P Q (elim r [ ok x ↦ f x | err e ↦ g e ])
  Always-result (ok x) h k = h x refl
  Always-result (err e) h k = k e refl

  pub Always-option {κ} :
      {X : Type κ} (o : Option X) {m : Program A} {f : X → Program A}
      → (o ≡ none → Always P Q m)
      → ((x : X) → o ≡ some x → Always P Q (f x))
      → Always P Q (elim o [ none ↦ m | some x ↦ f x ])
  Always-option none h k = h refl
  Always-option (some x) h k = k x refl

  Paths-weaken :
      (P' : Call → Type 0) (Q' : A → Type 0) (m : Program A)
      → ((c : Call) → P c → P' c)
      → ((a : A) → Q a → Q' a)
      → Paths P Q m
      → Paths P' Q' m
  Paths-weaken P' Q' (done a) p q h = q a h
  Paths-weaken P' Q' (call c m) p q h = (p c h.0, λ r. Paths-weaken P' Q' (m r) p q (h.1 r))
  Paths-weaken P' Q' panic p q h = tt

  pub Always-weaken :
      {P' : Call → Type 0} {Q' : A → Type 0} {m : Program A}
      → ((c : Call) → P c → P' c)
      → ((a : A) → Q a → Q' a)
      → Always P Q m
      → Always P' Q' m
  Always-weaken {P'} {Q'} {m} p q h = record { paths = Paths-weaken P' Q' m p q h.paths }

module _ {ℓ κ} {A : Type ℓ} {B : Type κ} where
  Paths-bind :
      (P : Call → Type 0) (Q : A → Type 0) (R : B → Type 0) (m : Program A) (f : A → Program B)
      → Paths P Q m
      → ((a : A) → Q a → Paths P R (f a))
      → Paths P R (m >>= f)
  Paths-bind P Q R (done a) f h k = k a h
  Paths-bind P Q R (call c m) f h k = (h.0, λ r. Paths-bind P Q R (m r) f (h.1 r) k)
  Paths-bind P Q R panic f h k = tt

  pub Always-bind :
      {P : Call → Type 0} {Q : A → Type 0} {R : B → Type 0} (m : Program A) (f : A → Program B)
      → Always P Q m
      → ((a : A) → Q a → Always P R (f a))
      → Always P R (m >>= f)
  Always-bind {P} {Q} {R} m f h k = record {
    paths = Paths-bind P Q R m f h.paths (λ a q. (k a q).paths);
  }

module _ {ℓ κ} {A : Type ℓ} {X : Type κ} {P : Call → Type 0} {Q : A → Type 0} where
  pub Always-or_panic :
      (o : Option X) (f : X → Program A)
      → ((x : X) → o ≡ some x → Always P Q (f x))
      → Always P Q (or_panic o >>= f)
  Always-or_panic none f h = Always-panic
  Always-or_panic (some x) f h = h x refl
