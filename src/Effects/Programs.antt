-- ===== src/Effects/Programs.antt =====
-- Programs as trees of calls, and statements that hold on every path through a tree.
use kbrain.Prelude.{Option, none, some}
use kbrain.Effects.Calls.{Call, Answer}

pub data Program {ℓ} (A : Type ℓ) : Type ℓ where
  done : A → Program A
  call : (c : Call) → (Answer c → Program A) → Program A
  -- a Go panic
  panic : Program A

infixl 5 ◌>>=◌ ◌>>◌
abbrev pub ◌>>=◌ {ℓ κ} : {A : Type ℓ} {B : Type κ} → Program A → (A → Program B) → Program B
done a >>= f = f a
call c k >>= f = call c (λ r. k r >>= f)
panic >>= f = panic

abbrev pub ◌>>◌ {ℓ κ} : {A : Type ℓ} {B : Type κ} → Program A → Program B → Program B
m >> n = m >>= λ _. n

abbrev pub perform : (c : Call) → Program (Answer c)
perform c = call c done

abbrev pub or_panic {ℓ} : {A : Type ℓ} → Option A → Program A
or_panic none = panic
or_panic (some a) = done a

-- Every call on every path satisfies P, and every result satisfies Q; a panic satisfies both.
abbrev pub Paths {ℓ} : {A : Type ℓ} → (Call → Type 0) → (A → Type 0) → Program A → Type 0
Paths P Q (done a) = Q a
Paths P Q (call c k) = P c × ((r : Answer c) → Paths P Q (k r))
Paths P Q panic = Unit

-- The same as a record, so that a goal shows the program and rules apply by its form.
pub record Always {ℓ} {A : Type ℓ} (P : Call → Type 0) (Q : A → Type 0) (m : Program A)
    : Type 0 where
  pub paths : Paths P Q m
