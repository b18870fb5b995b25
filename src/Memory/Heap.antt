-- ===== src/Memory/Heap.antt =====
-- Memory: cells at addresses, of which those below the next free one are in use.
use kbrain.Prelude.{ℕ, suc, ◌==◌, if◌then◌else◌}

pub record Heap (C : Type 0) : Type 0 where
  pub next : ℕ
  pub cell : ℕ → C

abbrev pub Mem : Type 0 → Type 0 → Type 0
Mem C A = Heap C → A × Heap C

module _ {C : Type 0} where
  abbrev pub pure : {A : Type 0} → A → Mem C A
  pure a h = (a, h)

  infixl 5 ◌>>=◌ ◌>>◌
  abbrev pub ◌>>=◌ : {A B : Type 0} → Mem C A → (A → Mem C B) → Mem C B
  ◌>>=◌ m f h = let (a, g) = m h in f a g

  abbrev pub ◌>>◌ : {B : Type 0} → Mem C (Unit {0}) → Mem C B → Mem C B
  m >> n = m >>= λ _. n

  abbrev pub update : (ℕ → C) → ℕ → C → ℕ → C
  update f p c q = if p == q then c else f q

  -- A new cell with its content.
  unfoldable pub new : C → Mem C ℕ
  new c h = (h.next, record { next = suc h.next; cell = update h.cell h.next c })

  unfoldable pub load : ℕ → Mem C C
  load p h = (h.cell p, h)

  unfoldable pub store : ℕ → C → Mem C (Unit {0})
  store p c h = (tt, record h { cell = update h.cell p c })
