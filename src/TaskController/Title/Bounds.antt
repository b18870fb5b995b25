-- ===== src/TaskController/Title/Bounds.antt =====
-- How long a truncated title is, and what it keeps of the text.
use kbrain.Prelude.{
  ℕ, ◌-◌, ◌≤◌, ◌<◌, some, [], ◌∷◌, ◌++◌, ◌≡◌, ◌≢◌, refl, ltb, ltb→lt, length, take, length-append,
  length-take, All, All-append, All-take, arith, Bool-cases, inl, inr, ◌⊎◌, ap, ◌==◌,
}
use kbrain.Prelude.Text.{Text, lit}
use kbrain.TaskController.Title.{first_line, truncate}

abbrev pub newline : ℕ
newline = b'\n'

abbrev pub OneLine : Text → Type 0
OneLine = All (λ c. c ≢ newline)

pub first_line-OneLine : (s : Text) → OneLine (first_line s)
unfolding first_line
first_line-OneLine [] = tt
first_line-OneLine (c ∷ s) = ground (arith, first_line-OneLine s)

dots : length (lit "...") ≡ 3
unfolding lit
dots = refl

dots-OneLine : OneLine (lit "...")
unfolding lit
dots-OneLine = omega arith

-- The first line of the text: what comes before the first newline, or all of it.
abbrev pub IsFirstLine : Text → Text → Type 0
IsFirstLine s line =
    OneLine line
    × (rest : Text) × (s ≡ line ++ rest)
    × ((rest ≡ []) ⊎ ((tail : Text) × (rest ≡ newline ∷ tail)))

IsFirstLine-cons :
    (c : ℕ) (s line : Text) → c ≢ newline → IsFirstLine s line → IsFirstLine (c ∷ s) (c ∷ line)
IsFirstLine-cons c s line n (o, rest, e, r) = ((n, o), rest, ap (◌∷◌ c) e, r)

first_line-IsFirstLine : (s : Text) → IsFirstLine s (first_line s)
unfolding first_line
first_line-IsFirstLine [] = (tt, [], refl, inl refl)
first_line-IsFirstLine (c ∷ s) = elim (Bool-cases (c == newline)) [
  | inl e ↦
      let h : c ≡ newline = ground (arith, e) in rw e (tt, c ∷ s, refl, inr (s, ap (λ d. d ∷ s) h))
  | inr e ↦
      rw e
        (IsFirstLine-cons c s (first_line s) (λ h. ground (arith, e, h)) (first_line-IsFirstLine s))
]

-- With a bound of at least 3 the result is defined and is one line that fits the bound: it is the first
-- line of the text, which ends at the first newline or with the text, where that fits; and else it is
-- the first bytes of that line, three less than the bound, with three dots.
pub truncate_bounds :
    (s : Text) (max_len : ℕ)
    → 3 ≤ max_len
    → (r : Text) × (line : Text) × (truncate s max_len ≡ some r)
      × IsFirstLine s line
      × OneLine r
      × (length r ≤ max_len)
      × (((length line ≤ max_len) × (r ≡ line))
          ⊎ ((max_len < length line)
              × (length r ≡ max_len)
              × (r ≡ take (max_len - 3) line ++ lit "...")))
unfolding truncate
truncate_bounds s n h = elim (Bool-cases (ltb n (length (first_line s)))) [
  | inl e ↦
      let r : Text = take (n - 3) (first_line s) ++ lit "..." in
      let len : length r ≡ n = omega (
        arith,
        ltb→lt n (length (first_line s)) e,
        length-append (take (n - 3) (first_line s)) (lit "..."),
        length-take (n - 3) (first_line s),
        dots,
      ) in
      (
        r,
        first_line s,
        ground arith,
        first_line-IsFirstLine s,
        All-append _ (take (n - 3) (first_line s)) (lit "...")
            (All-take _ (n - 3) (first_line s) (first_line-OneLine s)) dots-OneLine,
        omega (arith, len),
        inr (ltb→lt n (length (first_line s)) e, len, refl),
      )
  | inr e ↦ (
    first_line s,
    first_line s,
    ground arith,
    first_line-IsFirstLine s,
    first_line-OneLine s,
    ground arith,
    inl (ground arith, refl),
  )
]
