-- ===== src/GitOps/Strings.antt =====
-- Go's `strings` functions, as far as gitops.go uses them.
use kbrain.Prelude.{
  ℕ, zero, suc, ◌+◌, ◌/◌, ◌%◌, Bool, true, false, Option, none, some, [], ◌∷◌, ◌++◌, ◌==◌,
  if◌then◌else◌,
}
use kbrain.Prelude.Int.{ℤ, pos, negsuc}
use kbrain.Prelude.Text.{Text, text_eq, lit}

-- The rest of the text behind a prefix, if it has that prefix.
unfoldable pub strip_prefix : Text → Text → Option Text
strip_prefix [] s = some s
strip_prefix (p ∷ ps) [] = none
strip_prefix (p ∷ ps) (c ∷ s) = if p == c then strip_prefix ps s else none

-- `strings.HasPrefix(s, p)`.
unfoldable pub has_prefix : Text → Text → Bool
unfolding strip_prefix
has_prefix s p = elim (strip_prefix p s) [ none ↦ false | some r ↦ true ]

-- `strings.TrimPrefix(s, p)`.
unfoldable pub trim_prefix : Text → Text → Text
unfolding strip_prefix
trim_prefix s p = elim (strip_prefix p s) [ none ↦ s | some r ↦ r ]

-- `strings.TrimSuffix(s, p)`: the text up to the point where the rest is `p`.
unfoldable pub trim_suffix : Text → Text → Text
trim_suffix [] p = []
trim_suffix (c ∷ s) p = let rest = c ∷ trim_suffix s p in if text_eq (c ∷ s) p then [] else rest

-- `strings.SplitN(s, sep, 2)` with a separator of one byte: the two parts, or none where the
-- result has the one part `s`. It also serves `strings.Index`, whose index is the first part's length.
unfoldable pub cut : ℕ → Text → Option (Text × Text)
cut sep [] = none
cut sep (c ∷ s) =
    let rest : Option (Text × Text) = elim (cut sep s) [
      | none ↦ none
      | some (a, b) ↦ some (c ∷ a, b)
    ] in
    if c == sep then some ([], s) else rest

-- `strings.ReplaceAll(s, "c", r)` for a text of one byte.
unfoldable pub replace_all : ℕ → Text → Text → Text
replace_all old new [] = []
replace_all old new (c ∷ s) = (if c == old then new else c ∷ []) ++ replace_all old new s

unfoldable pub decimal_fuel : ℕ → ℕ → Text → Text
decimal_fuel zero n out = out
decimal_fuel (suc f) n out =
    let out' = (48 + n % 10) ∷ out in
    let rest = decimal_fuel f (n / 10) out' in if n / 10 == 0 then out' else rest

-- What `%d` prints; a number has fewer digits than n + 1.
unfoldable pub decimal : ℕ → Text
unfolding decimal_fuel
decimal n = decimal_fuel (suc n) n []

unfoldable pub decimal_ℤ : ℤ → Text
unfolding decimal
decimal_ℤ (pos n) = decimal n
decimal_ℤ (negsuc n) = lit "-" ++ decimal (suc n)
