-- ===== src/GitOps/Decimal.antt =====
-- The decimal digits of a number: the fuel of the loop is enough.
use kbrain.Prelude.{
  ℕ, zero, suc, ◌+◌, ◌-◌, ◌*◌, ◌/◌, ◌%◌, ◌<◌, [], ◌∷◌, ◌≡◌, ◌==◌, ap, ◌∙◌, arith, Bool-cases, inl,
  inr,
}
use kbrain.Prelude.Text.{Text}
use kbrain.GitOps.Strings.{decimal_fuel, decimal}

-- The number that digits denote behind a number.
abbrev pub value_from : ℕ → Text → ℕ
value_from acc [] = acc
value_from acc (c ∷ s) = value_from (acc * 10 + (c - 48)) s

decimal_fuel-value :
    (f n : ℕ) (out : Text) → n < f → value_from 0 (decimal_fuel f n out) ≡ value_from n out
unfolding decimal_fuel
decimal_fuel-value zero n out h = absurd (omega (arith, h))
decimal_fuel-value (suc f) n out h = elim (Bool-cases (n / 10 == 0)) [
  | inl e ↦ rw e (ap (λ k. value_from k out) (ground arith))
  | inr e ↦ rw e (
      decimal_fuel-value f (n / 10) ((48 + n % 10) ∷ out) (ground arith)
      ∙ ap (λ k. value_from k out) (omega arith))
]

-- The digits that are printed for a number denote it.
pub decimal-value : (n : ℕ) → value_from 0 (decimal n) ≡ n
unfolding decimal
decimal-value n = decimal_fuel-value (suc n) n [] (omega arith)
