-- ===== src/GitOps/Cutting.antt =====
-- The laws of the string functions of gitops.go.
use kbrain.Prelude.{
  ℕ, false, none, some, [], ◌∷◌, ◌++◌, ◌≡◌, ◌≢◌, refl, ap, ◌∙◌, ◌==◌, length, length-append, All,
  arith, Bool-cases, inl, inr,
}
use kbrain.Prelude.Text.{Text, text_eq, text_eq→eq, text_eq_refl}
use kbrain.GitOps.Strings.{strip_prefix, trim_prefix, trim_suffix, cut}

-- The byte does not occur.
abbrev pub Lacks : ℕ → Text → Type 0
Lacks d = All (λ c. c ≢ d)

pub strip_prefix-append : (p s : Text) → strip_prefix p (p ++ s) ≡ some s
unfolding strip_prefix
strip_prefix-append [] s = refl
strip_prefix-append (c ∷ p) s = ground (arith, strip_prefix-append p s)

pub trim_prefix-append : (p s : Text) → trim_prefix (p ++ s) p ≡ s
unfolding trim_prefix
trim_prefix-append p s = rw (strip_prefix-append p s, trim_prefix)

-- A prefix with a byte that the text lacks up to a separator, which the prefix lacks, is not there.
pub strip_prefix-none :
    (sep d : ℕ) (p a b : Text)
    → Lacks sep p
    → Lacks d a
    → (Lacks d p → ⊥)
    → strip_prefix p (a ++ sep ∷ b) ≡ none
unfolding strip_prefix
strip_prefix-none sep d [] a b h k n = absurd (n tt)
strip_prefix-none sep d (q ∷ p) [] b h k n = ground arith
strip_prefix-none sep d (q ∷ p) (x ∷ a) b h k n = elim (Bool-cases (q == x)) [
  | inl e ↦ rw e (strip_prefix-none sep d p a b h.1 k.1 (λ l. n (ground arith, l)))
  | inr e ↦ rw e
]

longer : (c : ℕ) (s p : Text) → text_eq (c ∷ (s ++ p)) p ≡ false
longer c s p = elim (Bool-cases (text_eq (c ∷ (s ++ p)) p)) [
  | inl e ↦ absurd (omega (arith, ap length (text_eq→eq (c ∷ (s ++ p)) p e), length-append s p))
  | inr e ↦ e
]

trim_suffix_self : (p : Text) → trim_suffix p p ≡ []
unfolding trim_suffix
trim_suffix_self [] = refl
trim_suffix_self (c ∷ p) = rw (text_eq_refl (c ∷ p))

pub trim_suffix-cons :
    (c : ℕ) (s p : Text) → text_eq (c ∷ s) p ≡ false → trim_suffix (c ∷ s) p ≡ c ∷ trim_suffix s p
unfolding trim_suffix
trim_suffix-cons c s p e = rw e

-- Trimming a suffix that is there.
pub trim_suffix-append : (s p : Text) → trim_suffix (s ++ p) p ≡ s
trim_suffix-append [] p = trim_suffix_self p
trim_suffix-append (c ∷ s) p =
    trim_suffix-cons c (s ++ p) p (longer c s p) ∙ ap (◌∷◌ c) (trim_suffix-append s p)

-- Cutting at a separator that the first part lacks.
pub cut-append : (sep : ℕ) (a b : Text) → Lacks sep a → cut sep (a ++ sep ∷ b) ≡ some (a, b)
unfolding cut
cut-append sep [] b h = ground arith
cut-append sep (c ∷ a) b h = ground (arith, cut-append sep a b)
