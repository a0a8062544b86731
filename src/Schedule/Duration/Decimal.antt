-- ===== src/Schedule/Duration/Decimal.antt =====
-- Decimal numbers: reading back what was written.
use activitymanager.Prelude.{
  ℕ, zero, suc, ◌+◌, ◌/◌, ◌%◌, ◌<◌, ◌≡◌, ap, true, false, [], ◌∷◌, ◌++◌, All, arith, ltb, is_empty,
  Bool-cases, inl, inr, ◌∙◌,
}
use activitymanager.Schedule.Duration.{Text, is_digit, span_digits, atoi_from, show_before, show}

abbrev pub Digits : Text → Type 0
Digits = All (λ c. is_digit c ≡ true)

show_before-Digits : (f n : ℕ) (ds : Text) → Digits ds → Digits (show_before f n ds)
unfolding show_before
show_before-Digits zero n ds h = h
show_before-Digits (suc f) n ds h = elim (Bool-cases (ltb n 10)) [
  | inl small ↦ rw small (ground arith, h)
  | inr big ↦ rw big (show_before-Digits f (n / 10) _ (ground arith, h))
]

pub show-Digits : (n : ℕ) → Digits (show n)
unfolding show
show-Digits n = show_before-Digits (suc n) n [] tt

atoi_from-show_before :
    (f n : ℕ) (ds : Text) → n < f → atoi_from 0 (show_before f n ds) ≡ atoi_from n ds
unfolding show_before atoi_from
atoi_from-show_before zero n ds h = absurd (omega arith)
atoi_from-show_before (suc f) n ds h = elim (Bool-cases (ltb n 10)) [
  | inl small ↦ rw small (ap (λ k. atoi_from k ds) (omega arith))
  | inr big ↦ rw big (
      atoi_from-show_before f (n / 10) ((48 + n % 10) ∷ ds) (ground arith)
      ∙ ap (λ k. atoi_from k ds) (omega arith))
]

pub atoi-show : (n : ℕ) → atoi_from 0 (show n) ≡ n
unfolding show atoi_from
atoi-show n = atoi_from-show_before (suc n) n [] (omega arith)

show_before-not-empty :
    (f n : ℕ) (ds : Text) → is_empty ds ≡ false → is_empty (show_before f n ds) ≡ false
unfolding show_before
show_before-not-empty zero n ds h = h
show_before-not-empty (suc f) n ds h =
    ground (arith, show_before-not-empty f (n / 10) ((48 + n % 10) ∷ ds))

pub show-not-empty : (n : ℕ) → is_empty (show n) ≡ false
unfolding show show_before
show-not-empty n = ground (arith, show_before-not-empty n (n / 10) ((48 + n % 10) ∷ []))

-- The digits are read up to the first other byte.
pub span_digits-append :
    (ds : Text) (c : ℕ) (rest : Text)
    → Digits ds
    → is_digit c ≡ false
    → span_digits (ds ++ (c ∷ rest)) ≡ (ds, c ∷ rest)
unfolding span_digits
span_digits-append [] c rest h other = rw other
span_digits-append (d ∷ ds) c rest h other = rw (h.0, span_digits-append ds c rest h.1 other)
