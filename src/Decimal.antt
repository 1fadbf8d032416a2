-- ===== src/Decimal.antt =====
-- A number written in decimal: `%d` and `%02d` of the fmt package, and strconv.FormatInt.
use den_scout.Prelude.{
  ℕ, zero, suc, ◌+◌, ◌/◌, ◌%◌, ◌≤◌, ◌<◌, ◌≡◌, refl, ap, sym, subst, ◌∙◌, true, false, [], ◌∷◌, inl,
  inr, ltb, Bool-cases, length, arith, if◌then◌else◌,
}
use den_scout.Pattern.{Text}
use den_scout.StreamId.{all_digits, decimal}

-- The digits of a number in front of a text. Each turn drops a digit, so a turn more than the number is
-- enough.
unfoldable pub digits_from : ℕ → ℕ → Text → Text
digits_from zero n s = s
digits_from (suc fuel) n s = elim (ltb n 10) [
  | true ↦ (b'0' + n) ∷ s
  | false ↦ digits_from fuel (n / 10) ((b'0' + n % 10) ∷ s)
]

unfoldable pub digits : ℕ → Text
unfolding digits_from
digits n = digits_from (suc n) n []

unfoldable pub two_digits : ℕ → Text
unfolding digits
two_digits n = if ltb n 10 then b'0' ∷ digits n else digits n

last_digit : (fuel n : ℕ) (s : Text) → ltb n 10 ≡ true → digits_from (suc fuel) n s ≡ (b'0' + n) ∷ s
unfolding digits_from
last_digit fuel n s e = rw (e, digits_from) refl

next_digit :
    (fuel n : ℕ) (s : Text)
    → ltb n 10 ≡ false
    → digits_from (suc fuel) n s ≡ digits_from fuel (n / 10) ((b'0' + n % 10) ∷ s)
unfolding digits_from
next_digit fuel n s e = rw (e, digits_from) refl

decimal-digits_from :
    (fuel n : ℕ) (s : Text) → n < fuel → decimal 0 (digits_from fuel n s) ≡ decimal n s
unfolding decimal
decimal-digits_from zero n s h = ground (arith, h)
decimal-digits_from (suc fuel) n s h = elim (Bool-cases (ltb n 10)) [
  | inl e ↦ ap (decimal 0) (last_digit fuel n s e) ∙ ap (λ v. decimal v s) (omega arith)
  | inr e ↦
      let more : 10 ≤ n = ground (arith, e) in
      let rest = decimal-digits_from fuel (n / 10) ((b'0' + n % 10) ∷ s) (omega (arith, h, more)) in
      ap (decimal 0) (next_digit fuel n s e) ∙ rest ∙ ap (λ v. decimal v s) (omega arith)
]

abbrev IsRun : Text → Type 0
IsRun s = (all_digits s ≡ true) × (0 < length s)

digits_from-IsRun :
    (fuel n : ℕ) (s : Text) → n < fuel → all_digits s ≡ true → IsRun (digits_from fuel n s)
unfolding all_digits
digits_from-IsRun zero n s h v = ground (arith, h)
digits_from-IsRun (suc fuel) n s h v = elim (Bool-cases (ltb n 10)) [
  | inl e ↦ subst IsRun (sym (last_digit fuel n s e)) (ground (arith, e, v), omega arith)
  | inr e ↦
      let more : 10 ≤ n = ground (arith, e) in
      subst IsRun (sym (next_digit fuel n s e)) (
        digits_from-IsRun fuel (n / 10) ((b'0' + n % 10) ∷ s) (omega (arith, h, more))
          (ground (arith, v)))
]

-- The digits of a number are read back as it.
pub decimal-digits :
    (n : ℕ) → (all_digits (digits n) ≡ true) × (0 < length (digits n)) × (decimal 0 (digits n) ≡ n)
unfolding digits decimal all_digits
decimal-digits n =
    let (are, some_digit) = digits_from-IsRun (suc n) n [] (omega arith) refl in
    (are, some_digit, decimal-digits_from (suc n) n [] (omega arith))
