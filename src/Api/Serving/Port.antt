-- ===== src/Api/Serving/Port.antt =====
-- The printing of numbers, which is on fuel, and their reading.
use vignemale.Api.Serving.{digits_value}
use vignemale.Prelude.{
  Bool-cases, [], ap, arith, inl, inr, ltb, suc, zero, ℕ, ◌%◌, ◌*◌, ◌+◌, ◌-◌, ◌/◌, ◌<◌, ◌∙◌, ◌∷◌,
  ◌≡◌, ◌≤◌,
}
use vignemale.Prelude.Text.{Text, print_digits, print_nat}

digits_value-print_digits :
    (fuel n : ℕ) (acc : Text)
    → n < fuel
    → digits_value 0 (print_digits fuel n acc) ≡ digits_value n acc
digits_value-print_digits zero n acc h = absurd (omega arith)
digits_value-print_digits (suc fuel) n acc h = elim (Bool-cases (ltb n 10)) [
  | inl small ↦ rw small (ap (λ k. digits_value k acc) last_digit)
  | inr large ↦
      let ten : 10 ≤ n = ground arith in
      rw large (
        digits_value-print_digits fuel (n / 10) ((48 + n % 10) ∷ acc) (omega arith)
        ∙ ap (λ k. digits_value k acc) more_digits)
]
  where
    last_digit : 0 * 10 + ((48 + n) - 48) ≡ n
    last_digit = omega arith

    more_digits : n / 10 * 10 + ((48 + n % 10) - 48) ≡ n
    more_digits = omega arith

-- The fuel of `print_nat` is enough: the digits of a number have its value.
digits_value-print_nat : (n : ℕ) → digits_value 0 (print_nat n) ≡ n
unfolding print_nat
digits_value-print_nat n = digits_value-print_digits (suc n) n [] (omega arith)
