-- ===== src/Text/Decimal.antt =====
-- std::to_string of a size_t, and its reading.
use photogram.Prelude.{
  ℕ, zero, suc, ◌+◌, ◌*◌, ◌/◌, ◌%◌, ◌<◌, ◌≤◌, length, ◌≡◌, ◌∙◌, true, inl, inr, ap, [], ◌∷◌, arith,
  ltb, if◌then◌else◌, Bool-cases,
}
use photogram.Text.{Bytes, size_mod}
use photogram.Text.Number.Laws.{value_from}

-- The digits of `n` in front of `behind`; the fuel counts them.
unfoldable pub digits_before : ℕ → ℕ → Bytes → Bytes
digits_before zero n behind = behind
digits_before (suc fuel) n behind =
    let more = digits_before fuel (n / 10) ((b'0' + n % 10) ∷ behind) in
    if ltb n 10 then (b'0' + n) ∷ behind else more

-- A size_t has at most 20 digits.
unfoldable pub to_string : ℕ → Bytes
unfolding digits_before
to_string n = digits_before 20 n []

abbrev pub power_of_ten : ℕ → ℕ
power_of_ten zero = 1
power_of_ten (suc k) = 10 * power_of_ten k

digits_before-value :
    (fuel n : ℕ) (behind : Bytes)
    → n < power_of_ten (suc fuel)
    → value_from 0 (digits_before (suc fuel) n behind) ≡ value_from n behind
unfolding digits_before
digits_before-value zero n behind h =
    let small : ltb n 10 ≡ true = ground arith in
    rw small (ap (λ m. value_from m behind) (omega arith))
digits_before-value (suc fuel) n behind h = elim (Bool-cases (ltb n 10)) [
  | inl e ↦ rw e (ap (λ m. value_from m behind) (omega arith))
  | inr e ↦ rw e (
      digits_before-value fuel (n / 10) ((b'0' + n % 10) ∷ behind) (omega arith)
      ∙ ap (λ m. value_from m behind) (omega arith))
]

-- The digits of every size_t write it.
pub value_from-to_string : (n : ℕ) → n < size_mod → value_from 0 (to_string n) ≡ n
unfolding to_string
value_from-to_string n h = digits_before-value 19 n [] (omega arith)

digits_before-length :
    (fuel k n : ℕ) (behind : Bytes)
    → k < fuel
    → n < power_of_ten (suc k)
    → length (digits_before fuel n behind) ≤ suc k + length behind
unfolding digits_before
digits_before-length zero k n behind f h = omega arith
digits_before-length (suc fuel) zero n behind f h =
    let small : ltb n 10 ≡ true = ground arith in rw small (omega arith)
digits_before-length (suc fuel) (suc k) n behind f h = elim (Bool-cases (ltb n 10)) [
  | inl e ↦ rw e (omega arith)
  | inr e ↦
      let shorter =
        digits_before-length fuel k (n / 10) ((b'0' + n % 10) ∷ behind) (omega arith)
          (omega arith) in
      rw e (omega (arith, shorter))
]

-- A number below a power of ten has no more digits than that.
pub to_string-length : (k n : ℕ) → k < 20 → n < power_of_ten (suc k) → length (to_string n) ≤ suc k
unfolding to_string
to_string-length k n f h = let l = digits_before-length 20 k n [] f h in omega (arith, l)
