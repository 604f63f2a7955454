-- ===== src/Text/Number/Laws.antt =====
-- `stoi` on decimal numbers.
use photogram.Prelude.{
  ℕ, ◌+◌, ◌-◌, ◌*◌, ◌≤◌, ◌≡◌, refl, true, false, [], ◌∷◌, arith, All, ltb, ◌==◌,
}
use photogram.Outcome.{ok}
use photogram.Text.{Bytes}
use photogram.Text.Number.{is_digit, is_space, read_digits, read_unsigned, int_max, stoi}

abbrev pub Digit : ℕ → Type 0
Digit d = (48 ≤ d) × (d ≤ 57)

-- The number that a row of digits writes, behind `n`.
abbrev pub value_from : ℕ → Bytes → ℕ
value_from n [] = n
value_from n (d ∷ ds) = value_from (n * 10 + (d - 48)) ds

is_digit_of : (d : ℕ) → Digit d → is_digit d ≡ true
is_digit_of d h = ground arith

read_digits-value : (n : ℕ) (ds : Bytes) → All Digit ds → read_digits n ds ≡ value_from n ds
unfolding read_digits
read_digits-value n [] h = refl
read_digits-value n (d ∷ ds) (h, hs) =
    rw (is_digit_of d h) (read_digits-value (n * 10 + (d - 48)) ds hs)

read_unsigned-value :
    (d : ℕ) (ds : Bytes)
    → All Digit (d ∷ ds)
    → value_from 0 (d ∷ ds) ≤ int_max
    → read_unsigned false (d ∷ ds) ≡ ok (value_from 0 (d ∷ ds))
unfolding read_unsigned
read_unsigned-value d ds h fits =
    let small : ltb int_max (value_from 0 (d ∷ ds)) ≡ false = ground arith in
    rw (is_digit_of d h.0, read_digits-value 0 (d ∷ ds) h, small)

-- Behind a space, a row of digits reads as the number that it writes, if that fits an int.
pub stoi-value :
    (d : ℕ) (ds : Bytes)
    → All Digit (d ∷ ds)
    → value_from 0 (d ∷ ds) ≤ int_max
    → stoi (b' ' ∷ d ∷ ds) ≡ ok (value_from 0 (d ∷ ds))
unfolding stoi
stoi-value d ds h fits =
    let s : is_space d ≡ false = ground arith in
    let m : (d == b'-') ≡ false = ground arith in
    let p : (d == b'+') ≡ false = ground arith in rw (s, m, p) (read_unsigned-value d ds h fits)
