-- ===== src/Text/Number.antt =====
-- std::stoi in base 10, and its value as a size_t.
pub mod Laws
use photogram.Prelude.{
  ℕ, ◌+◌, ◌-◌, ◌*◌, ◌%◌, ◌^◌, Bool, true, false, ◌&&◌, ◌||◌, [], ◌∷◌, leb, ltb, ◌==◌, if◌then◌else◌,
}
use photogram.Outcome.{Outcome, ok, throw, invalid_argument, out_of_range}
use photogram.Text.{Bytes, size_mod}

abbrev pub is_digit : ℕ → Bool
is_digit c = leb b'0' c && leb c b'9'

abbrev pub is_space : ℕ → Bool
is_space c = c == b' ' || (leb 9 c && leb c 13)

abbrev pub skip_spaces : Bytes → Bytes
skip_spaces [] = []
skip_spaces (c ∷ t) = let rest = skip_spaces t in if is_space c then rest else c ∷ t

-- The number that the leading digits write, behind the `n` read so far.
unfoldable pub read_digits : ℕ → Bytes → ℕ
read_digits n [] = n
read_digits n (c ∷ t) =
    let rest = read_digits (n * 10 + (c - b'0')) t in if is_digit c then rest else n

abbrev pub int_max : ℕ
int_max = 2 ^ 31 - 1

-- The int as a size_t: a negative one wraps.
abbrev pub to_size : Bool → ℕ → ℕ
to_size true n = (size_mod - n) % size_mod
to_size false n = n

unfoldable pub read_unsigned : Bool → Bytes → Outcome ℕ
read_unsigned negative [] = throw invalid_argument
read_unsigned negative (c ∷ t) =
    let n = read_digits 0 (c ∷ t) in
    let limit = if negative then int_max + 1 else int_max in
    if is_digit c
    then (if ltb limit n then throw out_of_range else ok (to_size negative n))
    else throw invalid_argument

abbrev read_signed : Bytes → Outcome ℕ
read_signed [] = throw invalid_argument
read_signed (c ∷ t) =
    if c == b'-'
    then read_unsigned true t
    else if c == b'+'
    then read_unsigned false t
    else read_unsigned false (c ∷ t)

-- (size_t)std::stoi(t)
unfoldable pub stoi : Bytes → Outcome ℕ
stoi t = read_signed (skip_spaces t)
