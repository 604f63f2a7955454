-- ===== src/Text.antt =====
-- The parts of std::string and std::string_view that the servers use, over lists of bytes.
-- Positions are size_t: `npos` is 2^64 - 1, and sums and differences wrap at 2^64.
pub mod Find
pub mod Decimal
pub mod Number
pub mod After
pub mod StdMap
use Prim.Native.Char.{code}
use photogram.Prelude.{
  ℕ, zero, suc, ◌+◌, ◌-◌, ◌%◌, ◌^◌, Bool, true, false, ◌&&◌, ◌||◌, Option, none, some, List, [],
  ◌∷◌, String, length, take, drop, ltb, ◌==◌, if◌then◌else◌,
}
use photogram.Outcome.{Outcome, ok, throw, out_of_range}
use mathlib.Core.Option

abbrev pub Bytes : Type 0
Bytes = List ℕ

-- The bytes of a literal; every literal of the servers is ASCII.
abbrev pub codes : String → Bytes
codes String.[] = []
codes (String.◌∷◌ c s) = code c ∷ codes s

-- The text that c_str() points to, up to its first zero byte.
abbrev pub c_str : Bytes → Bytes
c_str [] = []
c_str (c ∷ t) = let rest = c_str t in if c == 0 then [] else c ∷ rest

abbrev pub size_mod : ℕ
size_mod = 2 ^ 64

abbrev pub npos : ℕ
npos = size_mod - 1

-- size_t a + b and a - b
abbrev pub add_size : ℕ → ℕ → ℕ
add_size a b = (a + b) % size_mod

abbrev pub sub_size : ℕ → ℕ → ℕ
sub_size a b = (a + size_mod - b) % size_mod

unfoldable pub text_eq : Bytes → Bytes → Bool
text_eq [] [] = true
text_eq [] (d ∷ t) = false
text_eq (c ∷ s) [] = false
text_eq (c ∷ s) (d ∷ t) = c == d && text_eq s t

unfoldable pub starts_with : Bytes → Bytes → Bool
starts_with [] t = true
starts_with (c ∷ p) [] = false
starts_with (c ∷ p) (d ∷ t) = c == d && starts_with p t

-- The first position of `p` in the text, if any.
unfoldable pub find? : Bytes → Bytes → Option ℕ
find? p [] = if starts_with p [] then some 0 else none
find? p (c ∷ t) =
    let rest = Option.map suc (find? p t) in if starts_with p (c ∷ t) then some 0 else rest

abbrev pub from_start : ℕ → Option ℕ → ℕ
from_start start none = npos
from_start start (some i) = start + i

-- t.find(p, start)
unfoldable pub find : Bytes → Bytes → ℕ → ℕ
unfolding find? starts_with
find t p start = if ltb (length t) start then npos else from_start start (find? p (drop start t))

-- t.find_first_of(set)
unfoldable pub member : ℕ → Bytes → Bool
member c [] = false
member c (d ∷ s) = c == d || member c s

unfoldable pub first_of? : Bytes → Bytes → Option ℕ
unfolding member
first_of? set [] = none
first_of? set (c ∷ t) =
    let rest = Option.map suc (first_of? set t) in if member c set then some 0 else rest

unfoldable pub find_first_of : Bytes → Bytes → ℕ
unfolding first_of?
find_first_of t set = from_start 0 (first_of? set t)

-- t.substr(start, count): throws when the start is beyond the end
unfoldable pub substr : Bytes → ℕ → ℕ → Outcome Bytes
substr t start count =
    if ltb (length t) start then throw out_of_range else ok (take count (drop start t))
