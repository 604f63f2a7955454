-- ===== src/Text/Find.antt =====
-- Where `find` finds, and what `substr` cuts.
use photogram.Prelude.{
  Bool, not, ◌&&◌, ℕ, ◌≤◌, ◌≡◌, ◌≢◌, refl, inl, inr, true, false, some, [], ◌∷◌, ◌++◌, arith,
  length, take, All, ltb-false, Option-cases, length-append, drop-length_append,
}
use photogram.Outcome.{ok}
use photogram.Text.{Bytes, text_eq, starts_with, find?, find, from_start, substr, member, first_of?}

-- `p` starts at no position of `pre`, when `rest` follows.
abbrev pub Absent : Bytes → Bytes → Bytes → Type 0
Absent p [] rest = Unit
Absent p (c ∷ pre) rest = (starts_with p (c ∷ (pre ++ rest)) ≡ false) × Absent p pre rest

pub text_eq_refl : (s : Bytes) → text_eq s s ≡ true
unfolding text_eq
text_eq_refl [] = refl
text_eq_refl (c ∷ s) = ground (arith, text_eq_refl s)

pub text_eq_sound : (s t : Bytes) → text_eq s t ≡ true → s ≡ t
unfolding text_eq
text_eq_sound [] [] h = refl
text_eq_sound [] (d ∷ t) h = cc
text_eq_sound (c ∷ s) [] h = cc
text_eq_sound (c ∷ s) (d ∷ t) h = ground (arith, text_eq_sound s t)

pub starts_with-append : (p t : Bytes) → starts_with p (p ++ t) ≡ true
unfolding starts_with
starts_with-append [] t = refl
starts_with-append (c ∷ p) t = ground (arith, starts_with-append p t)

pub find?-append :
    (p pre rest : Bytes)
    → Absent p pre (p ++ rest)
    → find? p (pre ++ (p ++ rest)) ≡ some (length pre)
unfolding find?
find?-append [] [] [] h = ground (arith, starts_with-append [] [])
find?-append [] [] (c ∷ rest) h = ground (arith, starts_with-append [] (c ∷ rest))
find?-append (c ∷ p) [] rest h = ground (arith, starts_with-append (c ∷ p) rest)
find?-append p (c ∷ pre) rest (h, hs) = rw (h, find?-append p pre rest hs)

-- What `find?` finds is an occurrence inside the text.
pub find?-bound : (p t : Bytes) (i : ℕ) → find? p t ≡ some i → i ≤ length t
unfolding find?
find?-bound p [] i h = ground arith
find?-bound p (c ∷ t) i h = elim (Option-cases (find? p t)) [
  | inl e ↦ ground arith
  | inr (j, e) ↦ ground (arith, find?-bound p t j e)
]

pub All-ne-Absent : (c : ℕ) (p pre rest : Bytes) → All (λ d. c ≢ d) pre → Absent (c ∷ p) pre rest
unfolding starts_with
All-ne-Absent c p [] rest h = tt
All-ne-Absent c p (d ∷ pre) rest (h, hs) = (ground arith, All-ne-Absent c p pre rest hs)

-- `find` from the middle of a text looks at what follows.
pub find-append : (a t p : Bytes) → find (a ++ t) p (length a) ≡ from_start (length a) (find? p t)
unfolding find
find-append a t p = rw (
  ltb-false (length (a ++ t)) (length a) (omega (arith, length-append {0} a t)),
  drop-length_append,
)

pub find-start : (t p : Bytes) → find t p 0 ≡ from_start 0 (find? p t)
find-start t p = find-append [] t p

-- A cut that starts at the seam of two texts.
pub substr-seam : (a b : Bytes) (n : ℕ) → substr (a ++ b) (length a) n ≡ ok (take n b)
unfolding substr
substr-seam a b n = rw (
  ltb-false (length (a ++ b)) (length a) (omega (arith, length-append {0} a b)),
  drop-length_append,
)

pub first_of?-append :
    (set pre rest : Bytes) (c : ℕ)
    → All (λ d. member d set ≡ false) pre
    → member c set ≡ true
    → first_of? set (pre ++ (c ∷ rest)) ≡ some (length pre)
unfolding first_of?
first_of?-append set [] rest c _ m = rw m
first_of?-append set (d ∷ pre) rest c (h, hs) m = rw (h, first_of?-append set pre rest c hs m)

pub starts_with-ne : (c d : ℕ) (p t : Bytes) → c ≢ d → starts_with (c ∷ p) (d ∷ t) ≡ false
unfolding starts_with
starts_with-ne c d p t h = ground arith

-- The test of `Absent`, for concrete texts.
abbrev pub is_absent : Bytes → Bytes → Bytes → Bool
is_absent p [] rest = true
is_absent p (c ∷ pre) rest = not (starts_with p (c ∷ (pre ++ rest))) && is_absent p pre rest

pub Absent-of_test : (p pre rest : Bytes) → is_absent p pre rest ≡ true → Absent p pre rest
Absent-of_test p [] rest h = tt
Absent-of_test p (c ∷ pre) rest h = (ground arith, Absent-of_test p pre rest (ground arith))
