-- ===== src/Text/After.antt =====
-- The reading of `find` that a caller has in mind: what follows the first occurrence of a pattern,
-- and what precedes the next line end.
use photogram.Prelude.{
  ℕ, zero, suc, ◌+◌, ◌≡◌, ◌≢◌, refl, ap, inl, inr, true, false, Option, none, some, [], ◌∷◌, ◌++◌,
  arith, length, take, drop, All, Bool-cases, Option-cases, if◌then◌else◌, ◌==◌, drop-length_append,
}
use mathlib.Core.Option
use photogram.Text.{Bytes, starts_with, find?}
use photogram.Text.Find.{Absent, starts_with-append}

-- What follows the first occurrence of `p`, if there is one.
abbrev pub after? : Bytes → Bytes → Option Bytes
after? p [] = if starts_with p [] then some [] else none
after? p (c ∷ t) =
    let rest = after? p t in if starts_with p (c ∷ t) then some (drop (length p) (c ∷ t)) else rest

-- The text up to the first occurrence of `p`, or all of it.
abbrev pub up_to : Bytes → Bytes → Bytes
up_to p [] = []
up_to p (c ∷ t) = let rest = c ∷ up_to p t in if starts_with p (c ∷ t) then [] else rest

starts_with-split : (p t : Bytes) → starts_with p t ≡ true → t ≡ p ++ drop (length p) t
unfolding starts_with
starts_with-split [] t h = refl
starts_with-split (c ∷ p) [] h = cc
starts_with-split (c ∷ p) (d ∷ t) h = ground (arith, starts_with-split p t)

-- `find?` as the split of the text that it stands for.
pub find?-split :
    (p t : Bytes) (i : ℕ)
    → find? p t ≡ some i
    → (pre : Bytes) × (rest : Bytes) × (t ≡ pre ++ (p ++ rest))
      × (length pre ≡ i)
      × (after? p t ≡ some rest)
unfolding find? starts_with
find?-split [] [] i h = ([], [], refl, ground arith, refl)
find?-split (c ∷ p) [] i h = cc
find?-split p (c ∷ t) i h = elim (Bool-cases (starts_with p (c ∷ t))) [
  | inl e ↦ ([], drop (length p) (c ∷ t), starts_with-split p (c ∷ t) e, ground arith, rw e)
  | inr e ↦ elim (Option-cases (find? p t)) [
    | inl absent ↦ absurd (ground arith)
    | inr (j, found) ↦
        let (pre, rest, q, l, a) = find?-split p t j found in
        (c ∷ pre, rest, ap (λ u. c ∷ u) q, ground arith, rw e a)
  ]
]

pub find?-after_none : (p t : Bytes) → find? p t ≡ none → after? p t ≡ none
unfolding find?
find?-after_none p [] h = ground arith
find?-after_none p (c ∷ t) h = elim (Option-cases (find? p t)) [
  | inl e ↦ ground (arith, find?-after_none p t e)
  | inr (j, e) ↦ ground arith
]

-- `up_to` in terms of `find?`.
pub up_to-found : (p t : Bytes) (j : ℕ) → find? p t ≡ some j → up_to p t ≡ take j t
unfolding find?
up_to-found p [] zero h = refl
up_to-found p [] (suc j) h = refl
up_to-found p (c ∷ t) j h = elim (Bool-cases (starts_with p (c ∷ t))) [
  | inl e ↦ let z : zero ≡ j = ground arith in rw (e, ← z)
  | inr e ↦ elim (Option-cases (find? p t)) [
    | inl absent ↦ ground arith
    | inr (k, found) ↦
        let z : suc k ≡ j = ground arith in rw (e, ← z) (ap (λ u. c ∷ u) (up_to-found p t k found))
  ]
]

pub up_to-absent : (p t : Bytes) → find? p t ≡ none → up_to p t ≡ t
unfolding find?
up_to-absent p [] h = refl
up_to-absent p (c ∷ t) h = elim (Option-cases (find? p t)) [
  | inl e ↦ ground (arith, up_to-absent p t e)
  | inr (j, e) ↦ ground arith
]

-- A pattern is looked for behind a text that does not hold its first byte.
pub find?-skip :
    (c : ℕ) (p a t : Bytes)
    → All (λ d. c ≢ d) a
    → find? (c ∷ p) (a ++ t) ≡ Option.map (λ j. length a + j) (find? (c ∷ p) t)
unfolding find? starts_with
find?-skip c p [] t h = elim (Option-cases (find? (c ∷ p) t)) [
  | inl e ↦ rw e
  | inr (j, e) ↦ rw e (ap some (omega arith))
]
find?-skip c p (d ∷ a) t (h, hs) =
    let miss : (c == d) ≡ false = ground arith in
    rw (miss, find?-skip c p a t hs)
      (elim (Option-cases (find? (c ∷ p) t)) [
        | inl e ↦ rw e
        | inr (j, e) ↦ rw e (ap some (omega arith))
      ])

-- What stands behind a pattern that occurs nowhere earlier.
pub after?-append :
    (p pre rest : Bytes) → Absent p pre (p ++ rest) → after? p (pre ++ (p ++ rest)) ≡ some rest
after?-append [] [] [] h = rw (starts_with-append [] [])
after?-append [] [] (d ∷ rest) h = rw (starts_with-append [] (d ∷ rest))
after?-append (c ∷ p) [] rest h =
    rw (starts_with-append (c ∷ p) rest) (ap some (drop-length_append p rest))
after?-append p (c ∷ pre) rest (h, hs) = rw (h, after?-append p pre rest hs)

pub up_to-append :
    (p pre rest : Bytes) → Absent p pre (p ++ rest) → up_to p (pre ++ (p ++ rest)) ≡ pre
up_to-append [] [] [] h = refl
up_to-append [] [] (d ∷ rest) h = rw (starts_with-append [] (d ∷ rest))
up_to-append (c ∷ p) [] rest h = rw (starts_with-append (c ∷ p) rest)
up_to-append p (c ∷ pre) rest (h, hs) = rw h (ap (λ t. c ∷ t) (up_to-append p pre rest hs))
