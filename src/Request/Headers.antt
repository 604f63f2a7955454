-- ===== src/Request/Headers.antt =====
-- `getValueSomeHeader` and `getValueWithSpace` against "what follows the header up to the line end".
use mathlib.Core.Option
use photogram.Prelude.{
  ℕ, ◌+◌, ◌-◌, ◌%◌, ◌<◌, ◌≡◌, ◌≢◌, subst, ap, ◌∙◌, inl, inr, false, Option, none, some, [], ◌∷◌,
  ◌++◌, arith, length, take, All, Option-cases, length-append, append_assoc, ◌==◌, take-all,
}
use photogram.Outcome.{Outcome, ok, throw, runtime_error}
use photogram.Text.{Bytes, npos, size_mod, add_size, sub_size, find?, find, from_start, substr}
use photogram.Text.Find.{find-append, find-start, substr-seam, find?-bound, starts_with-ne}
use photogram.Text.After.{
  after?, up_to, find?-split, find?-after_none, up_to-found, up_to-absent, find?-skip,
}
use photogram.Request.{crlf, get_value_some_header, get_value_with_space}

-- The byte 13 is the first of a line end.
abbrev pub OneLine : Bytes → Type 0
OneLine = All (λ d. 13 ≢ d)

cut_at : Option ℕ → ℕ → ℕ → ℕ
cut_at o a b = sub_size (from_start a o) b

take-cut :
    (pre a : ℕ) (rest : Bytes)
    → pre + (a + length rest) < npos
    → take (cut_at (Option.map (λ j. a + j) (find? crlf rest)) pre (pre + a)) rest ≡ up_to crlf rest
unfolding cut_at
take-cut pre a rest h = elim (Option-cases (find? crlf rest)) [
  | inl e ↦ rw (e, up_to-absent crlf rest e) (take-all _ rest (omega arith))
  | inr (j, e) ↦
      let b = find?-bound crlf rest j e in
      let n : (pre + (a + j) + size_mod - (pre + a)) % size_mod ≡ j = omega arith in
      rw (e, up_to-found crlf rest j e, n)
]

-- The end of the line is looked for from `pre` on, and the cut starts behind `a`.
cut_line :
    (pre a rest : Bytes)
    → OneLine a
    → length pre + (length a + length rest) < npos
    → substr
        (pre ++ (a ++ rest))
        (length pre + length a)
        (sub_size (find (pre ++ (a ++ rest)) crlf (length pre)) (length pre + length a))
      ≡ ok (up_to crlf rest)
unfolding cut_at
cut_line pre a rest line small =
    rw
      (
        find-append pre (a ++ rest) crlf,
        find?-skip 13 (10 ∷ []) a rest line,
        ← append_assoc pre a rest,
        ← length-append pre a,
      )
      (substr-seam (pre ++ a) rest _
        ∙ ap ok (rw length-append (take-cut (length pre) (length a) rest small)))

-- What a value that begins with the last byte of its header is: `c` is that byte.
abbrev pub header_value : ℕ → Option Bytes → Option Bytes
header_value c none = none
header_value c (some rest) = some (c ∷ up_to crlf rest)

found_at : (i : ℕ) → i < npos → (i == npos) ≡ false
found_at i h = ground arith

get_value_some_header_split :
    (pre name : Bytes) (c : ℕ) (rest : Bytes)
    → OneLine name
    → 13 ≢ c
    → length pre + (length name + length (c ∷ rest)) < npos
    → find? (name ++ c ∷ []) (pre ++ (name ++ c ∷ rest)) ≡ some (length pre)
    → get_value_some_header (pre ++ (name ++ c ∷ rest)) (name ++ c ∷ []) 0
      ≡ ok (some (c ∷ up_to crlf rest))
unfolding get_value_some_header
get_value_some_header_split pre name c rest line cr small found =
    let start : sub_size (add_size (length pre) (length (name ++ c ∷ []))) 1
        ≡ length pre + length name =
      omega (arith, length-append {0} name (c ∷ [])) in
    let zero_add : 0 + length pre ≡ length pre = omega arith in
    rw (
      find-start,
      found,
      zero_add,
      found_at (length pre) (omega arith),
      start,
      cut_line pre name (c ∷ rest) line small,
      starts_with-ne 13 c (10 ∷ []) rest cr,
    )

some_header_absent :
    (request header : Bytes)
    → find? header request ≡ none
    → get_value_some_header request header 0 ≡ ok none
unfolding get_value_some_header
some_header_absent request header h = rw (find-start, h)

-- On every request that is shorter than `npos`, `getValueSomeHeader` returns nothing exactly when the
-- header does not occur, and else the last byte of the header with what follows up to the line end.
-- It never throws. The header holds no byte 13.
pub get_value_some_header_lem :
    (request name : Bytes) (c : ℕ)
    → OneLine name
    → 13 ≢ c
    → length request < npos
    → get_value_some_header request (name ++ c ∷ []) 0
      ≡ ok (header_value c (after? (name ++ c ∷ []) request))
get_value_some_header_lem request name c line cr small =
    elim (Option-cases (find? (name ++ c ∷ []) request)) [
      | inl e ↦ rw (some_header_absent request _ e, find?-after_none _ request e)
      | inr (i, e) ↦
          let (pre, rest, q, l, a) = find?-split (name ++ c ∷ []) request i e in
          let whole : request ≡ pre ++ (name ++ c ∷ rest) =
            q ∙ ap (λ u. pre ++ u) (append_assoc name (c ∷ []) rest) in
          let sizes = ap length whole ∙ length-append pre (name ++ c ∷ rest) in
          rw (a, whole)
            (get_value_some_header_split pre name c rest line cr
              (omega (arith, sizes, length-append {0} name (c ∷ rest)))
              (subst (λ r. find? (name ++ c ∷ []) r ≡ some (length pre)) whole (rw l e)))
    ]

-- What `getValueWithSpace` makes of the text behind the header.
abbrev pub space_value : Option Bytes → Outcome Bytes
space_value none = throw (runtime_error "no header")
space_value (some rest) = ok (up_to crlf rest)

with_space_split :
    (pre header rest : Bytes)
    → OneLine header
    → length pre + (length header + length rest) < npos
    → find? header (pre ++ (header ++ rest)) ≡ some (length pre)
    → get_value_with_space (pre ++ (header ++ rest)) header 0 ≡ ok (up_to crlf rest)
unfolding get_value_with_space
with_space_split pre header rest line small found =
    let zero_add : 0 + length pre ≡ length pre = omega arith in
    let start : add_size (length pre) (length header) ≡ length pre + length header = omega arith in
    rw (find-start, found, zero_add, found_at (length pre) (omega arith), start)
      (cut_line pre header rest line small)

with_space_absent :
    (request header : Bytes)
    → find? header request ≡ none
    → get_value_with_space request header 0 ≡ throw (runtime_error "no header")
unfolding get_value_with_space
with_space_absent request header h = rw (find-start, h)

-- `getValueWithSpace` throws exactly when the header does not occur, and else returns what follows the
-- header up to the line end. The header holds no byte 13, and the request is shorter than `npos`.
pub get_value_with_space_lem :
    (request header : Bytes)
    → OneLine header
    → length request < npos
    → get_value_with_space request header 0 ≡ space_value (after? header request)
get_value_with_space_lem request header line small = elim (Option-cases (find? header request)) [
  | inl e ↦ rw (with_space_absent request header e, find?-after_none header request e)
  | inr (i, e) ↦
      let (pre, rest, q, l, a) = find?-split header request i e in
      let sizes = ap length q ∙ length-append pre (header ++ rest) in
      rw (a, q)
        (with_space_split pre header rest line (omega (arith, sizes, length-append {0} header rest))
          (subst (λ r. find? header r ≡ some (length pre)) q (rw l e)))
]
