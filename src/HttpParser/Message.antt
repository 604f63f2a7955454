-- ===== src/HttpParser/Message.antt =====
-- The first line of a request: its kind and its message.
use photogram.Prelude.{
  ℕ, ◌+◌, ◌≤◌, ◌<◌, ◌≡◌, ◌≢◌, ap, ◌∙◌, ◌⊎◌, true, false, some, [], ◌∷◌, ◌++◌, arith, length, All,
  length-append, ◌==◌, ltb, take-length_append, take-all,
}
use photogram.Outcome.{ok}
use photogram.Text.{Bytes, codes, npos, sub_size, find?, find_first_of, first_of?, member, substr}
use photogram.Text.Find.{find-start, find?-append, All-ne-Absent, substr-seam, first_of?-append}
use photogram.Text.StdMap.{StdMap, lookup}
use photogram.HttpParser.{req_type_of, get_req_t, get_msg}

-- A request of at least seven bytes, with a space behind its first word, which has at most seven, is given the kind of that
-- word, and the parser goes on behind it.
pub get_req_t-word :
    (word rest : Bytes)
    → All (λ d. b' ' ≢ d) word
    → length word ≤ 7
    → 7 ≤ length (word ++ b' ' ∷ rest)
    → get_req_t (word ++ b' ' ∷ rest)
      ≡ ok (some (record { type = req_type_of word; size = length word }))
unfolding get_req_t
get_req_t-word word rest plain short long =
    let zero_add : 0 + length word ≡ length word = omega arith in
    let a : ltb (length (word ++ b' ' ∷ rest)) 7 ≡ false = ground arith in
    let b : (length word == npos) ≡ false = ground arith in
    let c : ltb 7 (length word) ≡ false = ground arith in
    rw (
      find-start,
      find?-append (b' ' ∷ []) word rest (All-ne-Absent b' ' [] word (b' ' ∷ rest) plain),
      zero_add,
      a,
      b,
      c,
      substr-seam [] (word ++ b' ' ∷ rest) (length word),
      take-length_append,
    )

-- A byte of a message's name.
abbrev pub NameByte : ℕ → Type 0
NameByte d = (b' ' ≢ d) × (b'?' ≢ d)

NameByte-member : (name : Bytes) → All NameByte name → All (λ d. member d (codes " ?") ≡ false) name
unfolding member
NameByte-member [] h = tt
NameByte-member (d ∷ name) (h, hs) = (ground arith, NameByte-member name hs)

end_byte : (c : ℕ) → (c ≡ b' ') ⊎ (c ≡ b'?') → member c (codes " ?") ≡ true
unfolding member
end_byte c h = ground arith

-- What stands between ` /` and the next space or question mark is looked up as the message, whatever
-- follows; the request is shorter than `npos`.
pub get_msg-name {ℓ} :
    {M : Type ℓ} (names : StdMap M) (name : Bytes) (c : ℕ) (rest : Bytes)
    → All NameByte name
    → (c ≡ b' ') ⊎ (c ≡ b'?')
    → length (b' ' ∷ b'/' ∷ (name ++ c ∷ rest)) < npos
    → get_msg names (b' ' ∷ b'/' ∷ (name ++ c ∷ rest)) ≡ ok (lookup name names)
unfolding get_msg find_first_of
get_msg-name names name c rest plain ends small =
    let text = name ++ c ∷ rest in
    let slash : find? (b'/' ∷ []) (b' ' ∷ b'/' ∷ text) ≡ some 1 =
      find?-append (b'/' ∷ []) (b' ' ∷ []) text
        (All-ne-Absent b'/' [] (b' ' ∷ []) (b'/' ∷ text) (omega arith, tt)) in
    let slash_first : member b'/' (codes " ?") ≡ false =
      (NameByte-member (b'/' ∷ []) ((omega arith, omega arith), tt)).0 in
    let size : length text ≡ length name + length (c ∷ rest) = length-append name (c ∷ rest) in
    let behind : substr (b' ' ∷ b'/' ∷ text) 1 npos ≡ ok (b'/' ∷ text) =
      substr-seam (b' ' ∷ []) (b'/' ∷ text) npos
      ∙ ap ok (take-all npos (b'/' ∷ text) (omega arith)) in
    let last : first_of? (codes " ?") (b'/' ∷ text) ≡ some (length (b'/' ∷ name)) =
      first_of?-append (codes " ?") (b'/' ∷ name) rest c (slash_first, NameByte-member name plain)
        (end_byte c ends) in
    let found : (0 + length (b'/' ∷ name) == npos) ≡ false = ground (arith, size) in
    let count : sub_size (0 + length (b'/' ∷ name)) 1 ≡ length name = omega (arith, size) in
    let word : substr (b' ' ∷ b'/' ∷ text) 2 (length name) ≡ ok name =
      substr-seam (b' ' ∷ b'/' ∷ []) text (length name)
      ∙ ap ok (take-length_append name (c ∷ rest)) in
    rw (find-start, slash, behind, last, found, count, word)
