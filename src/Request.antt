-- ===== src/Request.antt =====
-- The class `Request` of auth_server_src/Request.cpp: reading one field out of a raw HTTP request.
pub mod Headers
pub mod Url
use photogram.Prelude.{
  ℕ, ◌+◌, Bool, true, false, ◌||◌, Option, none, some, List, [], ◌∷◌, ◌++◌, length, ltb, drop, ◌==◌,
  if◌then◌else◌,
}
use photogram.Outcome.{Outcome, ok, throw, runtime_error, ◌>>=◌}
use photogram.Text.{Bytes, codes, npos, add_size, sub_size, find, substr}
use photogram.Text.StdMap.{StdMap, insert}

abbrev pub crlf : Bytes
crlf = 13 ∷ 10 ∷ []

-- The value starts at the last byte of `header`, which is a part of it.
unfoldable pub get_value_some_header : Bytes → Bytes → ℕ → Outcome (Option Bytes)
get_value_some_header request header start_search =
    let position_header = find request header start_search in
    if position_header == npos
    then ok none
    else (let position_end_header = find request crlf position_header in
        let start_position = sub_size (add_size position_header (length header)) 1 in
        do
          value ← substr request start_position (sub_size position_end_header start_position)
          ok (some value))

-- The text that is thrown is in a legacy encoding; it stands here as "no header".
unfoldable pub get_value_with_space : Bytes → Bytes → ℕ → Outcome Bytes
get_value_with_space request header start_search =
    let position_header = find request header start_search in
    if position_header == npos
    then throw (runtime_error "no header")
    else (let position_end_header = find request crlf position_header in
        let start_position = add_size position_header (length header) in
        substr request start_position (sub_size position_end_header start_position))

unfoldable pub get_type : Bytes → Bytes → ℕ → Outcome Bytes
get_type request header start_search =
    let position_header = find request header start_search in
    if position_header == npos
    then throw (runtime_error "no header")
    else (let position_end_header = find request crlf position_header in
        let start_position = sub_size (add_size position_header (length header)) 1 in
        substr request (add_size start_position 1)
          (sub_size (sub_size position_end_header start_position) 1))

unfoldable pub get_separator : Bytes → Bytes → ℕ → Outcome Bytes
get_separator request header start_search =
    let position_header = find request header start_search in
    if position_header == npos
    then throw (runtime_error "no header")
    else (let position_end_header = find request crlf position_header in
        let start_position = add_size (add_size position_header (length header)) 1 in
        substr request start_position (sub_size position_end_header start_position))

unfoldable pub get_properties_name : Bytes → ℕ → Bytes → Outcome Bytes
get_properties_name request start_position searching_type_name =
    let found = find request (searching_type_name ++ codes "=\"") start_position in
    if found == npos
    then ok []
    else (let start_name_pos = add_size (add_size found (length searching_type_name)) 2 in
        let end_name_pos = find request (codes "\"\r\n") start_name_pos in
        if end_name_pos == npos
        then ok []
        else (let last = sub_size end_name_pos 1 in
            substr request start_name_pos (add_size (sub_size last start_name_pos) 1)))

-- The variables of the loop of `URLParser`; `properEnd` is written and never read.
pub record UrlState : Type 0 where
  pub proper_start : ℕ
  pub separator : ℕ
  pub result : StdMap Bytes

abbrev pub url_start : StdMap Bytes → UrlState
url_start result = record { proper_start = 0; separator = 0; result = result }

-- `result[substr(properStart, separator - properStart)] = substr(separator + 1, p - separator - 1)`
unfoldable pub store_property : Bytes → ℕ → UrlState → Outcome (StdMap Bytes)
store_property text p s = do
  value ← substr text (add_size s.separator 1) (sub_size p (add_size s.separator 1))
  key ← substr text s.proper_start (sub_size s.separator s.proper_start)
  ok (insert key value s.result)

-- One round of the loop, at the byte `c` in position `p`.
unfoldable pub url_step : Bytes → ℕ → ℕ → UrlState → Outcome UrlState
url_step text p c s =
    if c == b'?'
    then ok (record s { proper_start = p + 1 })
    else if c == b'='
    then ok (record s { separator = p })
    else if c == b'&'
    then if s.proper_start == 0 || s.separator == 0 then throw (runtime_error "bad http") else (do
      result ← store_property text p s
      ok (record s { proper_start = p + 1; result = result }))
    else ok s

-- The loop, over the bytes from position `p` on; it stops at a space or at the end.
unfoldable pub url_loop : Bytes → Bytes → ℕ → UrlState → Outcome (ℕ × UrlState)
url_loop text [] p s = ok (p, s)
url_loop text (c ∷ rest) p s =
    if c == b' ' then ok (p, s) else (url_step text p c s >>= λ s'. url_loop text rest (p + 1) s')

abbrev pub finish_url : Bytes → ℕ × UrlState → Outcome (StdMap Bytes)
finish_url text (p, s) = store_property text p s

unfoldable pub url_parser : Bytes → StdMap Bytes → ℕ → Outcome (StdMap Bytes)
url_parser [] result start = ok result
url_parser (c ∷ text) result start =
    url_loop (c ∷ text) (drop start (c ∷ text)) start (url_start result) >>= finish_url (c ∷ text)
