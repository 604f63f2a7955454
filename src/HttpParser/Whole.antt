-- ===== src/HttpParser/Whole.antt =====
-- When a request is whole: the headers are closed, and a POST has the body that it announces.
use photogram.Prelude.{
  ℕ, ◌+◌, ◌≤◌, ◌<◌, ◌≡◌, ◌≢◌, refl, subst, ◌∙◌, ◌↔◌, inl, inr, false, Option, none, some,
  Option-cases, [], ◌∷◌, ◌++◌, arith, length, All, length-append, ◌==◌,
}
use photogram.Outcome.{ok}
use photogram.Text.{Bytes, codes, npos, sub_size, find?}
use photogram.Text.Find.{Absent, find-start, find?-append, find?-bound, All-ne-Absent}
use photogram.Text.After.{after?, find?-split, find?-after_none, after?-append, up_to-append}
use photogram.Text.Number.{int_max}
use photogram.Text.Number.Laws.{Digit, value_from, stoi-value}
use photogram.Request.{crlf}
use photogram.Request.Headers.{OneLine, get_value_some_header_lem}
use photogram.HttpDef.{HttpReq, Status, success, not_full_req, bad_http}
use photogram.HttpParser.{
  separator, compare_body, content_length, check_body, check_is_full_request,
}

-- The text `Content-Length: digits`, its line end and what follows.
abbrev pub length_line : Bytes → Bytes → Bytes
length_line digits rest = codes "Content-Length: " ++ (digits ++ (crlf ++ rest))

Digit-OneLine : (ds : Bytes) → All Digit ds → OneLine ds
Digit-OneLine [] h = tt
Digit-OneLine (d ∷ ds) (h, hs) = (omega arith, Digit-OneLine ds hs)

-- The announced length is the number behind the first `Content-Length: `.
content_length-line :
    (before : Bytes) (d : ℕ) (ds rest : Bytes)
    → Absent (codes "Content-Length: ") before (length_line (d ∷ ds) rest)
    → All Digit (d ∷ ds)
    → value_from 0 (d ∷ ds) ≤ int_max
    → length (before ++ length_line (d ∷ ds) rest) < npos
    → content_length (before ++ length_line (d ∷ ds) rest) ≡ ok (value_from 0 (d ∷ ds))
unfolding content_length
content_length-line before d ds rest first digits fits small =
    rw
      (
        get_value_some_header_lem (before ++ length_line (d ∷ ds) rest) (codes "Content-Length:")
            b' ' (omega arith) (omega arith) small,
        after?-append (codes "Content-Length: ") before ((d ∷ ds) ++ (crlf ++ rest)) first,
        up_to-append crlf (d ∷ ds) rest
            (All-ne-Absent 13 (10 ∷ []) (d ∷ ds) (crlf ++ rest) (Digit-OneLine (d ∷ ds) digits)),
      )
      (stoi-value d ds digits fits)

check_is_full_request-split :
    (headers body : Bytes) (type : HttpReq)
    → Absent separator headers (separator ++ body)
    → length (headers ++ (separator ++ body)) < npos
    → check_is_full_request (headers ++ (separator ++ body)) type
      ≡ check_body type (headers ++ (separator ++ body)) (length body)
unfolding check_is_full_request
check_is_full_request-split headers body type first small =
    let sizes = length-append headers (separator ++ body) in
    let zero_add : 0 + length headers ≡ length headers = omega arith in
    let found : (length headers == npos) ≡ false = ground (arith, sizes) in
    let size : sub_size (sub_size (length (headers ++ (separator ++ body))) (length headers)) 4
        ≡ length body =
      omega (arith, sizes) in
    rw (find-start, find?-append separator headers body first, zero_add, found, size)

compare_body_lem :
    (a n : ℕ)
    → ((compare_body a n ≡ success) ↔ (a ≡ n))
      × ((compare_body a n ≡ not_full_req) ↔ (a < n))
      × ((compare_body a n ≡ bad_http) ↔ (n < a))
compare_body_lem a n = (ground arith, ground arith, ground arith)

-- A POST whose headers are closed by the first empty line, and whose first `Content-Length: ` is
-- followed by a decimal number that fits an int, is judged by its body: it is a success exactly when
-- the body is as long as the number, not full exactly when it is shorter, bad exactly when it is
-- longer. The request is shorter than `npos`.
pub check_is_full_request-post :
    (request headers body before : Bytes) (d : ℕ) (ds rest : Bytes)
    → request ≡ headers ++ (separator ++ body)
    → request ≡ before ++ length_line (d ∷ ds) rest
    → Absent separator headers (separator ++ body)
    → Absent (codes "Content-Length: ") before (length_line (d ∷ ds) rest)
    → All Digit (d ∷ ds)
    → value_from 0 (d ∷ ds) ≤ int_max
    → length request < npos
    → (status : Status) × (check_is_full_request request HttpReq.post ≡ ok status)
      × ((status ≡ success) ↔ (length body ≡ value_from 0 (d ∷ ds)))
      × ((status ≡ not_full_req) ↔ (length body < value_from 0 (d ∷ ds)))
      × ((status ≡ bad_http) ↔ (value_from 0 (d ∷ ds) < length body))
check_is_full_request-post request headers body before d ds rest by_body by_length closed first
      digits fits small =
    let n : ℕ = value_from 0 (d ∷ ds) in
    let announced : content_length request ≡ ok n = rw by_length (
      content_length-line before d ds rest first digits fits
        (subst (λ r. length r < npos) by_length small)) in
    let split : check_is_full_request request HttpReq.post
        ≡ check_body HttpReq.post request (length body) =
      rw by_body (
        check_is_full_request-split headers body HttpReq.post closed
          (subst (λ r. length r < npos) by_body small)) in
    let (same, shorter, longer) = compare_body_lem (length body) n in
    (compare_body (length body) n, split ∙ (rw announced), same, shorter, longer)

check_body-other :
    (request : Bytes) (n : ℕ) (type : HttpReq)
    → type ≢ HttpReq.post
    → check_body type request n ≡ ok success
check_body-other request n HttpReq.post h = absurd (h refl)
check_body-other request n _ h = refl

-- What is known of a request that announces no body.
abbrev pub closed_status : Option Bytes → Status
closed_status none = not_full_req
closed_status (some body) = success

-- A request of any other kind is whole as soon as an empty line has come, whatever follows it, and
-- not full before. The request is shorter than `npos`.
pub check_is_full_request-other :
    (request : Bytes) (type : HttpReq)
    → type ≢ HttpReq.post
    → length request < npos
    → check_is_full_request request type ≡ ok (closed_status (after? separator request))
unfolding check_is_full_request
check_is_full_request-other request type other small =
    elim (Option-cases (find? separator request)) [
      | inl e ↦ rw (find-start, e, find?-after_none separator request e)
      | inr (i, e) ↦
          let (pre, rest, q, l, a) = find?-split separator request i e in
          let b = find?-bound separator request i e in
          let found : (0 + i == npos) ≡ false = ground arith in
          rw (find-start, e, found, a) (check_body-other request _ type other)
    ]
