-- ===== src/WorkWithClient/Chunks.antt =====
-- How the bytes of a request are cut into what recv returns.
use photogram.Prelude.{
  ℕ, ◌≡◌, ◌≢◌, ◌≤◌, ◌<◌, refl, ap, subst, ◌∙◌, none, some, List, [], ◌∷◌, ◌++◌, map, append_assoc,
  append-nil, All, length, arith,
}
use photogram.Outcome.{ok}
use photogram.Text.{Bytes, codes, npos, find?, text_eq}
use photogram.Text.Find.{Absent, find-start}
use photogram.Text.Number.{int_max}
use photogram.Text.Number.Laws.{Digit, value_from}
use photogram.HttpDef.{HttpReq, not_full_req, monostate}
use photogram.HttpParser.{separator, get_req_t, req_type_of, check_is_full_request, parse}
use photogram.HttpParser.Message.{get_req_t-word}
use photogram.HttpParser.Whole.{length_line, check_is_full_request-post}
use photogram.Action.{pure, lift, ◌>>=◌}
use photogram.Services.{Services}
use photogram.WorkWithClient.{Client}
use photogram.WorkWithClient.Run.{Received, bytes, on_status, on_receive, receive_loop}

-- The pieces as one.
abbrev pub joined : List Bytes → Bytes
joined [] = []
joined (c ∷ cs) = c ++ joined cs

-- What has come of a request whose last piece is missing: a word of at most seven bytes, a space and
-- what follows, seven bytes at least, but no empty line yet; or a POST with the empty line, whose body
-- is shorter than the number behind the first `Content-Length: `.
pub data IsUnfinished (request : Bytes) : Type 0 where
  headers_open :
      (word rest : Bytes)
      → All (λ d. b' ' ≢ d) word
      → length word ≤ 7
      → 7 ≤ length request
      → request ≡ word ++ b' ' ∷ rest
      → find? separator request ≡ none
      → IsUnfinished request
  body_short :
      (rest headers body before : Bytes) (d : ℕ) (ds behind : Bytes)
      → request ≡ codes "POST" ++ b' ' ∷ rest
      → 7 ≤ length request
      → request ≡ headers ++ (separator ++ body)
      → request ≡ before ++ length_line (d ∷ ds) behind
      → Absent separator headers (separator ++ body)
      → Absent (codes "Content-Length: ") before (length_line (d ∷ ds) behind)
      → All Digit (d ∷ ds)
      → value_from 0 (d ∷ ds) ≤ int_max
      → length request < npos
      → length body < value_from 0 (d ∷ ds)
      → IsUnfinished request

-- Whatever has come before the last piece is unfinished.
abbrev pub IsCut : Bytes → Bytes → List Bytes → Type 0
IsCut request c [] = Unit
IsCut request c (c' ∷ cs) = IsUnfinished (request ++ c) × IsCut (request ++ c) c' cs

check_is_full_request-open :
    (request : Bytes) (type : HttpReq)
    → find? separator request ≡ none
    → check_is_full_request request type ≡ ok not_full_req
unfolding check_is_full_request
check_is_full_request-open request type unclosed = rw (find-start, unclosed) refl

module _ (v : Services) where
  open v use {json, db, stale}
  open json use {Json}

  not_full-parse :
      (request : Bytes)
      → IsUnfinished request
      → parse json stale request ≡ ok (not_full_req, monostate)
  unfolding parse
  not_full-parse request (headers_open word rest plain short long is unclosed) =
      rw (is, get_req_t-word word rest plain short (subst (λ r. 7 ≤ length r) is long))
        (rw
          (check_is_full_request-open (word ++ b' ' ∷ rest) (req_type_of word)
            (subst (λ r. find? separator r ≡ none) is unclosed))
          refl)
  not_full-parse request
        (body_short rest headers body before d ds behind is long by_body by_length closed first
          digits fits small short) =
      let kind =
        get_req_t-word (codes "POST") rest
          (omega arith, (omega arith, (omega arith, (omega arith, tt)))) (omega arith)
          (subst (λ r. 7 ≤ length r) is long) in
      let kind' : get_req_t request ≡ ok (some (record { type = HttpReq.post; size = 4 })) =
        rw is (kind ∙ (unfold req_type_of text_eq in refl)) in
      let (status, judged, same, shorter, longer) =
        check_is_full_request-post request headers body before d ds behind by_body by_length closed
          first digits fits small in
      rw (kind', judged, shorter.1 short) refl

  on_receive-not_full :
      (request c : Bytes) (s : Client db.World)
      → IsUnfinished (request ++ c)
      → on_receive v request (bytes c) s ≡ (ok (request ++ c), s)
  unfolding on_receive on_status lift pure ◌>>=◌
  on_receive-not_full request c s h = rw (not_full-parse (request ++ c) h) refl

  on_receive-append :
      (request c d : Bytes)
      → on_receive v (request ++ c) (bytes d) ≡ on_receive v request (bytes (c ++ d))
  unfolding on_receive
  on_receive-append request c d = rw (append_assoc request c d) refl

  -- Where whatever has come before the last piece is at least seven bytes that begin with a word of at
  -- most seven bytes and a space, and has no empty line yet or is a POST with a body shorter than it
  -- announces, a request that arrives in pieces is handled as if it had arrived at once, and so is all
  -- that is received behind it.
  pub receive_loop-joined :
      (request c : Bytes) (cs : List Bytes) (rest : List Received) (s : Client db.World)
      → IsCut request c cs
      → receive_loop v request (map bytes (c ∷ cs) ++ rest) s
        ≡ receive_loop v request (bytes (joined (c ∷ cs)) ∷ rest) s
  unfolding receive_loop ◌>>=◌
  receive_loop-joined request c [] rest s h = rw (append-nil c) refl
  receive_loop-joined request c (c' ∷ cs) rest s (h, hs) = rw (on_receive-not_full request c s h) (
      receive_loop-joined (request ++ c) c' cs rest s hs
      ∙ ap (λ m. (m >>= λ r. receive_loop v r rest) s)
          (on_receive-append request c (joined (c' ∷ cs))))
