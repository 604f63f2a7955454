-- ===== src/Tests/Parsing.antt =====
-- Runs of the request parser, and the theorems about it at concrete requests.
use photogram.Prelude.{ℕ, ◌<◌, ◌≡◌, ◌↔◌, ◌≢◌, refl, ◌⊎◌, inr, none, some, [], ◌∷◌, ◌++◌, arith}
use photogram.Outcome.{ok, throw, runtime_error}
use photogram.Text.{Bytes, codes, starts_with, text_eq, substr, find}
use photogram.Text.Find.{Absent-of_test}
use photogram.Text.StdMap.{StdMap, lookup, insert, text_lt}
use photogram.Text.Number.Laws.{value_from}
use photogram.Text.Decimal.{to_string, value_from-to_string}
use photogram.Request.{
  get_value_some_header, get_value_with_space, url_parser, url_loop, url_step, store_property,
}
use photogram.Request.Headers.{get_value_some_header_lem, get_value_with_space_lem}
use photogram.Request.Url.{url_parser_safe}
use photogram.Request.Url.RoundTrip.{query_text, url_parser-query_text}
use photogram.FormDataParser.{
  content_parts, get_content, get_boundary, content_loop, add_property, add_type,
}
use photogram.FormDataParser.Rounds.{content_parts-ends}
use photogram.FormData.{separator_to_properties}
use photogram.FormData.Rounds.{separator_to_properties-ends}
use photogram.HttpDef.{HttpReq, Status, success, not_full_req, bad_http, GetMsg, get_msg_names}
use photogram.HttpParser.{req_type_of, get_req_t, get_msg, separator, check_is_full_request}
use photogram.HttpParser.Message.{get_req_t-word, get_msg-name}
use photogram.HttpParser.Whole.{
  length_line, check_is_full_request-post, check_is_full_request-other,
}

abbrev request : Bytes
request = codes "GET /a HTTP/1.1\r\nOrigin: here\r\nAuthorization: Bearer t\r\n\r\n"

get_value_some_header_lem_example :
    get_value_some_header request (codes "Origin:" ++ b' ' ∷ []) 0 ≡ ok (some (codes " here"))
unfolding starts_with
get_value_some_header_lem_example =
    get_value_some_header_lem request (codes "Origin:") b' ' (omega arith) (omega arith)
      (omega arith)

get_value_with_space_lem_example : get_value_with_space request (codes "Bearer ") 0 ≡ ok (codes "t")
unfolding starts_with
get_value_with_space_lem_example =
    get_value_with_space_lem request (codes "Bearer ") (omega arith) (omega arith)

url_parser_safe_example :
    ((m : StdMap Bytes) × (url_parser (codes "/a&b") [] 0 ≡ ok m))
    ⊎ (url_parser (codes "/a&b") [] 0 ≡ throw (runtime_error "bad http"))
url_parser_safe_example = url_parser_safe (codes "/a&b") [] 0 (omega arith)

abbrev two_pairs : Bytes
two_pairs =
    codes " /u"
    ++ (codes "sers"
        ++ (b'?' ∷ query_text (codes "b") (codes "1") ((codes "a", codes "2") ∷ []) (codes "HTTP")))

url_parser-query_text_example :
    url_parser two_pairs [] 3 ≡ ok ((codes "a", codes "2") ∷ (codes "b", codes "1") ∷ [])
unfolding insert text_eq text_lt
url_parser-query_text_example =
    url_parser-query_text (codes " /u") (codes "sers") (codes "b") (codes "1")
      ((codes "a", codes "2") ∷ []) (codes "HTTP") [] (omega arith) (omega arith) (omega arith)
      (omega arith) (omega arith)

url_parser_run :
    url_parser (codes "/u?b=1&a=2 x") [] 0
    ≡ ok ((codes "a", codes "2") ∷ (codes "b", codes "1") ∷ [])
unfolding url_parser url_loop url_step store_property substr insert text_eq text_lt
url_parser_run = refl

get_req_t-word_example :
    get_req_t (codes "OPTIONS" ++ b' ' ∷ codes "/")
    ≡ ok (some (record { type = HttpReq.options; size = 7 }))
unfolding req_type_of text_eq
get_req_t-word_example =
    get_req_t-word (codes "OPTIONS") (codes "/") (omega arith) (omega arith) (omega arith)

check_is_full_request-other_example : check_is_full_request request HttpReq.get ≡ ok success
unfolding starts_with
check_is_full_request-other_example =
    check_is_full_request-other request HttpReq.get (grind arith) (omega arith)

get_msg-name_example :
    get_msg get_msg_names (b' ' ∷ b'/' ∷ (codes "getStatus" ++ b'?' ∷ codes "id=1 "))
    ≡ ok (some GetMsg.get_status)
unfolding lookup text_eq
get_msg-name_example =
    get_msg-name get_msg_names (codes "getStatus") b'?' (codes "id=1 ") (omega arith) (inr refl)
      (omega arith)

abbrev post_headers : Bytes
post_headers = codes "POST /login HTTP/1.1\r\nContent-Length: 12"

-- Ten bytes of a body of twelve.
abbrev post_request : Bytes
post_request = post_headers ++ (separator ++ codes "0123456789")

check_is_full_request-post_example :
    (status : Status) × (check_is_full_request post_request HttpReq.post ≡ ok status)
    × ((status ≡ success) ↔ (◌≡◌ {A = ℕ} 10 12))
    × ((status ≡ not_full_req) ↔ (10 < 12))
    × ((status ≡ bad_http) ↔ (12 < 10))
unfolding starts_with
check_is_full_request-post_example =
    check_is_full_request-post post_request post_headers (codes "0123456789")
      (codes "POST /login HTTP/1.1\r\n") b'1' (codes "2") (codes "\r\n0123456789") refl refl
      (Absent-of_test separator post_headers (separator ++ codes "0123456789") refl)
      (Absent-of_test (codes "Content-Length: ") (codes "POST /login HTTP/1.1\r\n")
        (length_line (b'1' ∷ codes "2") (codes "\r\n0123456789")) refl)
      (omega arith) (omega arith) (omega arith)

value_from-to_string_example : value_from 0 (to_string 2048) ≡ 2048
value_from-to_string_example = value_from-to_string 2048 (omega arith)

abbrev form : Bytes
form = codes "--b\r\nContent-Disposition: form-data; name=\"n\"\r\n\r\nv\r\n--b--"

separator_to_properties-ends_example :
    separator_to_properties
      (λ t. t)
      form
      (codes "--b")
      (record { user_properties = []; files_coordinates = [] })
    ≢ ok none
separator_to_properties-ends_example =
    separator_to_properties-ends form (codes "--b") (omega arith) (omega arith) (λ t. t)
      (record { user_properties = []; files_coordinates = [] })

content_parts-ends_example : content_parts form (codes "--b") [] ≢ ok none
content_parts-ends_example = content_parts-ends form (codes "--b") (omega arith) (omega arith) []

-- The form of one part is read, by its boundary.
form_read :
    get_content (codes "multipart/form-data; boundary=b") form [] ≡ ok ((codes "n", codes "v") ∷ [])
unfolding get_content get_boundary substr find content_parts content_loop add_property add_type
    insert
form_read = refl
