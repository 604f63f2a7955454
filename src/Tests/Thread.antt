-- ===== src/Tests/Thread.antt =====
-- Runs of a client's thread, and the theorems about it, over small concrete services.
use photogram.Prelude.{
  ℕ, none, ◌+◌, ◌≡◌, refl, true, List, [], ◌∷◌, ◌++◌, map, arith, length, ltb, if◌then◌else◌,
}
use photogram.Outcome.{foreign, runtime_error, Outcome, ok, throw}
use photogram.Text.{
  Bytes, codes, starts_with, text_eq, find, find?, substr, find_first_of, first_of?, member,
}
use photogram.Text.StdMap.{lookup, insert, text_lt}
use photogram.Json.{JsonLib}
use photogram.JwtToken
use photogram.JwtToken.{Claims, JwtLib}
use photogram.JwtToken.Laws.{
  IsJwt, check_access_token-create_access_token, check_access_token-create_refresh_token,
}
use photogram.Request.{
  get_value_some_header, get_value_with_space, url_parser, url_loop, url_step, store_property,
}
use photogram.HttpDef.{success, GetMsg, GetTInfo, get_info}
use photogram.HttpParser.{
  parse, parse_fields, parse_get_t, get_req_t, req_type_of, check_is_full_request, get_get_msg,
  separator, get_msg, fill_get,
}
use photogram.Services.{DbApi, Services}
use photogram.ResponseSender.{error}
use photogram.WorkWithClient.{secret, Client}
use photogram.WorkWithClient.Run.{bytes, failure, on_receive, receive_loop}
use photogram.WorkWithClient.Chunks.{joined, headers_open, receive_loop-joined}
use photogram.WorkWithClient.Handlers.{handle_info}
use photogram.WorkWithClient.Answers.{Counted}
use photogram.WorkWithClient.Token.{ErrorDumps}
use photogram.WorkWithClient.Handled.{handle_info-one_answer}
use photogram.WorkWithClient.Refused.{by_get, on_receive-refused}

-- JSON values that are their own text.
abbrev pairs_text : List (Bytes × Bytes) → Bytes
pairs_text [] = []
pairs_text ((k, t) ∷ rest) = k ++ (b':' ∷ (t ++ pairs_text rest))

abbrev pub text_json : JsonLib
text_json = record {
  Json = Bytes;
  null = [];
  parse = λ t. ok t;
  text_at = λ j k. ok j;
  bool_at = λ j k. ok true;
  as_text = λ j. ok j;
  object = pairs_text;
  set_bool = λ k b j. j;
  push_back = λ j element. j ++ element;
  dump = λ j. ok j;
}

-- A token is its expiry and its subject.
abbrev verify_plain : Bytes → ℕ → Outcome Bytes
verify_plain [] now = throw (foreign "decode error")
verify_plain (expires ∷ subject) now =
    if ltb now expires then ok subject else throw (foreign "token expired")

abbrev plain_jwt : JwtLib
plain_jwt = record {
  sign = λ c secret. c.expires_at ∷ c.subject;
  verify = λ token issuer secret now. verify_plain token now;
}

plain_jwt-IsJwt : IsJwt plain_jwt
plain_jwt-IsJwt = record {
  accepts = λ c secret now i h. ground arith;
  refuses = λ c secret now h. (foreign "token expired", ground arith);
}

-- A database that is a clock, and knows nobody.
abbrev missing : {A : Type 0} → ℕ → Outcome A × ℕ
missing w = (throw (runtime_error "404"), w)

abbrev empty_db : DbApi Bytes
empty_db = record {
  World = ℕ;
  connect = λ w. (ok tt, w);
  get_nickname_by_id = λ id. missing;
  add_new_user = λ info. missing;
  check_password = λ login password. missing;
  get_profile_information = λ name. missing;
  get_profile_photo = λ name. missing;
  get_users = λ properties id. missing;
  get_photo_by_id = λ id. missing;
  make_friend = λ user friend. missing;
  delete_friend = λ user friend. missing;
  get_status = λ user friend. missing;
  update_profile_photo = λ info id. missing;
  update_profile_data = λ body id. missing;
  update_profile_password = λ password id. missing;
}

abbrev services : Services
services = record {
  json = text_json;
  jwt = plain_jwt;
  db = empty_db;
  now = λ w. (w, w + 1);
  stale = λ t. t;
}

services-ErrorDumps : ErrorDumps services
services-ErrorDumps = (codes "error:invalid access token", refl)

abbrev idle : Client ℕ
idle = record { world = 100; sent = [] }

check_access_token-create_access_token_example :
    JwtToken.check_access_token plain_jwt
      (JwtToken.create_access_token plain_jwt (codes "7") secret 10 10)
      secret
      911
    ≡ throw (runtime_error "invalid access token")
check_access_token-create_access_token_example =
    check_access_token-create_access_token plain_jwt plain_jwt-IsJwt (codes "7") secret 10 10 911
      (omega arith) (λ e. omega arith)

check_access_token-create_refresh_token_example :
    JwtToken.check_access_token plain_jwt
      (JwtToken.create_refresh_token plain_jwt (codes "7") secret 10 10)
      secret
      910
    ≡ ok (codes "7")
check_access_token-create_refresh_token_example =
    check_access_token-create_refresh_token plain_jwt plain_jwt-IsJwt (codes "7") secret 10 10 910
      (omega arith) (omega arith)

abbrev status_info : GetTInfo
status_info = record {
  origin = codes " o";
  msg = GetMsg.get_status;
  refresh_token = [];
  access_token = codes "t";
  properties = (codes "id", codes "5") ∷ [];
}

handle_info-one_answer_example :
    Counted 1
      (handle_info services (get_info status_info) idle).0
      0
      (length (handle_info services (get_info status_info) idle).1.sent)
handle_info-one_answer_example =
    handle_info-one_answer services services-ErrorDumps (get_info status_info) idle (λ h. cc h)

-- The token `t` has expired at 116.
abbrev late : Client ℕ
late = record { world = 200; sent = [] }

abbrev first_part : Bytes
first_part = codes "GET /getStatus?id=5 HTTP/1.1\r\nOrigin: o\r\nAuthorization: "

abbrev second_part : Bytes
second_part = codes "Bearer t\r\n\r\n"

parse_get_status :
    parse text_json (λ t. t) (first_part ++ second_part) ≡ ok (success, get_info status_info)
unfolding parse parse_fields parse_get_t get_req_t req_type_of check_is_full_request get_get_msg
    get_msg fill_get get_value_some_header get_value_with_space url_parser url_loop url_step
    store_property find find? starts_with substr find_first_of first_of? member lookup insert
    text_eq text_lt
parse_get_status = refl

on_receive-refused_example : on_receive services first_part (bytes second_part) late ≡ (
  ok (first_part ++ second_part),
  record { world = 201; sent = error (codes " o") "401" (codes "error:invalid access token") ∷ [] },
)
unfolding JwtToken.check_access_token services-ErrorDumps
on_receive-refused_example =
    on_receive-refused services services-ErrorDumps late (runtime_error "invalid access token")
      first_part second_part (get_info status_info) (codes " o") (codes "t") parse_get_status
      (by_get status_info (λ h. cc h)) refl

first_part_unclosed : find? separator ([] ++ first_part) ≡ none
unfolding find? starts_with
first_part_unclosed = refl

receive_loop-joined_example :
    receive_loop services [] (map bytes (first_part ∷ second_part ∷ []) ++ failure ∷ []) late
    ≡ receive_loop services [] (bytes (joined (first_part ∷ second_part ∷ [])) ∷ failure ∷ []) late
receive_loop-joined_example =
    receive_loop-joined services [] first_part (second_part ∷ []) (failure ∷ []) late (
      headers_open (codes "GET") (codes "/getStatus?id=5 HTTP/1.1\r\nOrigin: o\r\nAuthorization: ")
          (omega arith, (omega arith, (omega arith, tt))) (omega arith) (omega arith) refl
          first_part_unclosed,
      tt,
    )
