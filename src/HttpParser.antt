-- ===== src/HttpParser.antt =====
-- auth_server_src/HttpParser.cpp: from the bytes received so far to the request that they hold.
pub mod Whole
pub mod Message
use photogram.Prelude.{
  ℕ, ◌+◌, ◌-◌, Bool, true, false, ◌||◌, Option, none, some, [], ◌∷◌, ◌++◌, length, ltb, ◌==◌,
  if◌then◌else◌,
}
use photogram.Outcome.{Outcome, ok, throw, undefined, ◌>>=◌}
use photogram.Text.{Bytes, codes, npos, add_size, sub_size, find, find_first_of, substr, text_eq}
use photogram.Text.StdMap.{StdMap, lookup, begin_value}
use photogram.Text.Number.{stoi}
use photogram.Json.{JsonLib}
use photogram.Request.{crlf, get_value_some_header, get_value_with_space, url_parser}
use photogram.FormData.{FormMaps, deref, parse_form, parse_photo_only}
use photogram.HttpDef.{
  Status, success, bad_http, not_support_type, not_full_req, HttpReq, HttpReqT, OptionsTInfo,
  PostMsg, post_msg_names, login, registration, update_profile_photo, update_profile_data,
  update_profile_password, GetMsg, get_msg_names, get_new_token, PostTInfo, GetTInfo, HttpTypesInfo,
  monostate, options_info, post_info, get_info, new_post_info, new_get_info,
}

-- The kind of a request by its first word.
unfoldable pub req_type_of : Bytes → HttpReq
req_type_of word =
    if text_eq word (codes "OPTIONS")
    then HttpReq.options
    else if text_eq word (codes "POST")
    then HttpReq.post
    else if text_eq word (codes "GET")
    then HttpReq.get
    else HttpReq.not_support

unfoldable pub get_req_t : Bytes → Outcome (Option HttpReqT)
get_req_t req =
    let shift = find req (b' ' ∷ []) 0 in
    if ltb (length req) 7 || (shift == npos || ltb 7 shift) then ok none else (do
      word ← substr req 0 shift
      ok (some (record { type = req_type_of word; size = shift })))

abbrev pub separator : Bytes
separator = crlf ++ crlf

-- The word between the first slash and the space or question mark behind it, looked up in `names`:
-- `get_post_msg` and `get_get_msg` differ in the map alone.
unfoldable pub get_msg {ℓ} : {M : Type ℓ} → StdMap M → Bytes → Outcome (Option M)
get_msg names req =
    let shift_start = find req (b'/' ∷ []) 0 in
    do
      behind ← substr req shift_start npos
      let shift_end = find_first_of behind (codes " ?")
      if shift_end == npos || shift_start == npos then ok none else (do
        word ← substr req (add_size shift_start 1) (sub_size shift_end shift_start)
        ok (lookup word names))

unfoldable pub get_post_msg : Bytes → Outcome (Option PostMsg)
get_post_msg = get_msg post_msg_names

unfoldable pub get_get_msg : Bytes → Outcome (Option GetMsg)
get_get_msg = get_msg get_msg_names

-- The two branches of `parse_get_t`, by the message.
unfoldable pub fill_get : Bytes → GetTInfo → GetMsg → Outcome GetTInfo
fill_get req info get_new_token = do
  token ← get_value_with_space req (codes "refreshToken=") 0
  ok (record info { refresh_token = token })
fill_get req info _ = do
  token ← get_value_with_space req (codes "Bearer ") 0
  properties ← url_parser req info.properties 4
  ok (record info { access_token = token; properties = properties })

-- The body received so far against the length that the headers announce.
abbrev pub compare_body : ℕ → ℕ → Status
compare_body body_size header_value =
    if body_size == header_value
    then success
    else if ltb body_size header_value
    then not_full_req
    else bad_http

-- The length that a POST request announces; a request that announces none is undefined behaviour.
unfoldable pub content_length : Bytes → Outcome ℕ
content_length requ = do
  value ← get_value_some_header requ (codes "Content-Length: ") 0
  text ← deref value
  stoi text

abbrev pub check_body : HttpReq → Bytes → ℕ → Outcome Status
check_body HttpReq.post requ body_size =
    content_length requ >>= λ header_value. ok (compare_body body_size header_value)
check_body _ requ body_size = ok success

unfoldable pub check_is_full_request : Bytes → HttpReq → Outcome Status
check_is_full_request requ type =
    let headers_end = find requ separator 0 in
    let body_size = sub_size (sub_size (length requ) headers_end) 4 in
    if headers_end == npos then ok not_full_req else check_body type requ body_size

-- The JSON library, and what a view of a string that is gone reads.
module _ (j : JsonLib) (stale : Bytes → Bytes) where
  open j use {Json, null, parse as parse_json}

  unfoldable pub get_body : Bytes → Outcome Json
  get_body req = do body ← substr req (add_size (find req separator 0) 4) npos; parse_json body

  abbrev pub get_with_msg : Bytes → GetTInfo → Option GetMsg → Outcome (Bool × HttpTypesInfo Json)
  get_with_msg req info none = ok (false, get_info info)
  get_with_msg req info (some msg) =
      fill_get req (record info { msg = msg }) msg >>= λ filled. ok (true, get_info filled)

  abbrev pub get_with_origin : Bytes → Option Bytes → Outcome (Bool × HttpTypesInfo Json)
  get_with_origin req none = ok (false, get_info new_get_info)
  get_with_origin req (some origin) =
      get_get_msg req >>= get_with_msg req (record new_get_info { origin = origin })

  unfoldable pub parse_get_t : Bytes → Outcome (Bool × HttpTypesInfo Json)
  parse_get_t req = get_value_some_header req (codes "Origin: ") 0 >>= get_with_origin req

  -- The file of the first entry of the coordinates, after a form has been read.
  unfoldable pub fill_file : Bytes → PostTInfo Json → FormMaps → Outcome (PostTInfo Json)
  fill_file req info maps = do
    element ← begin_value maps.files_coordinates
    file ← substr req element.0 element.1
    ok (record info {
      user_properties = maps.user_properties;
      files_coordinates = maps.files_coordinates;
      binary_data = file;
    })

  abbrev form_maps : PostTInfo Json → FormMaps
  form_maps info = record {
    user_properties = info.user_properties;
    files_coordinates = info.files_coordinates;
  }

  unfoldable pub fill_post : Bytes → PostTInfo Json → PostMsg → Outcome (PostTInfo Json)
  fill_post req info login = do body ← get_body req; ok (record info { json_body = body })
  fill_post req info registration = do
    maps ← parse_form stale req (form_maps info)
    fill_file req info maps
  fill_post req info update_profile_photo = do
    token ← get_value_with_space req (codes "Bearer ") 0
    maps ← parse_photo_only stale req (form_maps info)
    fill_file req (record info { access_token = token }) maps
  fill_post req info _ = do
    token ← get_value_with_space req (codes "Bearer ") 0
    body ← get_body req
    ok (record info { access_token = token; json_body = body })

  abbrev pub post_with_msg :
      Bytes → PostTInfo Json → Option PostMsg → Outcome (Bool × HttpTypesInfo Json)
  post_with_msg req info none = ok (false, post_info info)
  post_with_msg req info (some msg) =
      fill_post req (record info { msg = msg }) msg >>= λ filled. ok (true, post_info filled)

  abbrev pub post_with_origin : Bytes → Option Bytes → Outcome (Bool × HttpTypesInfo Json)
  post_with_origin req none = ok (false, post_info (new_post_info null))
  post_with_origin req (some origin) =
      get_post_msg req >>= post_with_msg req (record (new_post_info null) { origin = origin })

  unfoldable pub parse_post_t : Bytes → Outcome (Bool × HttpTypesInfo Json)
  parse_post_t req = get_value_some_header req (codes "Origin: ") 0 >>= post_with_origin req

  abbrev pub options_with_origin : Option Bytes → Outcome (Bool × HttpTypesInfo Json)
  options_with_origin none = ok (false, options_info (record { origin = [] }))
  options_with_origin (some origin) = ok (true, options_info (record { origin = origin }))

  unfoldable pub parse_options_t : Bytes → Outcome (Bool × HttpTypesInfo Json)
  parse_options_t req = get_value_some_header req (codes "Origin: ") 0 >>= options_with_origin

  -- The part of `parse` behind the check that the request is whole.
  abbrev pub outcome_status : Bool × HttpTypesInfo Json → Outcome (Status × HttpTypesInfo Json)
  outcome_status (done, info) = ok (if done then success else bad_http, info)

  unfoldable pub parse_fields : HttpReq → Bytes → Outcome (Status × HttpTypesInfo Json)
  parse_fields HttpReq.get req = parse_get_t req >>= outcome_status
  parse_fields HttpReq.post req = parse_post_t req >>= outcome_status
  parse_fields HttpReq.options req = parse_options_t req >>= outcome_status
  parse_fields _ req = ok (not_support_type, monostate)

  -- A request that is not whole, or too long, is not read further.
  abbrev pub parse_checked : Bytes → HttpReqT → Status → Outcome (Status × HttpTypesInfo Json)
  parse_checked request req_t success = do
    fields ← substr request req_t.size npos
    parse_fields req_t.type fields
  parse_checked request req_t bad_http = ok (bad_http, monostate)
  parse_checked request req_t not_support_type = ok (not_support_type, monostate)
  parse_checked request req_t not_full_req = ok (not_full_req, monostate)

  abbrev pub parse_typed : Bytes → Option HttpReqT → Outcome (Status × HttpTypesInfo Json)
  parse_typed request none = ok (bad_http, monostate)
  parse_typed request (some req_t) =
      check_is_full_request request req_t.type >>= parse_checked request req_t

  unfoldable pub parse : Bytes → Outcome (Status × HttpTypesInfo Json)
  parse request = get_req_t request >>= parse_typed request
