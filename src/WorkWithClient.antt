-- ===== src/WorkWithClient.antt =====
-- auth_server_src/WorkWithClient.cpp: the thread of one client of the auth server.
pub mod Handlers
pub mod Run
pub mod Chunks
pub mod Answers
pub mod Token
pub mod OneAnswer
pub mod Refused
pub mod Handled
use text.Mathlib.Text.{◌==◌}
use photogram.Prelude.{
  ℕ, String, Bool, true, false, ◌||◌, Option, none, some, List, [], ◌∷◌, ◌++◌, if◌then◌else◌,
}
use photogram.Outcome.{Exception, what, foreign, Outcome, ok, throw}
use photogram.Text.{Bytes, codes}
use photogram.Text.StdMap.{StdMap, get_text, begin_value}
use photogram.Json.{JsonLib}
use photogram.JwtToken
use photogram.HttpDef.{
  Status, success, bad_http, not_support_type, not_full_req, PostMsg, login, registration,
  update_profile_photo, update_profile_data, update_profile_password, GetMsg, OptionsTInfo,
  PostTInfo, GetTInfo, HttpTypesInfo, monostate, options_info, post_info, get_info,
}
use photogram.HttpDef
use photogram.HttpParser.{parse}
use photogram.Action.{Action, pure, lift, ◌>>=◌, ◌>>◌, try}
use photogram.ResponseSender.{Response, json_ok, empty_ok, tokens_ok, binary_ok, options_ok, error}
use photogram.Services.{DbApi, Services}

abbrev pub secret : Bytes
secret = codes "It's a GitHub, so it's not a secret anymore"

-- What the thread changes: the world behind the services, and the answers on its socket.
pub record Client (World : Type 0) : Type 0 where
  pub world : World
  pub sent : List Response

-- Whether the request is cleared behind the branches, or kept by a `continue` inside them.
pub data Next : Type 0 where
  clear keep : Next

module _ (v : Services) where
  open v use {json, jwt, db, now, stale}
  open json use {Json, text_at, as_text, object, dump}
  open db use {World}

  abbrev pub Thread : Type 0 → Type 0
  Thread A = Action (Client World) A

  -- A call of a service.
  unfoldable pub call : {A : Type 0} → (World → Outcome A × World) → Thread A
  call f s = let (r, w) = f s.world in (r, record s { world = w })

  unfoldable pub read_clock : Thread ℕ
  read_clock s = let (t, w) = now s.world in (ok t, record s { world = w })

  unfoldable pub send : Response → Thread Unit
  send r s = (ok tt, record s { sent = s.sent ++ r ∷ [] })

  unfoldable pub send_json : Bytes → Json → Thread Unit
  send_json origin body = do text ← lift (dump body); send (json_ok origin text)

  unfoldable pub send_tokens : Bytes → Bytes → Bytes → Bytes → Thread Unit
  send_tokens origin refresh_token access_token nickname = do
    text ←
        lift
          (dump (object ((codes "accessToken", access_token) ∷ (codes "nickname", nickname) ∷ [])))
    send (tokens_ok origin refresh_token text)

  unfoldable pub send_error : Bytes → String → String → Thread Unit
  send_error origin error_code text_error = do
    text ← lift (dump (object ((codes "error", codes text_error) ∷ [])))
    send (error origin error_code text)

  unfoldable pub internal_error : Bytes → Thread Unit
  internal_error origin = send_error origin "500" "Internal Server Error"

  -- The first `if` of the handler has no `else`: a "bad http" would be answered twice.
  unfoldable pub reject_token : Bytes → Exception → Thread Bytes
  reject_token origin e = do
    if what e == "bad http" then send_error origin "400" (what e) else pure tt
    if what e == "invalid access token"
        then send_error origin "401" (what e)
        else internal_error origin
    lift (throw e)

  unfoldable pub check_accesstoken : Bytes → Bytes → Thread Bytes
  check_accesstoken origin access_token =
      try (do time ← read_clock; lift (JwtToken.check_access_token jwt access_token secret time))
        (reject_token origin)

  -- The answer to an exception of a profile update or of the registration.
  unfoldable pub occupied_or_500 : Bytes → String → Exception → Thread Unit
  occupied_or_500 origin error_code e =
      if what e == "This email is already occupied" || what e == "The nickname is already occupied"
      then send_error origin error_code (what e)
      else internal_error origin

  unfoldable pub photo_error : Bytes → Exception → Thread Unit
  photo_error origin e =
      if what e == "This email is already occupied" || what e == "The nickname is already occupied"
      then send_error origin "400" (what e)
      else if what e == "400"
      then send_error origin "400" "Bad request"
      else internal_error origin

  unfoldable pub login_error : Bytes → Exception → Thread Unit
  login_error origin e =
      if what e == "Invalid login or password"
      then send_error origin "401" "Invalid login or password"
      else internal_error origin

  unfoldable pub not_found_or_500 : Bytes → Exception → Thread Unit
  not_found_or_500 origin e =
      if what e == "404" then send_error origin "404" "Not found" else internal_error origin

  unfoldable pub bad_http_or_500 : Bytes → Exception → Thread Unit
  bad_http_or_500 origin e =
      if what e == "bad http" then send_error origin "400" (what e) else internal_error origin

  unfoldable pub friend_error : Bytes → Exception → Thread Unit
  friend_error origin e =
      if what e == "bad http"
      then send_error origin "400" (what e)
      else if what e == "404"
      then send_error origin "404" "Not found"
      else internal_error origin

  unfoldable pub create_access_token : Bytes → Thread Bytes
  create_access_token id = do
    issued ← read_clock
    time ← read_clock
    pure (JwtToken.create_access_token jwt id secret issued time)

  unfoldable pub create_refresh_token : Bytes → Thread Bytes
  create_refresh_token id = do
    issued ← read_clock
    time ← read_clock
    pure (JwtToken.create_refresh_token jwt id secret issued time)

  unfoldable pub log_in : PostTInfo Json → Thread Unit
  log_in info = do
    name ← lift (text_at info.json_body (codes "login"))
    password ← lift (text_at info.json_body (codes "password"))
    id ← call (db.check_password name password)
    refresh_token ← create_refresh_token id
    access_token ← create_access_token id
    nickname ← call (db.get_nickname_by_id id)
    send_tokens info.origin refresh_token access_token nickname

  -- A branch behind the check of the token: a refused token leaves it by `continue`.
  abbrev pub after_token : (Bytes → Thread Unit) → Option Bytes → Thread Next
  after_token body none = pure keep
  after_token body (some id) = body id >> pure clear

  unfoldable pub with_token : Bytes → Bytes → (Bytes → Thread Unit) → Thread Next
  with_token origin access_token body =
      try (check_accesstoken origin access_token >>= λ id. pure (some id)) (λ e. pure none)
      >>= after_token body
