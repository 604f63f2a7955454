-- ===== src/WorkWithClient/Refused.antt =====
-- A request whose access token is refused (`WorkWithClient::run`).
use photogram.Prelude.{◌≡◌, ◌≢◌, refl, ap, ◌∙◌, [], ◌∷◌, ◌++◌}
use photogram.Outcome.{Exception, ok, throw}
use photogram.Text.{Bytes}
use photogram.HttpDef.{
  Status, success, PostMsg, login, registration, update_profile_photo, update_profile_data,
  update_profile_password, GetMsg, OptionsTInfo, PostTInfo, GetTInfo, HttpTypesInfo, monostate,
  options_info, post_info, get_info,
}
use photogram.HttpDef
use photogram.HttpParser.{parse}
use photogram.Action.{pure, lift, ◌>>=◌}
use photogram.ResponseSender.{error}
use photogram.Services.{Services}
use photogram.WorkWithClient.{Client, keep}
use photogram.WorkWithClient.Handlers.{handle_post_msg, handle_get, handle_info}
use photogram.WorkWithClient.Run.{bytes, on_status, on_receive}
use photogram.WorkWithClient.Token.{ErrorDumps, token_check, after_clock, with_token-refused}

module _ (v : Services) where
  open v use {json, stale}
  open json use {Json, as_text}

  -- The requests that need an access token, with their origin and the token.
  pub data NeedsToken : HttpTypesInfo Json → Bytes → Bytes → Type 0 where
    by_get :
        (info : GetTInfo)
        → info.msg ≢ HttpDef.GetMsg.get_new_token
        → NeedsToken (get_info info) info.origin info.access_token
    by_photo :
        (info : PostTInfo Json)
        → info.msg ≡ update_profile_photo
        → NeedsToken (post_info info) info.origin info.access_token
    by_data :
        (info : PostTInfo Json)
        → info.msg ≡ update_profile_data
        → NeedsToken (post_info info) info.origin info.access_token
    by_password :
        (info : PostTInfo Json) (password : Bytes)
        → info.msg ≡ update_profile_password
        → as_text info.json_body ≡ ok password
        → NeedsToken (post_info info) info.origin info.access_token

  -- The state behind a refusal: the clock was read, and one 401 was sent.
  abbrev pub refused : ErrorDumps v → Bytes → Client v.db.World → Client v.db.World
  refused errors origin s = record (after_clock v s) {
    sent = s.sent ++ error origin "401" errors.0 ∷ [];
  }

  module _ (errors : ErrorDumps v) (s : Client v.db.World) (e : Exception) where
    handle_get-refused :
        (info : GetTInfo) (msg : GetMsg)
        → msg ≢ HttpDef.GetMsg.get_new_token
        → token_check v info.access_token s ≡ throw e
        → handle_get v info msg s ≡ (ok keep, refused errors info.origin s)
    unfolding handle_get
    handle_get-refused info HttpDef.GetMsg.get_new_token n h = absurd (n refl)
    handle_get-refused info _ n h =
        with_token-refused v errors info.origin info.access_token _ s e h

    handle_photo-refused :
        (info : PostTInfo Json)
        → token_check v info.access_token s ≡ throw e
        → handle_post_msg v info update_profile_photo s ≡ (ok keep, refused errors info.origin s)
    unfolding handle_post_msg
    handle_photo-refused info h = with_token-refused v errors info.origin info.access_token _ s e h

    handle_data-refused :
        (info : PostTInfo Json)
        → token_check v info.access_token s ≡ throw e
        → handle_post_msg v info update_profile_data s ≡ (ok keep, refused errors info.origin s)
    unfolding handle_post_msg
    handle_data-refused info h = with_token-refused v errors info.origin info.access_token _ s e h

    handle_password-refused :
        (info : PostTInfo Json) (password : Bytes)
        → as_text info.json_body ≡ ok password
        → token_check v info.access_token s ≡ throw e
        → handle_post_msg v info update_profile_password s ≡ (ok keep, refused errors info.origin s)
    unfolding handle_post_msg lift ◌>>=◌
    handle_password-refused info password p h =
        rw p (with_token-refused v errors info.origin info.access_token _ s e h)

    pub handle_info-refused :
        (info : HttpTypesInfo Json) (origin token : Bytes)
        → NeedsToken info origin token
        → token_check v token s ≡ throw e
        → handle_info v info s ≡ (ok keep, refused errors origin s)
    unfolding handle_info
    handle_info-refused _ _ _ (by_get info n) h = handle_get-refused info info.msg n h
    handle_info-refused _ _ _ (by_photo info n) h =
        ap (λ m. handle_post_msg v info m s) n ∙ handle_photo-refused info h
    handle_info-refused _ _ _ (by_data info n) h =
        ap (λ m. handle_post_msg v info m s) n ∙ handle_data-refused info h
    handle_info-refused _ _ _ (by_password info password n p) h =
        ap (λ m. handle_post_msg v info m s) n ∙ handle_password-refused info password p h

    -- Where the bytes received so far hold a request that needs an access token, and the token is
    -- refused, the client is sent one 401, the database is not called, and the whole request stays in
    -- the buffer: what is received next is appended to it. Of the library it is used that it writes the
    -- error object of a refused token.
    pub on_receive-refused :
        (request chunk : Bytes) (info : HttpTypesInfo Json) (origin token : Bytes)
        → parse json stale (request ++ chunk) ≡ ok (success, info)
        → NeedsToken info origin token
        → token_check v token s ≡ throw e
        → on_receive v request (bytes chunk) s ≡ (ok (request ++ chunk), refused errors origin s)
    unfolding on_receive on_status lift pure ◌>>=◌
    on_receive-refused request chunk info origin token p n h =
        rw (p, handle_info-refused info origin token n h)
