-- ===== src/WorkWithClient/OneAnswer.antt =====
-- How many answers the helpers and the branches of the client's thread send.
use photogram.Prelude.{String}
use photogram.Outcome.{Exception}
use photogram.Text.{Bytes}
use photogram.HttpDef.{
  PostMsg, login, registration, update_profile_photo, update_profile_data, update_profile_password,
  GetMsg, PostTInfo, GetTInfo, HttpTypesInfo, monostate, options_info, post_info, get_info,
}
use photogram.HttpDef
use photogram.Services.{Services}
use photogram.WorkWithClient.{
  send_json, send_tokens, send_error, internal_error, occupied_or_500, photo_error, login_error,
  not_found_or_500, bad_http_or_500, friend_error, create_access_token, create_refresh_token,
  log_in,
}
use photogram.WorkWithClient.Handlers.{new_token, handle_get_msg}
use photogram.WorkWithClient.Answers.{
  Counted, Sends, sends_rules, Sends-bind, Sends-then_pure, Sends-try, Sends-call, Sends-send,
  Sends-lift, Sends-if, Sends-pure, Sends-read_clock,
}

module _ (v : Services) where
  pub Sends-send_json : (origin : Bytes) (j : v.json.Json) → Sends v 1 (send_json v origin j)
  unfolding send_json
  Sends-send_json origin j = Sends-bind v 1 _ _ (Sends-lift v _) (λ text. Sends-send v _)

  pub Sends-send_tokens : (a b c d : Bytes) → Sends v 1 (send_tokens v a b c d)
  unfolding send_tokens
  Sends-send_tokens a b c d = Sends-bind v 1 _ _ (Sends-lift v _) (λ text. Sends-send v _)

  pub Sends-send_error : (origin : Bytes) (a b : String) → Sends v 1 (send_error v origin a b)
  unfolding send_error
  Sends-send_error origin a b = Sends-bind v 1 _ _ (Sends-lift v _) (λ text. Sends-send v _)

  pub Sends-internal_error : (origin : Bytes) → Sends v 1 (internal_error v origin)
  unfolding internal_error
  Sends-internal_error origin = Sends-send_error origin _ _

  ruleset error_rules = (sends_rules, Sends-send_error, Sends-internal_error)

  pub Sends-occupied_or_500 :
      (origin : Bytes) (code : String) (e : Exception) → Sends v 1 (occupied_or_500 v origin code e)
  unfolding occupied_or_500
  Sends-occupied_or_500 origin code e = search error_rules

  pub Sends-photo_error : (origin : Bytes) (e : Exception) → Sends v 1 (photo_error v origin e)
  unfolding photo_error
  Sends-photo_error origin e = search error_rules

  pub Sends-login_error : (origin : Bytes) (e : Exception) → Sends v 1 (login_error v origin e)
  unfolding login_error
  Sends-login_error origin e = search error_rules

  pub Sends-not_found_or_500 :
      (origin : Bytes) (e : Exception) → Sends v 1 (not_found_or_500 v origin e)
  unfolding not_found_or_500
  Sends-not_found_or_500 origin e = search error_rules

  pub Sends-bad_http_or_500 :
      (origin : Bytes) (e : Exception) → Sends v 1 (bad_http_or_500 v origin e)
  unfolding bad_http_or_500
  Sends-bad_http_or_500 origin e = search error_rules

  pub Sends-friend_error : (origin : Bytes) (e : Exception) → Sends v 1 (friend_error v origin e)
  unfolding friend_error
  Sends-friend_error origin e = search error_rules

  pub Sends-create_access_token : (id : Bytes) → Sends v 0 (create_access_token v id)
  unfolding create_access_token
  Sends-create_access_token id =
      Sends-bind v 0 _ _ (Sends-read_clock v)
        (λ issued. Sends-bind v 0 _ _ (Sends-read_clock v) (λ time. Sends-pure v _))

  pub Sends-create_refresh_token : (id : Bytes) → Sends v 0 (create_refresh_token v id)
  unfolding create_refresh_token
  Sends-create_refresh_token id =
      Sends-bind v 0 _ _ (Sends-read_clock v)
        (λ issued. Sends-bind v 0 _ _ (Sends-read_clock v) (λ time. Sends-pure v _))

  pub ruleset answer_rules = (
    sends_rules, Sends-send_json, Sends-send_tokens, Sends-send_error, Sends-internal_error,
    Sends-occupied_or_500, Sends-photo_error, Sends-login_error, Sends-not_found_or_500,
    Sends-bad_http_or_500, Sends-friend_error, Sends-create_access_token,
    Sends-create_refresh_token,
  )

  pub Sends-log_in : (info : PostTInfo v.json.Json) → Sends v 1 (log_in v info)
  unfolding log_in
  Sends-log_in info = search answer_rules depth 16

  pub Sends-new_token : (info : GetTInfo) → Sends v 1 (new_token v info)
  unfolding new_token
  Sends-new_token info = search answer_rules depth 16

  pub Sends-handle_get_msg :
      (info : GetTInfo) (msg : GetMsg) (id : Bytes) → Sends v 1 (handle_get_msg v info msg id)
  unfolding handle_get_msg
  Sends-handle_get_msg info HttpDef.GetMsg.get_new_token id = Sends-new_token info
  Sends-handle_get_msg info _ id = search answer_rules depth 8
