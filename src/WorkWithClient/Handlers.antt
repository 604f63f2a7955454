-- ===== src/WorkWithClient/Handlers.antt =====
-- `WorkWithClient::run`: the branches of the loop, one for each message.
use photogram.Prelude.{[], ◌∷◌}
use photogram.Text.{Bytes, codes}
use photogram.Text.StdMap.{get_text, begin_value}
use photogram.JwtToken
use photogram.HttpDef.{
  PostMsg, login, registration, update_profile_photo, update_profile_data, update_profile_password,
  GetMsg, OptionsTInfo, PostTInfo, GetTInfo, HttpTypesInfo, monostate, options_info, post_info,
  get_info,
}
use photogram.HttpDef
use photogram.Action.{pure, lift, ◌>>=◌, ◌>>◌, try}
use photogram.ResponseSender.{empty_ok, binary_ok, options_ok}
use photogram.Services.{Services}
use photogram.WorkWithClient.{
  secret, Next, clear, Thread, call, read_clock, send, send_json, send_tokens, send_error,
  internal_error, occupied_or_500, photo_error, login_error, not_found_or_500, bad_http_or_500,
  friend_error, create_access_token, log_in, with_token,
}

module _ (v : Services) where
  open v use {json, jwt, db}
  open json use {Json, as_text, object}

  -- A call of the database, and the answer without a body.
  abbrev pub then_empty_ok : {A : Type 0} → Bytes → Thread v A → Thread v Unit
  then_empty_ok origin m = m >> send v (empty_ok origin)

  unfoldable pub handle_post_msg : PostTInfo Json → PostMsg → Thread v Next
  handle_post_msg info login = try (log_in v info) (login_error v info.origin) >> pure clear
  handle_post_msg info registration =
      try (then_empty_ok info.origin (call v (db.add_new_user info)))
        (occupied_or_500 v info.origin "401")
      >> pure clear
  handle_post_msg info update_profile_photo = with_token v info.origin info.access_token λ id.
      try (then_empty_ok info.origin (call v (db.update_profile_photo info id)))
        (photo_error v info.origin)
  handle_post_msg info update_profile_data = with_token v info.origin info.access_token λ id.
      try (then_empty_ok info.origin (call v (db.update_profile_data info.json_body id)))
        (occupied_or_500 v info.origin "400")
  handle_post_msg info update_profile_password =
      lift (as_text info.json_body) >>= λ hashed_password.
      with_token v info.origin info.access_token λ id.
        try (then_empty_ok info.origin (call v (db.update_profile_password hashed_password id)))
          (occupied_or_500 v info.origin "400")

  unfoldable pub new_token : GetTInfo → Thread v Unit
  new_token info =
      try
        (do
          time ← read_clock v
          id ← lift (JwtToken.check_refresh_token jwt info.refresh_token secret time)
          access_token ← create_access_token v id
          nickname ← call v (db.get_nickname_by_id id)
          send_tokens v info.origin info.refresh_token access_token nickname)
        (λ e. send_error v info.origin "401" "Invalid refresh token")

  -- The messages that need an access token, for the id that it gives.
  unfoldable pub handle_get_msg : GetTInfo → GetMsg → Bytes → Thread v Unit
  handle_get_msg info HttpDef.GetMsg.get_new_token id = new_token info
  handle_get_msg info HttpDef.GetMsg.get_profile_by_nickname id =
      try
        (do
          body ← call v (db.get_profile_information (get_text (codes "nickname") info.properties))
          send_json v info.origin body)
        (not_found_or_500 v info.origin)
  handle_get_msg info HttpDef.GetMsg.get_profile_photo id =
      try
        (do
          photo ← call v (db.get_profile_photo (get_text (codes "nickname") info.properties))
          send v (binary_ok info.origin photo.0 photo.1))
        (not_found_or_500 v info.origin)
  handle_get_msg info HttpDef.GetMsg.get_users_list id =
      try (do users ← call v (db.get_users info.properties id); send_json v info.origin users)
        (bad_http_or_500 v info.origin)
  handle_get_msg info HttpDef.GetMsg.get_photo_by_id id =
      try
        (do
          photo_id ← lift (begin_value info.properties)
          photo ← call v (db.get_photo_by_id photo_id)
          send v (binary_ok info.origin photo.0 photo.1))
        (bad_http_or_500 v info.origin)
  handle_get_msg info HttpDef.GetMsg.make_friend id =
      try
        (then_empty_ok info.origin
          (call v (db.make_friend id (get_text (codes "friend_id") info.properties))))
        (friend_error v info.origin)
  handle_get_msg info HttpDef.GetMsg.delete_friend id =
      try
        (then_empty_ok info.origin
          (call v (db.delete_friend id (get_text (codes "friend_id") info.properties))))
        (friend_error v info.origin)
  handle_get_msg info HttpDef.GetMsg.get_status id =
      try
        (do
          friend_id ← lift (begin_value info.properties)
          status ← call v (db.get_status id friend_id)
          send_json v info.origin status)
        (friend_error v info.origin)
  handle_get_msg info HttpDef.GetMsg.get_id_fs_by_access id =
      try (send_json v info.origin (object ((codes "id", id) ∷ [])))
        (λ e. internal_error v info.origin)

  unfoldable pub handle_get : GetTInfo → GetMsg → Thread v Next
  handle_get info HttpDef.GetMsg.get_new_token =
      handle_get_msg info HttpDef.GetMsg.get_new_token [] >> pure clear
  handle_get info msg = with_token v info.origin info.access_token (handle_get_msg info msg)

  unfoldable pub handle_info : HttpTypesInfo Json → Thread v Next
  handle_info monostate = pure clear
  handle_info (options_info info) = send v (options_ok info.origin) >> pure clear
  handle_info (post_info info) = handle_post_msg info info.msg
  handle_info (get_info info) = handle_get info info.msg
