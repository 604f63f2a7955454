-- ===== src/WorkWithClient/Handled.antt =====
-- The answers of the thread to a parsed request.
use photogram.Prelude.{◌≢◌, refl, [], length}
use photogram.HttpDef.{
  Status, success, PostMsg, login, registration, update_profile_photo, update_profile_data,
  update_profile_password, GetMsg, OptionsTInfo, PostTInfo, GetTInfo, HttpTypesInfo, monostate,
  options_info, post_info, get_info,
}
use photogram.HttpDef
use photogram.ResponseSender.{options_ok}
use photogram.Services.{Services}
use photogram.WorkWithClient.{Client, clear}
use photogram.WorkWithClient.Handlers.{handle_post_msg, handle_get, handle_info}
use photogram.WorkWithClient.Answers.{
  Counted, Sends, Sends-bind, Sends-then_pure, Sends-try, Sends-send, Sends-lift,
}
use photogram.WorkWithClient.OneAnswer.{
  answer_rules, Sends-log_in, Sends-handle_get_msg, Sends-login_error,
}
use photogram.WorkWithClient.Token.{ErrorDumps, Sends-with_token}

module _ (v : Services) (errors : ErrorDumps v) where
  open v use {json}
  open json use {Json}

  Sends-handle_post_msg :
      (info : PostTInfo Json) (msg : PostMsg) → Sends v 1 (handle_post_msg v info msg)
  unfolding handle_post_msg
  Sends-handle_post_msg info login =
      Sends-then_pure v 1 _ clear
        (Sends-try v 1 _ _ (Sends-log_in v info) (Sends-login_error v info.origin))
  Sends-handle_post_msg info registration = search answer_rules depth 8
  Sends-handle_post_msg info update_profile_photo =
      Sends-with_token v errors info.origin info.access_token _ (λ id. search answer_rules depth 8)
  Sends-handle_post_msg info update_profile_data =
      Sends-with_token v errors info.origin info.access_token _ (λ id. search answer_rules depth 8)
  Sends-handle_post_msg info update_profile_password = Sends-bind v 1 _ _ (Sends-lift v _) (λ p.
      Sends-with_token v errors info.origin info.access_token _ (λ id. search answer_rules depth 8))

  Sends-handle_get : (info : GetTInfo) (msg : GetMsg) → Sends v 1 (handle_get v info msg)
  unfolding handle_get
  Sends-handle_get info HttpDef.GetMsg.get_new_token =
      Sends-then_pure v 1 _ clear (Sends-handle_get_msg v info HttpDef.GetMsg.get_new_token [])
  Sends-handle_get info _ =
      Sends-with_token v errors info.origin info.access_token _ (Sends-handle_get_msg v info _)

  -- Whatever the database, the tokens and the JSON library do, a parsed request is answered exactly
  -- once when its handler returns, and not at all when the handler throws or is undefined. Assumed is
  -- that the library writes the one error object that a refused token is answered with.
  pub handle_info-one_answer :
      (info : HttpTypesInfo Json) (s : Client v.db.World)
      → info ≢ monostate
      → Counted 1 (handle_info v info s).0 (length s.sent) (length (handle_info v info s).1.sent)
  unfolding handle_info
  handle_info-one_answer monostate s h = absurd (h refl)
  handle_info-one_answer (options_info info) s h =
      (Sends-then_pure v 1 _ clear (Sends-send v (options_ok info.origin))).at s
  handle_info-one_answer (post_info info) s h = (Sends-handle_post_msg info info.msg).at s
  handle_info-one_answer (get_info info) s h = (Sends-handle_get info info.msg).at s
