-- ===== src/TcpConnection.antt =====
-- content_server_src/TcpConnection/TcpConnection.cpp: the answer to a request of the content server, once
-- it is read. `response` is what stands in `response_` when the write begins.
pub mod Answers
pub mod GetAnswers
pub mod Served
pub mod Reading
pub mod AllOrNothing
pub mod Clicked
pub mod Kept
pub mod Exchange
pub mod Explained
pub mod Called
use photogram.Prelude.{ℕ, Bool, true, false, not, ◌++◌, [], ◌==◌, if◌then◌else◌}
use photogram.Outcome.{Exception, what, Outcome, ok}
use photogram.Text.{Bytes, codes, npos, find, text_eq}
use photogram.Text.StdMap.{StdMap, get_text}
use photogram.Action.{Action, pure, lift, ◌>>=◌, ◌>>◌, try}
use photogram.Request
use photogram.FormResponse.{
  Verb, options, get, post, other, Beast, allow_origin, form_response_options, form_response_text,
  form_response_json, form_response_with_bin_data, form_response_ok, form_response_error,
}
use text.Mathlib.Text.{◌==◌ as str_eq}

-- What the connection calls: the class DBclient over the content database, FormDataParser, and
-- nlohmann::json.
pub record ContentApi (beast : Beast) : Type 1 where
  pub World : Type 0
  -- the constructor of DBclient
  pub connect : Action World (Unit {0})
  pub Json : Type 0
  pub dump : Json → Outcome Bytes
  pub get_content : beast.Request → Outcome (StdMap Bytes)
  pub add_new_post : Bytes → StdMap Bytes → Action World (Unit {0})
  pub del_post_by_id : Bytes → Bytes → Action World (Unit {0})
  pub like_clicked : Bytes → Bytes → Action World (Unit {0})
  pub get_posts_list : Bytes → Bytes → Bytes → Action World Json
  pub get_posts_list_by_id : Bytes → Bytes → Bytes → Bytes → Action World Json
  -- the photo and its type
  pub get_post_photo_by_id : Bytes → Action World (Bytes × Bytes)

-- FormRequest::URLParser, into an empty map; the text of Request::URLParser, from the start.
unfoldable pub url_arguments : Bytes → Outcome (StdMap Bytes)
url_arguments target = Request.url_parser target [] 0

abbrev pub contains : Bytes → Bytes → Bool
contains target name = not (find target name 0 == npos)

module _ (beast : Beast) (api : ContentApi beast) where
  open beast use {
    Request, method, target, field, Response, fresh, version, result, set, prepare_payload,
  }
  open api use {World, connect, dump, get_content, add_new_post}

  -- The answer where the check of the token gave no id: what comes before the last else.
  abbrev pub start_response : ℕ → Response
  start_response status = result status (version 11 fresh)

  unfoldable pub refused_response : Bytes → ℕ → Response
  refused_response client_addres status = prepare_payload (
      allow_origin beast client_addres
        (set (codes "Version") (codes "HTTP / 1.1") (start_response status)))

  abbrev pub or_error_500 : Bytes → Action World Response → Action World Response
  or_error_500 client_addres m =
      try m (λ e. pure (form_response_error beast client_addres 500 (start_response 400)))

  unfoldable pub posts_list : Bytes → Bytes → Bytes → Action World Response
  posts_list client_addres target id = do
    url_str_arg ← lift (url_arguments target)
    json ←
        api.get_posts_list id (get_text (codes "LIMIT") url_str_arg)
          (get_text (codes "OFFSET") url_str_arg)
    json_body ← lift (dump json)
    pure (form_response_json beast client_addres json_body)

  unfoldable pub posts_list_by_id : Bytes → Bytes → Bytes → Action World Response
  posts_list_by_id client_addres target id = do
    url_str_arg ← lift (url_arguments target)
    json ←
        api.get_posts_list_by_id (get_text (codes "id") url_str_arg) id
          (get_text (codes "LIMIT") url_str_arg) (get_text (codes "OFFSET") url_str_arg)
    json_body ← lift (dump json)
    pure (form_response_json beast client_addres json_body)

  unfoldable pub post_photo : Bytes → Bytes → Action World Response
  post_photo client_addres target = do
    url_str_arg ← lift (url_arguments target)
    photo ← api.get_post_photo_by_id (get_text (codes "photo_id") url_str_arg)
    pure (form_response_with_bin_data beast client_addres photo.1 photo.0)

  -- The targets of a GET; another one is answered with the 400 that the response began with.
  unfoldable pub get_target : Bytes → Bytes → Bytes → Action World Response
  get_target client_addres target id =
      if text_eq target (codes "/getId")
      then or_error_500 client_addres
          (pure (form_response_text beast client_addres (codes "Hello World! Your id = " ++ id)))
      else if contains target (codes "/getPostsList")
      then or_error_500 client_addres (posts_list client_addres target id)
      else if contains target (codes "/getByIdPostsList")
      then or_error_500 client_addres (posts_list_by_id client_addres target id)
      else if contains target (codes "/getPostPhoto")
      then or_error_500 client_addres (post_photo client_addres target)
      else pure (start_response 400)

  -- The targets of a POST; another one does nothing.
  unfoldable pub post_target : Request → Bytes → Action World (Unit {0})
  post_target request id =
      if text_eq (target request) (codes "/addNewPost")
      then (do content ← lift (get_content request); add_new_post id content)
      else if contains (target request) (codes "/deletePost")
      then (do
        url_str_arg ← lift (url_arguments (target request))
        api.del_post_by_id (get_text (codes "post_id") url_str_arg) id)
      else if contains (target request) (codes "/likeClicked")
      then (do
        url_str_arg ← lift (url_arguments (target request))
        api.like_clicked (get_text (codes "post_id") url_str_arg) id)
      else pure tt

  -- The error of a POST: the answer of the `if` is overwritten by the one below it.
  abbrev post_error : Bytes → Response → Exception → Action World Response
  post_error client_addres response e = pure (
      form_response_error beast client_addres 500 (
        if str_eq (what e) "400"
        then form_response_error beast client_addres 400 response
        else response))

  unfoldable pub post_answer : Request → Bytes → Bytes → Action World Response
  post_answer request client_addres id =
      try
        (connect
          >> post_target request id
          >> pure (form_response_ok beast client_addres (start_response 400)))
        (post_error client_addres (start_response 400))

  -- The callback of the check: the three texts that stand for no id, and the rest.
  abbrev by_id : Bytes → Bytes → Action World Response → Action World Response
  by_id client_addres id answer =
      if text_eq id (codes "unauthorized")
      then pure (refused_response client_addres 401)
      else if text_eq id (codes "bad_request")
      then pure (refused_response client_addres 400)
      else if text_eq id (codes "internal_server_error")
      then pure (refused_response client_addres 500)
      else answer

  unfoldable pub on_get_id : Request → Bytes → Bytes → Action World Response
  on_get_id request client_addres id =
      by_id client_addres id (connect >> get_target client_addres (target request) id)

  unfoldable pub on_post_id : Request → Bytes → Bytes → Action World Response
  on_post_id request client_addres id =
      by_id client_addres id (post_answer request client_addres id)

  -- What a request comes to: an answer that is written, a check of a token with its callback, or nothing.
  pub data Handled : Type 0 where
    answer : Response → Handled
    check : Bytes → (Bytes → Action World Response) → Handled
    nothing : Handled

  unfoldable pub handle_request : Request → Action World Handled
  handle_request request =
      let client_addres = field (codes "Origin") request in
      let token = field (codes "Authorization") request in
      elim (method request) [
        | options ↦ pure (answer (form_response_options beast request client_addres fresh))
        | get ↦ connect >> pure (check token (on_get_id request client_addres))
        | post ↦ pure (check token (on_post_id request client_addres))
        | other ↦ pure nothing
      ]
