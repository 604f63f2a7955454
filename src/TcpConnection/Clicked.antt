-- ===== src/TcpConnection/Clicked.antt =====
-- A click on a like, from the POST to the tables and the answer.
use photogram.Prelude.{ℕ, ◌≡◌, refl, ◌⊎◌, inl, inr, true, false, none, some}
use photogram.Outcome.{ok}
use photogram.Text.{Bytes, codes, text_eq}
use photogram.Text.StdMap.{StdMap, get_text}
use photogram.Json.{JsonLib}
use photogram.Action.{pure, lift, ◌>>=◌}
use photogram.FormResponse.{Beast}
use photogram.Postgres.{Session}
use photogram.DbClient.{ContentServer, open_connection, like_clicked}
use photogram.DbClient.Clicks.{toggled, like_clicked-atomic}
use photogram.TcpConnection.{url_arguments, contains, post_target, on_post_id}
use photogram.TcpConnection.Answers.{
  KeepsStatus, PostAnswered, post_work, refused_status, on_post_id-PostAnswered,
}
use photogram.TcpConnection.Served.{served}

module _ (j : JsonLib) (content : ContentServer) (beast : Beast) (laws : KeepsStatus beast)
    (now : Session content.server → ℕ) where
  open content use {server, connects, is_open}
  open server use {read_id}
  open laws use {status}

  -- The target of the request is that of a click, with these arguments.
  pub record IsClick (request : beast.Request) (url_str_arg : StdMap Bytes) : Type 0 where
    pub no_post : text_eq (beast.target request) (codes "/addNewPost") ≡ false
    pub no_deletion : contains (beast.target request) (codes "/deletePost") ≡ false
    pub click : contains (beast.target request) (codes "/likeClicked") ≡ true
    pub arguments : url_arguments (beast.target request) ≡ ok url_str_arg

  post_work-like_clicked :
      (request : beast.Request) (url_str_arg : StdMap Bytes) (id : Bytes) (s : Session server)
      → connects ≡ true
      → is_open ≡ true
      → IsClick request url_str_arg
      → post_work beast laws (served j content beast now) request id s
        ≡ like_clicked content (get_text (codes "post_id") url_str_arg) id s
  unfolding post_target open_connection pure lift ◌>>=◌
  post_work-like_clicked request url_str_arg id s c o h =
      rw (c, o, h.no_post, h.no_deletion, h.click, h.arguments) refl

  -- A click of a user whose token is accepted, over an open connection to the database, whose arguments
  -- are read from its target, is answered 500 and changes nothing; or its post and the id read as numbers, it is answered 200, and the like of that user for
  -- that post is turned around, and the counter of the post with it. Of the library it is used that the
  -- status of a response is the one set last.
  pub on_post_id-like_clicked :
      (request : beast.Request) (url_str_arg : StdMap Bytes) (address id : Bytes)
      (s : Session server)
      → connects ≡ true
      → is_open ≡ true
      → IsClick request url_str_arg
      → refused_status beast laws (served j content beast now) id ≡ none
      → (response : beast.Response) × (((status response ≡ 500)
            × (on_post_id beast (served j content beast now) request address id s
                ≡ (ok response, s)))
          ⊎ ((post : ℕ) × (user : ℕ) × (read_id (get_text (codes "post_id") url_str_arg)
                ≡ some post)
              × (read_id id ≡ some user)
              × (status response ≡ 200)
              × (on_post_id beast (served j content beast now) request address id s
                  ≡ (ok response, record s { tables = toggled post user s.tables }))))
  on_post_id-like_clicked request url_str_arg address id s c o h accepted =
      let api = served j content beast now in
      let work = post_work-like_clicked request url_str_arg id s c o h in
      let answered : PostAnswered beast laws api none s
          (like_clicked content (get_text (codes "post_id") url_str_arg) id s)
          (on_post_id beast api request address id s) =
        rw (accepted, work) at (on_post_id-PostAnswered beast laws api request address id s) in
      elim (like_clicked-atomic content (get_text (codes "post_id") url_str_arg) id s) [
        | inl e ↦
            let ((response, q, k), same) = rw e at answered in
            (response, inl (k, (λ i. (q i, same i))))
        | inr (post, user, p, u, e) ↦
            let ((response, q, k), same) = rw e at answered in
            (response, inr (post, user, p, u, k, (λ i. (q i, same i))))
      ]
