-- ===== src/TcpConnection/AllOrNothing.antt =====
-- A POST of the content server over its database, by the status of its answer.
use photogram.Prelude.{ℕ, ◌≡◌, ap, ◌∙◌, ◌⊎◌, inl, inr, Option, none, some, true}
use photogram.Outcome.{Exception, Outcome, ok, throw, undefined}
use photogram.Text.{Bytes}
use photogram.Text.StdMap.{StdMap}
use photogram.Json.{JsonLib}
use photogram.FormResponse.{Beast}
use photogram.Postgres.{Session}
use photogram.Postgres.Atomic.{Atomic, Refuses, is_ok, atomic_post_rules}
use photogram.DbClient.{
  ContentServer, open_connection, or_500, like_clicked, del_post_by_id, bad_request_or_500,
  add_new_post,
}
use photogram.DbClient.Photos.{add_new_post-atomic}
use photogram.TcpConnection.{post_target, on_post_id}
use photogram.TcpConnection.Answers.{
  KeepsStatus, PostAnswered, post_work, refused_status, on_post_id-PostAnswered,
}
use photogram.TcpConnection.Served.{served}

module _ (j : JsonLib) (content : ContentServer) (beast : Beast) (laws : KeepsStatus beast)
    (now : Session content.server → ℕ) where
  open content use {server}
  open laws use {status}

  Refuses-open_connection : Refuses server (open_connection content)
  unfolding open_connection
  Refuses-open_connection = search atomic_post_rules

  Refuses-bad_request_or_500 : (e : Exception) → Refuses server (bad_request_or_500 content e)
  unfolding bad_request_or_500
  Refuses-bad_request_or_500 e = search atomic_post_rules

  Atomic-like_clicked :
      (post_id user_id : Bytes) → Atomic server (like_clicked content post_id user_id)
  unfolding like_clicked or_500
  Atomic-like_clicked post_id user_id = search atomic_post_rules

  Atomic-del_post_by_id :
      (post_id user_id : Bytes) → Atomic server (del_post_by_id content post_id user_id)
  unfolding del_post_by_id
  Atomic-del_post_by_id post_id user_id = search (atomic_post_rules, Refuses-bad_request_or_500)

  Atomic-add_new_post :
      (user_id : Bytes) (property_map : StdMap Bytes)
      → Atomic server (λ s. add_new_post content (now s) user_id property_map s)
  Atomic-add_new_post user_id property_map = record {
    at = λ s. elim (add_new_post-atomic content (now s) user_id property_map s) [
      | inl (s', e, h) ↦ inr (ap (λ r. r.1.tables) e ∙ h)
      | inr (user, photo_ref, u, p, w, e) ↦ inl (ap (λ r. is_ok r.0) e)
    ];
  }

  Atomic-post_work :
      (request : beast.Request) (id : Bytes)
      → Atomic server (post_work beast laws (served j content beast now) request id)
  unfolding post_target
  Atomic-post_work request id =
      search
        (
          atomic_post_rules, Refuses-open_connection, Atomic-like_clicked, Atomic-del_post_by_id,
          Atomic-add_new_post,
        )
        depth 14

  -- The two ends of a POST: it is answered 200, or the tables are as they were.
  abbrev End : Session server → Outcome beast.Response × Session server → Type 0
  End s r =
      ((response : beast.Response) × (r.0 ≡ ok response) × (status response ≡ 200))
      ⊎ (r.1.tables ≡ s.tables)

  PostAnswered-End :
      (n : Option ℕ) (s : Session server) (work : Outcome (Unit {0}) × Session server)
      (r : Outcome beast.Response × Session server)
      → PostAnswered beast laws (served j content beast now) n s work r
      → (is_ok work.0 ≡ true) ⊎ (work.1.tables ≡ s.tables)
      → End s r
  PostAnswered-End (some n) s work r (response, q, k) h = inr (ap (λ x. x.1.tables) q)
  PostAnswered-End none s (ok u, s') r (answered, same) h = inl answered
  PostAnswered-End none s (throw e, s') r (answered, same) h = elim h [
    | inl c ↦ cc
    | inr d ↦ inr (ap (λ x. x.tables) same ∙ d)
  ]
  PostAnswered-End none s (undefined, s') r (answered, same) h = elim h [
    | inl c ↦ cc
    | inr d ↦ inr (ap (λ x. x.tables) same ∙ d)
  ]

  -- A POST that is not answered 200 changes no table of the content server: whatever its target, its
  -- token and its form are, and wherever in its work an error is thrown. Of the library it is used that
  -- the status of a response is the one set last.
  pub on_post_id-all_or_nothing :
      (request : beast.Request) (address id : Bytes) (s : Session server)
      → let r = on_post_id beast (served j content beast now) request address id s in
        ((response : beast.Response) × (r.0 ≡ ok response) × (status response ≡ 200))
        ⊎ (r.1.tables ≡ s.tables)
  on_post_id-all_or_nothing request address id s =
      PostAnswered-End (refused_status beast laws (served j content beast now) id) s
        (post_work beast laws (served j content beast now) request id s)
        (on_post_id beast (served j content beast now) request address id s)
        (on_post_id-PostAnswered beast laws (served j content beast now) request address id s)
        ((Atomic-post_work request id).at s)
