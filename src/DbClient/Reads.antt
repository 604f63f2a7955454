-- ===== src/DbClient/Reads.antt =====
-- The reads of content_server_src/DBclient/DBclient.cpp.
use photogram.Prelude.{ℕ, suc, Bool, true, false, Option, none, some, List, [], ◌∷◌, ◌++◌, foldl}
use photogram.Text.{Bytes, codes}
use photogram.Json.{JsonLib}
use photogram.Action.{pure, ◌>>=◌, ◌>>◌}
use photogram.Postgres.{prepare_all, bind, exec_prepared, exec_prepared1, commit, roll_back, work}
use photogram.DbClient.Tables.{
  ℤ, pos, negsuc, ListedPost, posts_page, is_shown_to, is_by, photo_by_id,
}
use photogram.DbClient.{ContentServer, ContentAction, or_500}

module _ (j : JsonLib) (content : ContentServer) where
  open j use {Json, object, push_back}
  open content use {server, read_count, show_timestamp, newest_first}
  open server use {read_id, show_id}

  abbrev show_int : ℤ → Bytes
  show_int (pos n) = show_id n
  show_int (negsuc n) = codes "-" ++ show_id (suc n)

  -- c_str() of a NULL is the empty text.
  abbrev pub id_text : Option ℕ → Bytes
  id_text none = []
  id_text (some id) = show_id id

  abbrev pub count_text : Option ℤ → Bytes
  count_text none = []
  count_text (some n) = show_int n

  abbrev pub liked_text : Bool → Bytes
  liked_text true = codes "true"
  liked_text false = codes "false"

  abbrev pub post_json : ListedPost → Json
  post_json r = object (
      (codes "post_id", show_id r.post.id)
      ∷ (codes "nickname", r.nickname)
      ∷ (codes "date_posted", show_timestamp r.post.date_posted)
      ∷ (codes "description", r.post.description)
      ∷ (codes "like_count", count_text r.post.like_count)
      ∷ (codes "photo_id", id_text r.post.photo_id)
      ∷ (codes "profile_picture_id", id_text r.profile_picture_id)
      ∷ (codes "is_liked", liked_text r.is_liked)
      ∷ [])

  abbrev pub push_rows : Json → List ListedPost → Json
  push_rows = foldl (λ json r. push_back json (post_json r))

  -- Without rows the call returns before the commit.
  abbrev pub commit_rows : Json → List ListedPost → ContentAction content Json
  commit_rows json [] = pure json
  commit_rows json (r ∷ rs) = commit server >> pure (push_rows json (r ∷ rs))

  -- `json` is what stands in `json_`, and the result what stands there behind the call.
  unfoldable pub get_posts_list : Bytes → Bytes → Bytes → Json → ContentAction content Json
  get_posts_list id limit offset json = or_500 content (
      roll_back server (do
        prepare_all server (codes "getPostsList" ∷ [])
        user ← bind server read_id id
        limit' ← bind server read_count limit
        offset' ← bind server read_count offset
        result ←
            exec_prepared server
              (λ db. posts_page newest_first (is_shown_to user db) user limit' offset' db)
        commit_rows json result))

  unfoldable pub get_posts_list_by_id :
      Bytes → Bytes → Bytes → Bytes → Json → ContentAction content Json
  get_posts_list_by_id author_id user_id limit offset json = or_500 content (
      roll_back server (do
        prepare_all server (codes "getPostsListById" ∷ [])
        author ← bind server read_id author_id
        user ← bind server read_id user_id
        limit' ← bind server read_count limit
        offset' ← bind server read_count offset
        result ← exec_prepared server (posts_page newest_first (is_by author) user limit' offset')
        commit_rows json result))

  -- The photo, and its type.
  unfoldable pub get_post_photo_by_id : Bytes → ContentAction content (Bytes × Bytes)
  get_post_photo_by_id photo_id = or_500 content (do
    row ← work server (do
      prepare_all server (codes "getPostPhotoById" ∷ [])
      photo ← bind server read_id photo_id
      exec_prepared1 server (photo_by_id photo))
    pure (row.photo, row.photo_type))
