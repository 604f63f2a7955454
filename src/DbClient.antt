-- ===== src/DbClient.antt =====
-- content_server_src/DBclient/DBclient.cpp: posts, their photos and likes. The SQL statements are
-- operations on tables.
pub mod Tables
pub mod Reads
pub mod Likes
pub mod Clicks
pub mod Posts
pub mod Photos
pub mod Kept
pub mod Shown
pub mod Lists
pub mod Pages
use photogram.Prelude.{ℕ, Bool, true, false, Option, none, some, List, [], ◌∷◌, ◌==◌, if◌then◌else◌}
use photogram.Outcome.{Exception, what, foreign, runtime_error, Outcome, ok, throw}
use photogram.Text.{Bytes, codes}
use photogram.Text.StdMap.{StdMap, get_text}
use photogram.Action.{pure, lift, ◌>>=◌, ◌>>◌, try}
use photogram.Postgres.{
  Server, Session, DbAction, prepare_all, bind, exec_prepared0, exec_prepared1, exec_insert, commit,
  finish_work, roll_back, work,
}
use photogram.DbClient.Tables.{
  ℤ, Db, ListedPost, exists_like, exists_post, insert_like, delete_like, increment_likes,
  decrement_likes, delete_likes_of, delete_post, insert_photo, new_post, insert_post,
}
use text.Mathlib.Text.{◌==◌ as str_eq}

-- The database of the content server.
pub record ContentServer : Type 1 where
  pub server : Server Db
  -- whether the connection is made, and is open
  pub connects : Bool
  pub is_open : Bool
  -- LIMIT and OFFSET
  pub read_count : Bytes → Option ℕ
  -- the text of a time
  pub show_timestamp : ℕ → Bytes
  -- the default of the column `like_count`
  pub default_count : Option ℤ
  -- ORDER BY date_posted DESC under a LIMIT and an OFFSET, with which the order of equal times may differ
  pub newest_first : ℕ → ℕ → List ListedPost → List ListedPost

abbrev pub like_statements : List Bytes
like_statements =
    codes "addLikeFirst"
    ∷ codes "addLikeSecond"
    ∷ codes "delLikeFirst"
    ∷ codes "delLikeSecond"
    ∷ codes "isExists"
    ∷ []

abbrev pub deletion_statements : List Bytes
deletion_statements = codes "isExistPost" ∷ codes "delFromLikes" ∷ codes "delFromPosts" ∷ []

abbrev pub post_statements : List Bytes
post_statements = codes "addNewPostPhoto" ∷ codes "addNewPostInformation" ∷ []

module _ (content : ContentServer) where
  open content use {server, connects, is_open, default_count}
  open server use {read_id, show_id}

  abbrev pub ContentAction : Type 0 → Type 0
  ContentAction = DbAction server

  -- The constructor.
  unfoldable pub open_connection : ContentAction Unit
  open_connection =
      if connects
      then if is_open then pure tt else lift (throw (runtime_error "Can't open db"))
      else lift (throw (foreign "no connection"))

  -- `catch (const std::exception e) { throw std::runtime_error("500"); }`
  unfoldable pub or_500 : {A : Type 0} → ContentAction A → ContentAction A
  or_500 m = try m (λ e. lift (throw (runtime_error "500")))

  unfoldable pub toggle_like : Bool → ℕ → ℕ → ContentAction Unit
  toggle_like false post_id user_id =
      exec_prepared0 server (insert_like post_id user_id)
      >> exec_prepared0 server (increment_likes post_id)
  toggle_like true post_id user_id =
      exec_prepared0 server (delete_like post_id user_id)
      >> exec_prepared0 server (decrement_likes post_id)

  unfoldable pub like_clicked : Bytes → Bytes → ContentAction Unit
  like_clicked post_id user_id = or_500 (
      prepare_all server like_statements
      >> work server (do
        post ← bind server read_id post_id
        user ← bind server read_id user_id
        val ← exec_prepared1 server (λ db. exists_like post user db ∷ [])
        toggle_like val post user))

  unfoldable pub delete_own : Bool → ℕ → ContentAction Unit
  delete_own true post_id =
      exec_prepared0 server (delete_likes_of post_id) >> exec_prepared0 server (delete_post post_id)
  delete_own false post_id = lift (throw (runtime_error "Bad request"))

  unfoldable pub bad_request_or_500 : Exception → ContentAction Unit
  bad_request_or_500 e =
      if str_eq (what e) "Bad request"
      then lift (throw (runtime_error "400"))
      else lift (throw (runtime_error "500"))

  unfoldable pub del_post_by_id : Bytes → Bytes → ContentAction Unit
  del_post_by_id post_id id =
      try
        (prepare_all server deletion_statements
          >> work server (do
            post ← bind server read_id post_id
            user ← bind server read_id id
            result ← exec_prepared1 server (λ db. exists_post post user db ∷ [])
            delete_own result post))
        bad_request_or_500

  -- The call runs the statement `delPostById`, and a statement of this name is prepared nowhere.
  unfoldable pub del_post_photo_by_id : Bytes → ContentAction Unit
  del_post_photo_by_id photo_id = or_500 (
      work server (
        prepare_all server (codes "delPostPhotoById" ∷ [])
        >> lift (throw (foreign "prepared statement delPostById does not exist"))))

  -- The row of the post, behind the row of its photo; `now` is LOCALTIMESTAMP.
  abbrev pub add_information : ℕ → Bytes → Bytes → Bytes → ContentAction ℕ
  add_information now user_id description photo_id = bind server read_id user_id >>= λ user.
      bind server read_id photo_id >>= λ photo.
      exec_insert server (codes "posts")
        (insert_post (new_post default_count user now description photo))

  -- The two statements are one transaction. `is_add_photo` is set between them: it says whether an
  -- error runs `delPostPhotoById`, which it does behind the end of the transaction.
  unfoldable pub add_new_post : ℕ → Bytes → StdMap Bytes → ContentAction Unit
  add_new_post now user_id property_map s =
      (or_500 (
            prepare_all server post_statements
            >> roll_back server (
                exec_insert server (codes "post_photos") (
                  insert_photo (get_text (codes "Content-Type") property_map)
                    (get_text (codes "photo") property_map))))
          >>= λ photo.
              try
                (λ s'. finish_work server s.tables (
                  (add_information now user_id (get_text (codes "description") property_map)
                        (show_id photo)
                      >> commit server)
                    s'))
                (λ e. del_post_photo_by_id (show_id photo) >> lift (throw (runtime_error "500"))))
        s
