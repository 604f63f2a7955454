-- ===== src/TcpConnection/Reading.antt =====
-- A GET of the content server over its database.
use photogram.Prelude.{ℕ, ◌≡◌, refl, List, [], ◌∷◌}
use photogram.Text.{Bytes}
use photogram.Json.{JsonLib}
use photogram.FormResponse.{Beast}
use photogram.Postgres.{Session}
use photogram.Postgres.Keeps.{Keeps, read_rules}
use photogram.DbClient.Tables.{Db, ListedPost}
use photogram.DbClient.{ContentServer, open_connection, or_500}
use photogram.DbClient.Reads.{
  commit_rows, get_posts_list, get_posts_list_by_id, get_post_photo_by_id,
}
use photogram.TcpConnection.{get_target, on_get_id, posts_list, posts_list_by_id, post_photo}
use photogram.TcpConnection.Served.{served}

module _ (j : JsonLib) (content : ContentServer) (beast : Beast) (now : Session content.server → ℕ)
    (tables : Db) where
  open content use {server}

  abbrev pub Same : Db → Type 0
  Same db = db ≡ tables

  pub Keeps-open_connection : Keeps server Same (open_connection content)
  unfolding open_connection
  Keeps-open_connection = search read_rules

  Keeps-commit_rows :
      (json : j.Json) (rows : List ListedPost) → Keeps server Same (commit_rows j content json rows)
  Keeps-commit_rows json [] = search read_rules
  Keeps-commit_rows json (r ∷ rows) = search read_rules

  ruleset list_rules = (read_rules, Keeps-open_connection, Keeps-commit_rows)

  Keeps-get_posts_list :
      (id limit offset : Bytes) (json : j.Json)
      → Keeps server Same (get_posts_list j content id limit offset json)
  unfolding get_posts_list or_500
  Keeps-get_posts_list id limit offset json = search list_rules depth 12

  Keeps-get_posts_list_by_id :
      (author id limit offset : Bytes) (json : j.Json)
      → Keeps server Same (get_posts_list_by_id j content author id limit offset json)
  unfolding get_posts_list_by_id or_500
  Keeps-get_posts_list_by_id author id limit offset json = search list_rules depth 12

  Keeps-get_post_photo_by_id :
      (photo_id : Bytes) → Keeps server Same (get_post_photo_by_id j content photo_id)
  unfolding get_post_photo_by_id or_500
  Keeps-get_post_photo_by_id photo_id = search list_rules depth 12

  ruleset get_rules =
      (list_rules, Keeps-get_posts_list, Keeps-get_posts_list_by_id, Keeps-get_post_photo_by_id)

  Keeps-on_get_id :
      (request : beast.Request) (address id : Bytes)
      → Keeps server Same (on_get_id beast (served j content beast now) request address id)
  unfolding on_get_id get_target posts_list posts_list_by_id post_photo
  Keeps-on_get_id request address id = search get_rules depth 14

module _ (j : JsonLib) (content : ContentServer) (beast : Beast)
    (now : Session content.server → ℕ) where
  open content use {server}

  -- A GET changes no table of the content server, whatever its target, its token and its answer are.
  pub on_get_id-tables :
      (request : beast.Request) (address id : Bytes) (s : Session server)
      → (on_get_id beast (served j content beast now) request address id s).1.tables ≡ s.tables
  on_get_id-tables request address id s =
      (Keeps-on_get_id j content beast now s.tables request address id).at s refl
