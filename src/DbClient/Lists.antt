-- ===== src/DbClient/Lists.antt =====
-- `getPostsList` and `getPostsListById` of content_server_src/DBclient/DBclient.cpp: how
-- the rows come into the JSON.
use photogram.Prelude.{String, ℕ, ◌≡◌, refl, ◌⊎◌, inl, inr, some, List, [], ◌∷◌, Option-cases}
use photogram.Outcome.{foreign, runtime_error, ok, throw}
use photogram.Text.{Bytes, codes}
use photogram.Json.{JsonLib}
use photogram.Action.{pure, lift, ◌>>=◌, try}
use photogram.Postgres.{Session, bind, exec_prepared, commit, roll_back}
use photogram.Postgres.Statements.{prepare_all-cases}
use photogram.DbClient.Tables.{ListedPost, is_shown_to, posts_page}
use photogram.DbClient.{ContentServer, or_500}
use photogram.DbClient.Reads.{push_rows, commit_rows, get_posts_list}

module _ (j : JsonLib) (content : ContentServer) where
  open j use {Json, push_back}
  open content use {server, read_count, newest_first}
  open server use {read_id}

  -- The rows of a list, as a reader with this id sees them.
  abbrev pub rows_for : ℕ → ℕ → ℕ → Session server → List ListedPost
  rows_for user limit offset s =
      posts_page newest_first (is_shown_to user s.tables) user limit offset s.tables

  commit_rows-cases :
      (json : Json) (rows : List ListedPost) (s : Session server)
      → ((t : String) × (commit_rows j content json rows s ≡ (throw (foreign t), s)))
        ⊎ (commit_rows j content json rows s ≡ (ok (push_rows j content json rows), s))
  unfolding commit pure lift ◌>>=◌
  commit_rows-cases json [] s = inr refl
  commit_rows-cases json (r ∷ rows) s = elim (Option-cases (server.commit_error s.tables)) [
    | inl c ↦ inr (rw c refl)
    | inr (t, c) ↦ inl (t, rw c refl)
  ]

  pub get_posts_list-cases :
      (id limit offset : Bytes) (json : Json) (s : Session server)
      → (get_posts_list j content id limit offset json s ≡ (throw (runtime_error "500"), s))
        ⊎ ((user : ℕ) × (l : ℕ) × (o : ℕ) × (read_id id ≡ some user)
            × (read_count limit ≡ some l)
            × (get_posts_list j content id limit offset json s
                ≡ (ok (push_rows j content json (rows_for user l o s)), s)))
  unfolding get_posts_list or_500 roll_back bind exec_prepared lift try ◌>>=◌
  get_posts_list-cases id limit offset json s =
      elim (prepare_all-cases server (codes "getPostsList" ∷ []) s) [
        | inr d ↦ inl (rw d refl)
        | inl d ↦ elim (Option-cases (read_id id)) [
          | inl e ↦ inl (rw (d, e) refl)
          | inr (user, u) ↦ elim (Option-cases (read_count limit)) [
            | inl e ↦ inl (rw (d, u, e) refl)
            | inr (l, e) ↦ elim (Option-cases (read_count offset)) [
              | inl e' ↦ inl (rw (d, u, e, e') refl)
              | inr (o, e') ↦ elim (commit_rows-cases json (rows_for user l o s) s) [
                | inl (t, c) ↦ inl (rw (d, u, e, e', c) refl)
                | inr c ↦ inr (user, l, o, u, e, rw (d, u, e, e', c) refl)
              ]
            ]
          ]
        ]
      ]
