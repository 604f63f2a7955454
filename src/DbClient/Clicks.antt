-- ===== src/DbClient/Clicks.antt =====
-- `likeClicked` of content_server_src/DBclient/DBclient.cpp as a whole.
use photogram.Prelude.{
  ℕ, ◌≡◌, refl, ◌⊎◌, inl, inr, false, not, some, [], ◌∷◌, List, arith, if◌then◌else◌, Bool-cases,
  Option-cases, ◌==◌, ◌&&◌,
}
use photogram.Outcome.{runtime_error, ok, throw}
use photogram.Text.{Bytes}
use photogram.Action.{lift, ◌>>=◌, ◌>>◌, try}
use photogram.Rows.{any, delete_where, any-append, any-delete_self}
use photogram.DbClient.Tables.{
  Db, Like, is_like, exists_like, insert_like, increment_likes, delete_like, decrement_likes,
}
use photogram.DbClient.Likes.{IsCounted, IsCounted-insert, IsCounted-delete}
use photogram.Postgres.{Session, bind, exec_prepared0, exec_prepared1, roll_back, work}
use photogram.Postgres.Statements.{prepare_all-cases, work_writes-cases}
use photogram.DbClient.{ContentServer, like_statements, or_500, toggle_like, like_clicked}

-- The tables with the like of one user turned around, and the counter of the post with it.
abbrev pub toggled : ℕ → ℕ → Db → Db
toggled post user db =
    if exists_like post user db
    then decrement_likes post (delete_like post user db)
    else increment_likes post (insert_like post user db)

toggled-IsCounted : (post user : ℕ) (db : Db) → IsCounted db → IsCounted (toggled post user db)
toggled-IsCounted post user db h = elim (Bool-cases (exists_like post user db)) [
  | inl e ↦ rw e (IsCounted-delete post user db e h)
  | inr e ↦ rw e (IsCounted-insert post user db e h)
]

any-delete_other :
    (post user post' user' : ℕ) (xs : List Like)
    → ((post == post') && (user == user')) ≡ false
    → any (is_like post' user') (delete_where (is_like post user) xs) ≡ any (is_like post' user') xs
any-delete_other post user post' user' [] n = refl
any-delete_other post user post' user' (l ∷ xs) n =
    ground (arith, any-delete_other post user post' user' xs n)

toggled-exists_like :
    (post user post' user' : ℕ) (db : Db)
    → exists_like post' user' (toggled post user db) ≡ (
        if (post == post') && (user == user')
        then not (exists_like post' user' db)
        else exists_like post' user' db)
unfolding exists_like increment_likes insert_like decrement_likes delete_like
toggled-exists_like post user post' user' db =
    elim (Bool-cases ((post == post') && (user == user'))) [
      | inl same ↦
          let p : post ≡ post' = ground arith in
          let u : user ≡ user' = ground arith in
          rw (same, ← p, ← u)
            (elim (Bool-cases (any (is_like post user) db.likes)) [
              | inl e ↦ rw e (any-delete_self (is_like post user) db.likes)
              | inr e ↦ rw (e, any-append, e) (ground arith)
            ])
      | inr other ↦ rw other (elim (Bool-cases (any (is_like post user) db.likes)) [
        | inl e ↦ rw e (any-delete_other post user post' user' db.likes other)
        | inr e ↦ rw (e, any-append, other) (ground arith)
      ])
    ]

module _ (content : ContentServer) where
  open content use {server}
  open server use {read_id}

  two_statements :
      (f g : Db → Db) (s : Session server)
      → (or_500 content (work server (exec_prepared0 server f >> exec_prepared0 server g)) s
          ≡ (throw (runtime_error "500"), s))
        ⊎ (or_500 content (work server (exec_prepared0 server f >> exec_prepared0 server g)) s
            ≡ (ok tt, record s { tables = g (f s.tables) }))
  unfolding or_500 lift try
  two_statements f g s = elim (work_writes-cases server f g s) [
    | inl (t, k, e) ↦ inl (rw e refl)
    | inr e ↦ inr (rw e refl)
  ]

  -- `likeClicked` either throws "500" and leaves the tables as they were, or returns, its texts read as
  -- a post and a user, and has turned that user's like of that post around.
  pub like_clicked-atomic :
      (post_id user_id : Bytes) (s : Session server)
      → (like_clicked content post_id user_id s ≡ (throw (runtime_error "500"), s))
        ⊎ ((post : ℕ) × (user : ℕ) × (read_id post_id ≡ some post)
            × (read_id user_id ≡ some user)
            × (like_clicked content post_id user_id s
                ≡ (ok tt, record s { tables = toggled post user s.tables })))
  unfolding like_clicked or_500 work roll_back bind exec_prepared1 toggle_like lift try ◌>>=◌
  like_clicked-atomic post_id user_id s = elim (prepare_all-cases server like_statements s) [
    | inr d ↦ inl (rw d refl)
    | inl d ↦ elim (Option-cases (read_id post_id)) [
      | inl e ↦ inl (rw (d, e) refl)
      | inr (post, p) ↦ elim (Option-cases (read_id user_id)) [
        | inl e ↦ inl (rw (d, p, e) refl)
        | inr (user, u) ↦ elim (Bool-cases (exists_like post user s.tables)) [
          | inl e ↦
              rw (d, p, u, e)
                (elim (two_statements (delete_like post user) (decrement_likes post) s) [
                  | inl q ↦ inl q
                  | inr q ↦ inr (post, user, refl, refl, rw e q)
                ])
          | inr e ↦
              rw (d, p, u, e)
                (elim (two_statements (insert_like post user) (increment_likes post) s) [
                  | inl q ↦ inl q
                  | inr q ↦ inr (post, user, refl, refl, rw e q)
                ])
        ]
      ]
    ]
  ]

  -- Where every counter is the number of likes of its post, and nobody likes a post twice, this is so
  -- behind a click, whether it succeeds or not.
  pub like_clicked-IsCounted :
      (post_id user_id : Bytes) (s : Session server)
      → IsCounted s.tables
      → IsCounted (like_clicked content post_id user_id s).1.tables
  like_clicked-IsCounted post_id user_id s h = elim (like_clicked-atomic post_id user_id s) [
    | inl q ↦ rw q h
    | inr (post, user, p, u, q) ↦ rw q (toggled-IsCounted post user s.tables h)
  ]

  -- Where the texts read as ids, a click that succeeds turns around whether its user likes its post, and of
  -- no other pair of a post and a user.
  like_clicked-exists_like :
      (post_id user_id : Bytes) (s : Session server) (post user post' user' : ℕ)
      → read_id post_id ≡ some post
      → read_id user_id ≡ some user
      → (like_clicked content post_id user_id s).0 ≡ ok tt
      → exists_like post' user' (like_clicked content post_id user_id s).1.tables ≡ (
          if (post == post') && (user == user')
          then not (exists_like post' user' s.tables)
          else exists_like post' user' s.tables)
  like_clicked-exists_like post_id user_id s post user post' user' p u done =
      elim (like_clicked-atomic post_id user_id s) [
        | inl q ↦ cc (rw q at done)
        | inr (a, b, p', u', q) ↦
            let same_post : a ≡ post = cc (p, p') in
            let same_user : b ≡ user = cc (u, u') in
            rw (q, same_post, same_user) (toggled-exists_like post user post' user' s.tables)
      ]
