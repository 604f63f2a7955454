-- ===== src/DbClient/Posts.antt =====
-- `delPostById` of content_server_src/DBclient/DBclient.cpp as a whole.
use photogram.Prelude.{
  String, ℕ, ◌≤◌, ◌≡◌, ◌≢◌, refl, sym, ap, ◌∙◌, ◌⊎◌, inl, inr, true, false, some, [], ◌∷◌, List,
  arith, ◌&&◌, if◌then◌else◌, Bool-cases, Option-cases, ◌==◌, All,
}
use photogram.Outcome.{runtime_error, ok, throw}
use photogram.Text.{Bytes}
use photogram.Action.{lift, ◌>>=◌, ◌>>◌, try}
use photogram.Rows.{any, delete_where, count_where}
use photogram.DbClient.Tables.{
  Db, Like, Post, is_like, is_like_of, is_post, is_post_of, exists_post, delete_likes_of,
  delete_post, coalesce_zero, pos,
}
use photogram.Postgres.{Server, Session, bind, exec_prepared0, exec_prepared1, roll_back, work}
use photogram.Postgres.Statements.{prepare_all-cases, work_writes-cases, IsServerText}
use photogram.DbClient.Likes.{IsCounted}
use photogram.DbClient.{
  ContentServer, deletion_statements, delete_own, bad_request_or_500, del_post_by_id,
}
use text.Mathlib.Text.{◌==◌ as str_eq}

-- The tables without a post and its likes.
abbrev pub without_post : ℕ → Db → Db
without_post post db = delete_post post (delete_likes_of post db)

any-delete_post :
    (post post' user' : ℕ) (ps : List Post)
    → any (is_post_of post' user') (delete_where (is_post post) ps)
      ≡ (if post == post' then false else any (is_post_of post' user') ps)
any-delete_post post post' user' [] = ground arith
any-delete_post post post' user' (p ∷ ps) = ground (arith, any-delete_post post post' user' ps)

count_where-delete_of :
    (post other : ℕ) (xs : List Like)
    → other ≢ post
    → count_where (is_like_of other) (delete_where (is_like_of post) xs)
      ≡ count_where (is_like_of other) xs
count_where-delete_of post other [] n = refl
count_where-delete_of post other (l ∷ xs) n = ground (arith, count_where-delete_of post other xs n)

count_where-delete_of_le :
    (post post' user' : ℕ) (xs : List Like)
    → count_where (is_like post' user') (delete_where (is_like_of post) xs)
      ≤ count_where (is_like post' user') xs
count_where-delete_of_le post post' user' [] = omega arith
count_where-delete_of_le post post' user' (l ∷ xs) =
    ground (arith, count_where-delete_of_le post post' user' xs)

counted-without :
    (post : ℕ) (likes : List Like) (ps : List Post)
    → All (λ p. coalesce_zero p.like_count ≡ pos (count_where (is_like_of p.id) likes)) ps
    → All
        (λ p.
          coalesce_zero p.like_count
          ≡ pos (count_where (is_like_of p.id) (delete_where (is_like_of post) likes)))
        (delete_where (is_post post) ps)
counted-without post likes [] h = tt
counted-without post likes (p ∷ ps) (h, hs) =
    let rest = counted-without post likes ps hs in
    elim (Bool-cases (p.id == post)) [
      | inl e ↦ rw e rest
      | inr e ↦
          let other : p.id ≢ post = ground arith in
          rw e (h ∙ ap pos (sym (count_where-delete_of post p.id likes other)), rest)
    ]

without_post-IsCounted : (post : ℕ) (db : Db) → IsCounted db → IsCounted (without_post post db)
unfolding delete_post delete_likes_of
without_post-IsCounted post db h = record {
  counted = counted-without post db.likes db.posts h.counted;
  once = λ post' user'.
      omega (arith, count_where-delete_of_le post post' user' db.likes, h.once post' user');
}

-- No text of an error of the database is "Bad request".
pub record HasOwnTexts {Db : Type 0} (server : Server Db) : Type 0 where
  pub bad_inputs : (t : Bytes) → str_eq (server.bad_input t) "Bad request" ≡ false
  pub texts : (t : String) → IsServerText server t → str_eq t "Bad request" ≡ false

module _ (content : ContentServer) where
  open content use {server}
  open server use {read_id}

  two_deletions :
      (f g : Db → Db) (s : Session server)
      → HasOwnTexts server
      → (try
            (work server (exec_prepared0 server f >> exec_prepared0 server g))
            (bad_request_or_500 content)
            s
          ≡ (throw (runtime_error "500"), s))
        ⊎ (try
              (work server (exec_prepared0 server f >> exec_prepared0 server g))
              (bad_request_or_500 content)
              s
            ≡ (ok tt, record s { tables = g (f s.tables) }))
  unfolding bad_request_or_500 lift try
  two_deletions f g s own = elim (work_writes-cases server f g s) [
    | inl (t, k, e) ↦ inl (rw (e, own.texts t k) refl)
    | inr e ↦ inr (rw e refl)
  ]

  -- Where no error of the database has the text "Bad request", `delPostById` throws "500" and changes
  -- nothing; or throws "400" and changes nothing, where the post is not one of the user's; or returns,
  -- where it is, and has deleted the post and its likes.
  pub del_post_by_id-atomic :
      (post_id user_id : Bytes) (s : Session server)
      → HasOwnTexts server
      → (del_post_by_id content post_id user_id s ≡ (throw (runtime_error "500"), s))
        ⊎ ((post : ℕ) × (user : ℕ) × (read_id post_id ≡ some post)
            × (read_id user_id ≡ some user)
            × (del_post_by_id content post_id user_id s ≡ (
                if any (λ p. p.id == post && p.user_id == user) s.tables.posts
                then (
                  ok tt,
                  record s {
                    tables = record s.tables {
                      posts = delete_where (λ p. p.id == post) s.tables.posts;
                      likes = delete_where (λ l. l.post_id == post) s.tables.likes;
                    };
                  },
                )
                else (throw (runtime_error "400"), s))))
  unfolding exists_post delete_post delete_likes_of del_post_by_id work roll_back bind
      exec_prepared1 delete_own lift try ◌>>=◌
  del_post_by_id-atomic post_id user_id s own =
      elim (prepare_all-cases server deletion_statements s) [
        | inr d ↦ inl (rw d (unfold bad_request_or_500 in refl))
        | inl d ↦ elim (Option-cases (read_id post_id)) [
          | inl e ↦ inl (rw (d, e) (unfold bad_request_or_500 in rw (own.bad_inputs post_id) refl))
          | inr (post, p) ↦ elim (Option-cases (read_id user_id)) [
            | inl e ↦
                inl (rw (d, p, e) (unfold bad_request_or_500 in rw (own.bad_inputs user_id) refl))
            | inr (user, u) ↦ elim (Bool-cases (exists_post post user s.tables)) [
              | inl e ↦
                  rw (d, p, u, e)
                    (elim (two_deletions (delete_likes_of post) (delete_post post) s own) [
                      | inl q ↦ inl q
                      | inr q ↦ inr (post, user, refl, refl, rw e q)
                    ])
              | inr e ↦ inr (post, user, p, u, rw (d, p, u, e) (unfold bad_request_or_500 in refl))
            ]
          ]
        ]
      ]

  -- Where no error of the database has the text "Bad request" and the texts read as ids, a deletion
  -- that succeeds was asked for by the author of the post; the post is gone behind it, and every other
  -- post is there exactly if it was.
  pub del_post_by_id-exists_post :
      (post_id user_id : Bytes) (s : Session server) (post user post' user' : ℕ)
      → HasOwnTexts server
      → read_id post_id ≡ some post
      → read_id user_id ≡ some user
      → (del_post_by_id content post_id user_id s).0 ≡ ok tt
      → (exists_post post user s.tables ≡ true)
        × (exists_post post' user' (del_post_by_id content post_id user_id s).1.tables
            ≡ (if post == post' then false else exists_post post' user' s.tables))
  unfolding exists_post delete_post delete_likes_of
  del_post_by_id-exists_post post_id user_id s post user post' user' own p u done =
      elim (del_post_by_id-atomic post_id user_id s own) [
        | inl q ↦ cc (rw q at done)
        | inr (a, b, p', u', q) ↦
            let same_post : a ≡ post = cc (p, p') in
            let same_user : b ≡ user = cc (u, u') in
            let q' = rw (same_post, same_user) at q in
            elim (Bool-cases (exists_post post user s.tables)) [
              | inl e ↦ (e, rw (q', e) (any-delete_post post post' user' s.tables.posts))
              | inr e ↦ cc (rw (q', e) at done)
            ]
      ]

  -- A deletion, whether it succeeds or not, leaves tables in which every counter is the number of likes
  -- of its post and nobody likes a post twice, where this was so before it and no error of the database
  -- has the text "Bad request".
  pub del_post_by_id-IsCounted :
      (post_id user_id : Bytes) (s : Session server)
      → HasOwnTexts server
      → IsCounted s.tables
      → IsCounted (del_post_by_id content post_id user_id s).1.tables
  unfolding exists_post delete_post delete_likes_of
  del_post_by_id-IsCounted post_id user_id s own h =
      elim (del_post_by_id-atomic post_id user_id s own) [
        | inl q ↦ rw q h
        | inr (post, user, p, u, q) ↦ elim (Bool-cases (exists_post post user s.tables)) [
          | inl e ↦ rw (q, e) (without_post-IsCounted post s.tables h)
          | inr e ↦ rw (q, e) h
        ]
      ]
