-- ===== src/DbClient/Kept.antt =====
-- The counters of the posts and the keys of the tables, under every call of
-- content_server_src/DBclient/DBclient.cpp that writes.
use photogram.Prelude.{
  ℕ, ◌≤◌, ◌≡◌, ◌∙◌, refl, sym, ap, inl, inr, Bool, true, false, none, List, [], ◌∷◌, ◌++◌, arith,
  All, Bool-cases, ◌==◌,
}
use photogram.Text.{Bytes, codes}
use photogram.Text.StdMap.{StdMap, get_text}
use photogram.Rows.{any, count_where, count_where-append, count_where-any-false}
use photogram.Postgres.Keeps.{Keeps, IsGiven, read_rules, write_rules}
use photogram.DbClient.Tables.{
  Post, Like, Db, is_post, is_like_of, coalesce_zero, pos, insert_photo, new_post, insert_post,
}
use photogram.DbClient.{
  ContentServer, or_500, toggle_like, like_clicked, delete_own, bad_request_or_500, del_post_by_id,
  add_new_post,
}
use photogram.DbClient.Likes.{IsCounted}
use photogram.DbClient.Clicks.{like_clicked-IsCounted}
use photogram.DbClient.Posts.{HasOwnTexts, del_post_by_id-IsCounted}
use photogram.DbClient.Photos.{posted, add_new_post-atomic}

-- Every like is of a post that is there, and an id is the id of one post.
pub record HasKeys (db : Db) : Type 0 where
  pub known : All (λ l. any (is_post l.post_id) db.posts ≡ true) db.likes
  pub single : (id : ℕ) → count_where (is_post id) db.posts ≤ 1

-- The constraints of the schema: the keys, and a counter that begins at 0 or NULL.
pub record HasSchema (content : ContentServer) : Type 0 where
  pub keys : (db : Db) → content.server.violation db ≡ none → HasKeys db
  pub default_zero : coalesce_zero content.default_count ≡ pos 0

-- What the tables keep.
pub record IsSound (db : Db) : Type 0 where
  pub counted : IsCounted db
  pub keyed : HasKeys db

-- A post that is not there has no likes.
no_likes :
    (id : ℕ) (posts : List Post) (likes : List Like)
    → any (is_post id) posts ≡ false
    → All (λ l. any (is_post l.post_id) posts ≡ true) likes
    → count_where (is_like_of id) likes ≡ 0
no_likes id posts [] fresh h = refl
no_likes id posts (l ∷ likes) fresh (h, hs) = elim (Bool-cases (l.post_id == id)) [
  | inl e ↦ let same : l.post_id ≡ id = ground arith in cc (rw same at h, fresh)
  | inr e ↦ rw e (no_likes id posts likes fresh hs)
]

All-append_one :
    {A : Type 0} (P : A → Type 0) (xs : List A) (x : A) → All P xs → P x → All P (xs ++ x ∷ [])
All-append_one P [] x h p = (p, tt)
All-append_one P (y ∷ xs) x (q, h) p = (q, All-append_one P xs x h p)

module _ (content : ContentServer) (schema : HasSchema content)
    (own : HasOwnTexts content.server) where
  open content use {server}

  HasKeys-IsGiven : IsGiven server HasKeys
  HasKeys-IsGiven = record { given = schema.keys }

  Keeps-toggle_like :
      (b : Bool) (post user : ℕ) → Keeps server HasKeys (toggle_like content b post user)
  unfolding toggle_like
  Keeps-toggle_like true post user = search (write_rules, HasKeys-IsGiven) depth 12
  Keeps-toggle_like false post user = search (write_rules, HasKeys-IsGiven) depth 12

  Keeps-delete_own : (b : Bool) (post : ℕ) → Keeps server HasKeys (delete_own content b post)
  unfolding delete_own
  Keeps-delete_own true post = search (write_rules, HasKeys-IsGiven) depth 12
  Keeps-delete_own false post = search write_rules depth 12

  Keeps-like_clicked :
      (post_id user_id : Bytes) → Keeps server HasKeys (like_clicked content post_id user_id)
  unfolding like_clicked or_500
  Keeps-like_clicked post_id user_id = search (read_rules, Keeps-toggle_like) depth 16

  Keeps-del_post_by_id :
      (post_id user_id : Bytes) → Keeps server HasKeys (del_post_by_id content post_id user_id)
  unfolding del_post_by_id bad_request_or_500
  Keeps-del_post_by_id post_id user_id = search (read_rules, Keeps-delete_own) depth 16

  pub like_clicked-IsSound :
      (post_id user_id : Bytes) → Keeps server IsSound (like_clicked content post_id user_id)
  like_clicked-IsSound post_id user_id = record {
    at = λ s h. record {
      counted = like_clicked-IsCounted content post_id user_id s h.counted;
      keyed = (Keeps-like_clicked post_id user_id).at s h.keyed;
    };
  }

  pub del_post_by_id-IsSound :
      (post_id user_id : Bytes) → Keeps server IsSound (del_post_by_id content post_id user_id)
  del_post_by_id-IsSound post_id user_id = record {
    at = λ s h. record {
      counted = del_post_by_id-IsCounted content post_id user_id s own h.counted;
      keyed = (Keeps-del_post_by_id post_id user_id).at s h.keyed;
    };
  }

  posted-IsSound :
      (now user photo photo_ref post : ℕ) (property_map : StdMap Bytes) (db : Db)
      → HasKeys (posted content now user photo photo_ref post property_map db)
      → IsSound db
      → IsSound (posted content now user photo photo_ref post property_map db)
  unfolding insert_post insert_photo
  posted-IsSound now user photo photo_ref post property_map db keys h =
      let row =
        new_post content.default_count user now (get_text (codes "description") property_map)
          photo_ref post in
      let self : is_post post row ≡ true = ground arith in
      let absent : count_where (is_post post) db.posts ≡ 0 =
        omega
          (arith, rw self at (count_where-append (is_post post) db.posts row), keys.single post) in
      let unliked =
        no_likes post db.posts db.likes (count_where-any-false (is_post post) db.posts absent)
          h.keyed.known in
      record {
        counted = record {
          counted =
              All-append_one
                (λ p. coalesce_zero p.like_count ≡ pos (count_where (is_like_of p.id) db.likes))
                db.posts row h.counted.counted (schema.default_zero ∙ ap pos (sym unliked));
          once = h.counted.once;
        };
        keyed = keys;
      }

  pub add_new_post-IsSound :
      (now : ℕ) (user_id : Bytes) (property_map : StdMap Bytes)
      → Keeps server IsSound (add_new_post content now user_id property_map)
  add_new_post-IsSound now user_id property_map = record {
    at = λ s h. elim (add_new_post-atomic content now user_id property_map s) [
      | inl (s', e, d) ↦ rw (e, d) h
      | inr (user, photo_ref, u, p, w, e) ↦
          rw e (posted-IsSound now user _ photo_ref _ property_map s.tables (schema.keys _ w) h)
    ];
  }
