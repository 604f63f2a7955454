-- ===== src/DbClient/Shown.antt =====
-- The rows of a list of posts (content_server_src/DBclient/DBclient.cpp): whose posts they are.
use photogram.Prelude.{
  ℕ, ◌≡◌, refl, ◌∙◌, inl, inr, Bool, true, false, not, ◌||◌, List, [], ◌∷◌, drop, map, Bool-cases,
  if◌then◌else◌,
}
use photogram.Rows.{
  any, select_where, count_where, any-take, any-drop, any-append_false, any-count_where,
  count_where-any-false,
}
use photogram.WorkWithPostgreSql.Tables.{User, is_user}
use photogram.DbClient.Tables.{Post, Db, ListedPost, listed, join_users, posts_page, exists_like}

-- An order changes how often no row is there; rows of the same time may stand otherwise for another
-- page.
pub record IsOrder (newest_first : ℕ → ℕ → List ListedPost → List ListedPost) : Type 0 where
  pub keeps :
      (limit offset : ℕ) (p : ListedPost → Bool) (rows : List ListedPost)
      → count_where p (newest_first limit offset rows) ≡ count_where p rows

-- Whether a row shows what its reader may not see, or a wrong mark for the reader's like.
abbrev pub is_wrong : (Post → Bool) → ℕ → Db → ListedPost → Bool
is_wrong fits user db r =
    not (fits r.post)
    || (if r.is_liked then not (exists_like r.post.id user db) else exists_like r.post.id user db)

-- A row of the list that is wrong: there is none.
join_users-right :
    (fits : Post → Bool) (user : ℕ) (db : Db) (ps : List Post)
    → any (is_wrong fits user db) (join_users user db (select_where fits ps)) ≡ false
join_users-right fits user db [] = refl
join_users-right fits user db (p ∷ ps) = elim (Bool-cases (fits p)) [
  | inr e ↦ rw e (join_users-right fits user db ps)
  | inl e ↦ rw e (
      any-append_false (is_wrong fits user db)
        (map (listed user db p) (select_where (is_user p.user_id) db.users))
        (join_users user db (select_where fits ps))
        (listed-right (select_where (is_user p.user_id) db.users) e)
        (join_users-right fits user db ps))
]
  where
    listed-right :
        (us : List User)
        → fits p ≡ true
        → any (is_wrong fits user db) (map (listed user db p) us) ≡ false
    listed-right [] e = refl
    listed-right (u ∷ us) e = elim (Bool-cases (exists_like p.id user db)) [
      | inl d ↦ rw (e, d) (listed-right us e)
      | inr d ↦ rw (e, d) (listed-right us e)
    ]

pub posts_page-right :
    (newest_first : ℕ → ℕ → List ListedPost → List ListedPost) (fits : Post → Bool)
    (user limit offset : ℕ) (db : Db)
    → IsOrder newest_first
    → any (is_wrong fits user db) (posts_page newest_first fits user limit offset db) ≡ false
unfolding posts_page
posts_page-right newest_first fits user limit offset db order =
    let rows = join_users user db (select_where fits db.posts) in
    let wrong = is_wrong fits user db in
    any-take wrong limit (drop offset (newest_first limit offset rows)) (
      any-drop wrong offset (newest_first limit offset rows) (
        count_where-any-false wrong (newest_first limit offset rows) (
          order.keeps limit offset wrong rows
          ∙ any-count_where wrong rows (join_users-right fits user db db.posts))))
