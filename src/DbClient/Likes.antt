-- ===== src/DbClient/Likes.antt =====
-- Likes and the counters of the posts, under the statements of a click.
use photogram.Prelude.{
  ℕ, suc, ◌+◌, ◌≤◌, ◌≡◌, ◌≢◌, refl, sym, ap, ◌∙◌, inl, inr, Bool, true, false, Option, none, some,
  List, [], ◌∷◌, ◌++◌, arith, All, ◌==◌, Bool-cases,
}
use photogram.Rows.{count_where-append, any, any-count_where, delete_where, count_where}
use photogram.DbClient.Tables.{
  ℤ, pos, plus_one, minus_one, Post, Like, Db, is_like, is_like_of, exists_like, insert_like,
  coalesce_zero, map_option, set_count, increment_likes, delete_like, decrement_likes,
}

-- Every counter is the number of likes of its post, and nobody likes a post twice.
pub record IsCounted (db : Db) : Type 0 where
  pub counted :
      All (λ p. coalesce_zero p.like_count ≡ pos (count_where (is_like_of p.id) db.likes)) db.posts
  pub once : (post user : ℕ) → count_where (is_like post user) db.likes ≤ 1

count_where-any : {A : Type 0} (p : A → Bool) (xs : List A) → any p xs ≡ true → 1 ≤ count_where p xs
count_where-any p [] h = cc
count_where-any p (x ∷ xs) h = ground (arith, count_where-any p xs)

-- What a deletion leaves of the rows that fit another test, where the deleted ones all fit it.
count_where-delete :
    (post user : ℕ) (xs : List Like)
    → count_where (is_like_of post) (delete_where (is_like post user) xs)
        + count_where (is_like post user) xs
      ≡ count_where (is_like_of post) xs
count_where-delete post user [] = refl
count_where-delete post user (l ∷ xs) = ground (arith, count_where-delete post user xs)

count_where-delete_other :
    (post user other : ℕ) (xs : List Like)
    → other ≢ post
    → count_where (is_like_of other) (delete_where (is_like post user) xs)
      ≡ count_where (is_like_of other) xs
count_where-delete_other post user other [] n = refl
count_where-delete_other post user other (l ∷ xs) n =
    ground (arith, count_where-delete_other post user other xs n)

count_where-delete_le :
    (post user post' user' : ℕ) (xs : List Like)
    → count_where (is_like post' user') (delete_where (is_like post user) xs)
      ≤ count_where (is_like post' user') xs
count_where-delete_le post user post' user' [] = omega arith
count_where-delete_le post user post' user' (l ∷ xs) =
    ground (arith, count_where-delete_le post user post' user' xs)

abbrev Counted : List Like → Post → Type 0
Counted likes p = coalesce_zero p.like_count ≡ pos (count_where (is_like_of p.id) likes)

Counted-insert :
    (post user : ℕ) (likes : List Like) (ps : List Post)
    → All (Counted likes) ps
    → All
        (Counted (likes ++ record { post_id = post; user_id = user } ∷ []))
        (set_count post (λ n. some (plus_one (coalesce_zero n))) ps)
Counted-insert post user likes [] h = tt
Counted-insert post user likes (p ∷ ps) (h, hs) =
    let rest = Counted-insert post user likes ps hs in
    let more =
      count_where-append (is_like_of p.id) likes (record { post_id = post; user_id = user }) in
    elim (Bool-cases (p.id == post)) [
      | inl e ↦
          let back : (post == p.id) ≡ true = ground arith in rw e (rw (more, back, h) refl, rest)
      | inr e ↦ let back : (post == p.id) ≡ false = ground arith in rw e (rw (more, back) h, rest)
    ]

pub IsCounted-insert :
    (post user : ℕ) (db : Db)
    → exists_like post user db ≡ false
    → IsCounted db
    → IsCounted (increment_likes post (insert_like post user db))
unfolding exists_like increment_likes insert_like
IsCounted-insert post user db absent h = record {
  counted = Counted-insert post user db.likes db.posts h.counted;
  once = λ post' user'.
      let more =
        count_where-append (is_like post' user') db.likes
          (record { post_id = post; user_id = user }) in
      let none = any-count_where (is_like post user) db.likes absent in
      rw more (elim (Bool-cases (is_like post' user' (record { post_id = post; user_id = user }))) [
        | inl e ↦
            let p : post ≡ post' = ground arith in
            let u : user ≡ user' = ground arith in rw (e, ← p, ← u, none) (omega arith)
        | inr e ↦ rw e (h.once post' user')
      ]);
}

minus-suc :
    (c : Option ℤ) (n : ℕ)
    → coalesce_zero c ≡ pos (suc n)
    → coalesce_zero (map_option minus_one c) ≡ pos n
minus-suc none n h = ground arith
minus-suc (some z) n h = rw h refl

Counted-delete :
    (post user : ℕ) (likes : List Like) (ps : List Post)
    → count_where (is_like post user) likes ≡ 1
    → All (Counted likes) ps
    → All
        (Counted (delete_where (is_like post user) likes))
        (set_count post (map_option minus_one) ps)
Counted-delete post user likes [] one h = tt
Counted-delete post user likes (p ∷ ps) one (h, hs) =
    let rest = Counted-delete post user likes ps one hs in
    elim (Bool-cases (p.id == post)) [
      | inl e ↦
          let same : p.id ≡ post = ground arith in
          let fewer = count_where-delete post user likes in
          let left : count_where (is_like_of post) likes
              ≡ suc (count_where (is_like_of post) (delete_where (is_like post user) likes)) =
            omega (arith, fewer, one) in
          rw e (
            rw same (
                minus-suc p.like_count _
                  (h ∙ ap (λ i. pos (count_where (is_like_of i) likes)) same ∙ ap pos left)),
            rest,
          )
      | inr e ↦
          let other : p.id ≢ post = ground arith in
          rw e (h ∙ ap pos (sym (count_where-delete_other post user p.id likes other)), rest)
    ]

pub IsCounted-delete :
    (post user : ℕ) (db : Db)
    → exists_like post user db ≡ true
    → IsCounted db
    → IsCounted (decrement_likes post (delete_like post user db))
unfolding exists_like decrement_likes delete_like
IsCounted-delete post user db there h =
    let some' = count_where-any (is_like post user) db.likes there in
    let one : count_where (is_like post user) db.likes ≡ 1 =
      omega (arith, some', h.once post user) in
    record {
      counted = Counted-delete post user db.likes db.posts one h.counted;
      once = λ post' user'.
          omega (arith, count_where-delete_le post user post' user' db.likes, h.once post' user');
    }
