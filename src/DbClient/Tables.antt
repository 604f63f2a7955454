-- ===== src/DbClient/Tables.antt =====
-- The tables that content_server_src/DBclient/DBclient.cpp reads and writes, and its statements.
use photogram.Prelude.{
  ℕ, zero, suc, Bool, ◌&&◌, ◌||◌, Option, none, some, List, [], ◌∷◌, ◌++◌, ◌==◌, if◌then◌else◌, map,
  take, drop,
}
use photogram.Text.{Bytes}
use photogram.Rows.{any, select_where, delete_where}
use photogram.WorkWithPostgreSql.Tables.{User, Picture, Friend, is_user, is_picture, is_friend}

-- `negsuc n` is -(n + 1).
pub data ℤ : Type 0 where
  pos : ℕ → ℤ
  negsuc : ℕ → ℤ

abbrev pub plus_one : ℤ → ℤ
plus_one (pos n) = pos (suc n)
plus_one (negsuc zero) = pos 0
plus_one (negsuc (suc n)) = negsuc n

abbrev pub minus_one : ℤ → ℤ
minus_one (pos zero) = negsuc zero
minus_one (pos (suc n)) = pos n
minus_one (negsuc n) = negsuc (suc n)

-- A row of `posts`; `like_count` and `photo_id` may be NULL.
pub record Post : Type 0 where
  pub id : ℕ
  pub user_id : ℕ
  pub date_posted : ℕ
  pub like_count : Option ℤ
  pub description : Bytes
  pub photo_id : Option ℕ

pub record Like : Type 0 where
  pub post_id : ℕ
  pub user_id : ℕ

-- `users` and `friends` are tables of the auth server; a row of `post_photos` has the columns of a
-- row of its `profile_picture`.
pub record Db : Type 0 where
  pub posts : List Post
  pub likes : List Like
  pub photos : List Picture
  pub users : List User
  pub friends : List Friend

-- WHERE post_id = $1 AND user_id = $2
abbrev pub is_like : ℕ → ℕ → Like → Bool
is_like post user l = l.post_id == post && l.user_id == user

abbrev pub is_like_of : ℕ → Like → Bool
is_like_of post l = l.post_id == post

-- The statement `isExists`.
unfoldable pub exists_like : ℕ → ℕ → Db → Bool
exists_like post user db = any (is_like post user) db.likes

-- `addLikeFirst`
unfoldable pub insert_like : ℕ → ℕ → Db → Db
insert_like post user db = record db {
  likes = db.likes ++ record { post_id = post; user_id = user } ∷ [];
}

-- COALESCE(like_count, 0)
abbrev pub coalesce_zero : Option ℤ → ℤ
coalesce_zero none = pos 0
coalesce_zero (some n) = n

abbrev pub map_option : (ℤ → ℤ) → Option ℤ → Option ℤ
map_option f none = none
map_option f (some n) = some (f n)

abbrev pub set_count : ℕ → (Option ℤ → Option ℤ) → List Post → List Post
set_count post f [] = []
set_count post f (p ∷ ps) =
    (if p.id == post then record p { like_count = f p.like_count } else p) ∷ set_count post f ps

-- `addLikeSecond`
unfoldable pub increment_likes : ℕ → Db → Db
increment_likes post db = record db {
  posts = set_count post (λ n. some (plus_one (coalesce_zero n))) db.posts;
}

-- `delLikeFirst`
unfoldable pub delete_like : ℕ → ℕ → Db → Db
delete_like post user db = record db { likes = delete_where (is_like post user) db.likes }

-- `delLikeSecond`; NULL - 1 is NULL.
unfoldable pub decrement_likes : ℕ → Db → Db
decrement_likes post db = record db { posts = set_count post (map_option minus_one) db.posts }

abbrev pub is_post_of : ℕ → ℕ → Post → Bool
is_post_of post user p = p.id == post && p.user_id == user

abbrev pub is_post : ℕ → Post → Bool
is_post post p = p.id == post

-- `isExistPost`
unfoldable pub exists_post : ℕ → ℕ → Db → Bool
exists_post post user db = any (is_post_of post user) db.posts

-- `delFromLikes`
unfoldable pub delete_likes_of : ℕ → Db → Db
delete_likes_of post db = record db { likes = delete_where (is_like_of post) db.likes }

-- `delFromPosts`
unfoldable pub delete_post : ℕ → Db → Db
delete_post post db = record db { posts = delete_where (is_post post) db.posts }

-- `addNewPostPhoto`
unfoldable pub insert_photo : Bytes → Bytes → ℕ → Db → Db
insert_photo photo_type photo id db = record db {
  photos = db.photos ++ record { id = id; photo_type = photo_type; photo = photo } ∷ [];
}

-- The row of `addNewPostInformation`; the counter is the default of its column.
abbrev pub new_post : Option ℤ → ℕ → ℕ → Bytes → ℕ → ℕ → Post
new_post default_count user now description photo id = record {
  id = id;
  user_id = user;
  date_posted = now;
  like_count = default_count;
  description = description;
  photo_id = some photo;
}

-- `addNewPostInformation`
unfoldable pub insert_post : (ℕ → Post) → ℕ → Db → Db
insert_post row id db = record db { posts = db.posts ++ row id ∷ [] }

-- `getPostPhotoById`
unfoldable pub photo_by_id : ℕ → Db → List Picture
photo_by_id id db = select_where (is_picture id) db.photos

-- A row of `getPostsList` and `getPostsListById`.
pub record ListedPost : Type 0 where
  pub post : Post
  pub nickname : Bytes
  pub profile_picture_id : Option ℕ
  pub is_liked : Bool

abbrev pub listed : ℕ → Db → Post → User → ListedPost
listed user db p u = record {
  post = p;
  nickname = u.nickname;
  profile_picture_id = u.photo_id;
  is_liked = exists_like p.id user db;
}

-- posts po JOIN users u on u.id = po.user_id
abbrev pub join_users : ℕ → Db → List Post → List ListedPost
join_users user db [] = []
join_users user db (p ∷ ps) =
    map (listed user db p) (select_where (is_user p.user_id) db.users) ++ join_users user db ps

-- The WHERE clause of `getPostsList`.
abbrev pub is_shown_to : ℕ → Db → Post → Bool
is_shown_to user db p = any (is_friend user p.user_id) db.friends || p.user_id == user

-- The WHERE clause of `getPostsListById`.
abbrev pub is_by : ℕ → Post → Bool
is_by author p = p.user_id == author

-- ORDER BY, LIMIT and OFFSET of the posts that fit, as `user` sees them.
unfoldable pub posts_page :
    (ℕ → ℕ → List ListedPost → List ListedPost) → (Post → Bool) → ℕ → ℕ → ℕ → Db → List ListedPost
posts_page newest_first fits user limit offset db =
    take limit
      (drop offset (newest_first limit offset (join_users user db (select_where fits db.posts))))
