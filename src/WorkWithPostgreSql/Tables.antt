-- ===== src/WorkWithPostgreSql/Tables.antt =====
-- The tables of the auth server, and the statements that the constructor of `WorkWithPostgreSQL`
-- (auth_server_src/WorkWithPostgreSQL.cpp) prepares.
use photogram.Prelude.{
  ℕ, Bool, false, not, ◌&&◌, Option, none, some, List, [], ◌∷◌, ◌++◌, ◌==◌, take, drop, map,
}
use photogram.Text.{Bytes, text_eq}
use photogram.Rows.{any, select_where, delete_where, update_where}

-- A row of `users`.
pub record User : Type 0 where
  pub id : ℕ
  pub nickname : Bytes
  pub first_name : Bytes
  pub last_name : Bytes
  pub email : Bytes
  pub is_male : Bool
  pub birthdate : Bytes
  pub password : Bytes
  pub photo_id : Option ℕ

-- A row of `profile_picture`.
pub record Picture : Type 0 where
  pub id : ℕ
  pub photo_type : Bytes
  pub photo : Bytes

pub record Friend : Type 0 where
  pub user_id : ℕ
  pub friend_id : ℕ

pub record Db : Type 0 where
  pub users : List User
  pub pictures : List Picture
  pub friends : List Friend

-- WHERE id = $1
abbrev pub is_user : ℕ → User → Bool
is_user id u = u.id == id

abbrev pub is_picture : ℕ → Picture → Bool
is_picture id p = p.id == id

-- WHERE nickname = $1
abbrev pub has_nickname : Bytes → User → Bool
has_nickname nickname u = text_eq u.nickname nickname

-- WHERE user_id = $1 AND friend_id = $2
abbrev pub is_friend : ℕ → ℕ → Friend → Bool
is_friend user friend f = f.user_id == user && f.friend_id == friend

-- addPhoto
unfoldable pub add_photo : Bytes → Bytes → ℕ → Db → Db
add_photo photo_type photo id db = record db {
  pictures = db.pictures ++ record { id = id; photo_type = photo_type; photo = photo } ∷ [];
}

-- The values of addNewUser and of updateProfileDate.
pub record Profile : Type 0 where
  pub nickname : Bytes
  pub first_name : Bytes
  pub last_name : Bytes
  pub email : Bytes
  pub is_male : Bool
  pub birthdate : Bytes

abbrev pub new_user : Profile → Bytes → ℕ → User
new_user p password id = record {
  id = id;
  nickname = p.nickname;
  first_name = p.first_name;
  last_name = p.last_name;
  email = p.email;
  is_male = p.is_male;
  birthdate = p.birthdate;
  password = password;
  photo_id = none;
}

-- addNewUser
unfoldable pub insert_user : Profile → Bytes → ℕ → Db → Db
insert_user p password id db = record db { users = db.users ++ new_user p password id ∷ [] }

-- getHashPassword, with the comparison of the database of UPPER(email)
unfoldable pub by_email : (Bytes → Bytes → Bool) → Bytes → Db → List User
by_email same_email login db = select_where (λ u. same_email u.email login) db.users

-- getNickname
unfoldable pub by_id : ℕ → Db → List User
by_id id db = select_where (is_user id) db.users

-- getProfileInformation and getProfilePhotoId
unfoldable pub by_nickname : Bytes → Db → List User
by_nickname nickname db = select_where (has_nickname nickname) db.users

-- getProfilePhoto
unfoldable pub picture_by_id : ℕ → Db → List Picture
picture_by_id id db = select_where (is_picture id) db.pictures

-- connectPropertiesAndPhoto
unfoldable pub set_photo : ℕ → ℕ → Db → Db
set_photo photo id db = record db {
  users = update_where (is_user id) (λ u. record u { photo_id = some photo }) db.users;
}

-- deleteRow
unfoldable pub delete_user : ℕ → Db → Db
delete_user id db = record db { users = delete_where (is_user id) db.users }

-- getStatus
unfoldable pub exists_friend : ℕ → ℕ → Db → Bool
exists_friend user friend db = any (is_friend user friend) db.friends

-- deletePhoto
unfoldable pub delete_picture : ℕ → Db → Db
delete_picture id db = record db { pictures = delete_where (is_picture id) db.pictures }

-- A row of getUsersList, with its is_friend.
pub record Listed : Type 0 where
  pub user : User
  pub friend : Bool

-- getUsersList; the order, which the statement leaves open, is that of the rows.
unfoldable pub users_list : (Bytes → Bytes → Bool) → ℕ → Bytes → ℕ → ℕ → Db → List Listed
unfolding exists_friend
users_list name_like id substr limit offset db =
    map (λ u. record { user = u; friend = exists_friend id u.id db })
      (take limit (
        drop offset (select_where (λ u. name_like u.nickname substr && not (u.id == id)) db.users)))

-- makeFriend
unfoldable pub insert_friend : ℕ → ℕ → Db → Db
insert_friend user friend db = record db {
  friends = db.friends ++ record { user_id = user; friend_id = friend } ∷ [];
}

-- deleteFriend
unfoldable pub remove_friend : ℕ → ℕ → Db → Db
remove_friend user friend db = record db {
  friends = delete_where (is_friend user friend) db.friends;
}

-- The photo of the user, and no photo where there is no user.
abbrev pub photo_of : List User → Option ℕ
photo_of [] = none
photo_of (u ∷ us) = u.photo_id

abbrev pub is_photo : Option ℕ → Picture → Bool
is_photo none p = false
is_photo (some id) p = p.id == id

-- updateProfilePhoto
unfoldable pub update_picture : Bytes → Bytes → ℕ → Db → Db
unfolding by_id
update_picture photo_type photo id db = record db {
  pictures =
      update_where (is_photo (photo_of (by_id id db)))
        (λ p. record p { photo_type = photo_type; photo = photo }) db.pictures;
}

abbrev pub set_profile : Profile → User → User
set_profile p u = record u {
  nickname = p.nickname;
  first_name = p.first_name;
  last_name = p.last_name;
  email = p.email;
  is_male = p.is_male;
  birthdate = p.birthdate;
}

-- updateProfileDate
unfoldable pub update_user : Profile → ℕ → Db → Db
update_user p id db = record db { users = update_where (is_user id) (set_profile p) db.users }

-- updatePassword
unfoldable pub set_password : Bytes → ℕ → Db → Db
set_password password id db = record db {
  users = update_where (is_user id) (λ u. record u { password = password }) db.users;
}
