-- ===== src/WorkWithPostgreSql.antt =====
-- The class `WorkWithPostgreSQL` of auth_server_src/WorkWithPostgreSQL.cpp: the users of the auth
-- server, their photos and their friends.
pub mod Tables
pub mod Queries
pub mod Updates
pub mod Api
pub mod Kept
pub mod Calls
pub mod Registration
pub mod Registered
pub mod Login
pub mod Passwords
pub mod Photos
pub mod Friends
pub mod Profiles
pub mod AllOrNothing
use photogram.Prelude.{
  ℕ, String, Bool, true, false, not, Option, none, some, List, [], ◌∷◌, ◌++◌, foldl, ◌==◌,
  if◌then◌else◌,
}
use photogram.Outcome.{Exception, what, foreign, runtime_error, Outcome, ok, throw}
use photogram.Text.{Bytes, codes, npos, find}
use photogram.Text.StdMap.{StdMap, get_text}
use photogram.Json.{JsonLib}
use photogram.HttpDef.{PostTInfo}
use photogram.HashTools.{Sodium, hash_tools, verify}
use photogram.Action.{Action, pure, lift, ◌>>=◌, ◌>>◌, try}
use photogram.Postgres.{
  Server, Session, DbAction, prepare_all, bind, exec_prepared0, exec_insert, exec_prepared,
  exec_prepared1, commit, roll_back, work,
}
use photogram.WorkWithPostgreSql.Tables.{
  User, Picture, Db, Profile, add_photo, insert_user, by_email, by_id, by_nickname, picture_by_id,
  set_photo, delete_user, delete_picture, Listed, users_list, insert_friend, remove_friend,
  exists_friend, update_picture, update_user, set_password,
}

-- The database of the auth server, and how it reads and compares texts.
pub record AuthServer : Type 1 where
  pub server : Server Db
  -- whether the connection is made, and is open
  pub connects : Bool
  pub is_open : Bool
  pub read_bool : Bytes → Option Bool
  pub read_date : Bytes → Option Bytes
  pub read_count : Bytes → Option ℕ
  -- a text that is searched for, as the database takes it: one that is not in its encoding is an error,
  -- and one with a NUL ends there
  pub read_text : Bytes → Option Bytes
  -- UPPER(email) = UPPER($1), and UPPER(nickname) LIKE UPPER('%' || $2 || '%'); a login is compared as
  -- the database takes it, and one that is an error is no email's: both end in the same exception
  pub same_email : Bytes → Bytes → Bool
  pub name_like : Bytes → Bytes → Bool

abbrev pub statements : List Bytes
statements =
    codes "addPhoto"
    ∷ codes "addNewUser"
    ∷ codes "getHashPassword"
    ∷ codes "getNickname"
    ∷ codes "getProfileInformation"
    ∷ codes "getProfilePhotoId"
    ∷ codes "getProfilePhoto"
    ∷ codes "connectPropertiesAndPhoto"
    ∷ codes "deleteRow"
    ∷ codes "getStatus"
    ∷ codes "deletePhoto"
    ∷ codes "getUsersList"
    ∷ codes "makeFriend"
    ∷ codes "deleteFriend"
    ∷ codes "updateProfilePhoto"
    ∷ codes "updateProfileDate"
    ∷ codes "updatePassword"
    ∷ []

-- std::string(e.what()).find(text) != npos
unfoldable pub says : Exception → String → Bool
says e text = not (find (codes (what e)) (codes text) 0 == npos)

module _ (j : JsonLib) (auth : AuthServer) (sodium : Sodium) where
  open j use {Json, null, text_at, bool_at, object, set_bool, push_back}
  open auth use {server, connects, is_open, read_bool, read_date, read_count, same_email, name_like}
  open server use {read_id, show_id}

  abbrev pub AuthAction : Type 0 → Type 0
  AuthAction = DbAction server

  -- The constructor; the statements are prepared once, before any other call.
  unfoldable pub open_connection : AuthAction Unit
  open_connection =
      if connects
      then if is_open
        then prepare_all server statements
        else lift (throw (runtime_error "Can't open db"))
      else lift (throw (foreign "no connection"))

  -- catch (const std::exception & e) { throw std::runtime_error(text); }
  abbrev pub or_throw : {A : Type 0} → String → AuthAction A → AuthAction A
  or_throw text m = try m (λ e. lift (throw (runtime_error text)))

  unfoldable pub add_new_photo : PostTInfo Json → AuthAction Bytes
  add_new_photo post_info = or_throw "Can't add photo" (do
    id ← work server (
        exec_insert server (codes "profile_picture") (
          add_photo (get_text (codes "photo_type") post_info.user_properties)
            post_info.binary_data))
    pure (show_id id))

  -- The errors of a statement that writes a nickname and an email.
  abbrev pub occupied_or_same : {A : Type 0} → Exception → AuthAction A
  occupied_or_same e =
      if says e "users_nickname_key"
      then lift (throw (runtime_error "The nickname is already occupied"))
      else if says e "users_email_key"
      then lift (throw (runtime_error "This email is already occupied"))
      else lift (throw e)

  abbrev pub profile_of : StdMap Bytes → Bool → Bytes → Profile
  profile_of user_properties is_male birthdate = record {
    nickname = get_text (codes "nickname") user_properties;
    first_name = get_text (codes "first_name") user_properties;
    last_name = get_text (codes "last_name") user_properties;
    email = get_text (codes "email") user_properties;
    is_male = is_male;
    birthdate = birthdate;
  }

  abbrev pub insert_properties : StdMap Bytes → AuthAction ℕ
  insert_properties user_properties =
      bind server read_bool (get_text (codes "is_male") user_properties) >>= λ is_male.
      bind server read_date (get_text (codes "birthdate") user_properties) >>= λ birthdate.
      exec_insert server (codes "users") (
        insert_user (profile_of user_properties is_male birthdate)
          (get_text (codes "password") user_properties))

  unfoldable pub add_properties : StdMap Bytes → AuthAction Bytes
  add_properties user_properties =
      try (do id ← work server (insert_properties user_properties); pure (show_id id))
        occupied_or_same

  -- `throw e` throws a copy that is a std::exception, with the text of `e`.
  unfoldable pub connect_properties_and_photo : Bytes → Bytes → AuthAction Unit
  connect_properties_and_photo user_id photo_id =
      try
        (work server (do
          photo ← bind server read_id photo_id
          user ← bind server read_id user_id
          exec_prepared0 server (set_photo photo user)))
        (λ e. lift (throw (foreign (what e))))

  unfoldable pub delete_row : Bytes → AuthAction Unit
  delete_row user_id =
      try
        (work server
          (do user ← bind server read_id user_id; exec_prepared0 server (delete_user user)))
        (λ e. pure tt)

  unfoldable pub delete_photo : Bytes → AuthAction Unit
  delete_photo photo_id =
      try
        (work server
          (do photo ← bind server read_id photo_id; exec_prepared0 server (delete_picture photo)))
        (λ e. pure tt)

  -- The two flags of `addNewUser` say which of the handlers below an error runs.
  unfoldable pub add_new_user : PostTInfo Json → AuthAction Bytes
  add_new_user post_info = do
    user_id ← add_properties post_info.user_properties
    photo_id ← try (add_new_photo post_info) (λ e. delete_row user_id >> lift (throw e))
    try (connect_properties_and_photo user_id photo_id)
        (λ e. delete_photo photo_id >> (delete_row user_id >> lift (throw e)))
    pure user_id
