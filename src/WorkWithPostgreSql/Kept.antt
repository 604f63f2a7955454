-- ===== src/WorkWithPostgreSql/Kept.antt =====
-- What every call of `WorkWithPostgreSQL` keeps of the tables.
use photogram.Text.{Bytes}
use photogram.Text.StdMap.{StdMap}
use photogram.Json.{JsonLib}
use photogram.HttpDef.{PostTInfo}
use photogram.HashTools.{Sodium}
use photogram.Postgres.Keeps.{Keeps, IsGiven, read_rules, write_rules}
use photogram.WorkWithPostgreSql.{
  AuthServer, open_connection, add_new_photo, add_properties, connect_properties_and_photo,
  delete_row, delete_photo, add_new_user,
}
use photogram.WorkWithPostgreSql.Tables.{Db}
use photogram.WorkWithPostgreSql.Queries.{
  get_nickname_by_id, get_profile_information, get_profile_photo, get_photo_by_id, check_password,
  get_users, get_status,
}
use photogram.WorkWithPostgreSql.Updates.{
  make_friend, delete_friend, update_photo, update_data, update_password, update_profile_photo,
  update_profile_data, update_profile_password,
}

module _ (j : JsonLib) (auth : AuthServer) (sodium : Sodium) (P : Db → Type 0) where
  open auth use {server}

  pub get_nickname_by_id-Keeps : (id : Bytes) → Keeps server P (get_nickname_by_id j auth sodium id)
  unfolding get_nickname_by_id
  get_nickname_by_id-Keeps id = search read_rules depth 24

  pub check_password-Keeps :
      (login password : Bytes) → Keeps server P (check_password j auth sodium login password)
  unfolding check_password
  check_password-Keeps login password = search read_rules depth 24

  pub get_profile_information-Keeps :
      (nickname : Bytes) → Keeps server P (get_profile_information j auth sodium nickname)
  unfolding get_profile_information
  get_profile_information-Keeps nickname = search read_rules depth 24

  pub get_profile_photo-Keeps :
      (nickname : Bytes) → Keeps server P (get_profile_photo j auth sodium nickname)
  unfolding get_profile_photo
  get_profile_photo-Keeps nickname = search read_rules depth 24

  pub get_users-Keeps :
      (properties : StdMap Bytes) (id : Bytes)
      → Keeps server P (get_users j auth sodium properties id)
  unfolding get_users
  get_users-Keeps properties id = search read_rules depth 24

  pub get_photo_by_id-Keeps : (id : Bytes) → Keeps server P (get_photo_by_id j auth sodium id)
  unfolding get_photo_by_id
  get_photo_by_id-Keeps id = search read_rules depth 24

  pub get_status-Keeps :
      (user friend : Bytes) → Keeps server P (get_status j auth sodium user friend)
  unfolding get_status
  get_status-Keeps user friend = search read_rules depth 24

  pub open_connection-Keeps : Keeps server P (open_connection j auth sodium)
  unfolding open_connection
  open_connection-Keeps = search read_rules depth 24

  module _ (given : IsGiven server P) where
    add_new_photo-Keeps :
        (info : PostTInfo j.Json) → Keeps server P (add_new_photo j auth sodium info)
    unfolding add_new_photo
    add_new_photo-Keeps info = search write_rules depth 24

    add_properties-Keeps :
        (properties : StdMap Bytes) → Keeps server P (add_properties j auth sodium properties)
    unfolding add_properties
    add_properties-Keeps properties = search write_rules depth 24

    connect_properties_and_photo-Keeps :
        (user photo : Bytes)
        → Keeps server P (connect_properties_and_photo j auth sodium user photo)
    unfolding connect_properties_and_photo
    connect_properties_and_photo-Keeps user photo = search write_rules depth 24

    delete_row-Keeps : (id : Bytes) → Keeps server P (delete_row j auth sodium id)
    unfolding delete_row
    delete_row-Keeps id = search write_rules depth 24

    delete_photo-Keeps : (id : Bytes) → Keeps server P (delete_photo j auth sodium id)
    unfolding delete_photo
    delete_photo-Keeps id = search write_rules depth 24

    ruleset registration_rules = (
      write_rules, add_new_photo-Keeps, add_properties-Keeps, connect_properties_and_photo-Keeps,
      delete_row-Keeps, delete_photo-Keeps,
    )

    pub add_new_user-Keeps :
        (info : PostTInfo j.Json) → Keeps server P (add_new_user j auth sodium info)
    unfolding add_new_user
    add_new_user-Keeps info = search registration_rules depth 24

    pub make_friend-Keeps :
        (user friend : Bytes) → Keeps server P (make_friend j auth sodium user friend)
    unfolding make_friend
    make_friend-Keeps user friend = search write_rules depth 24

    pub delete_friend-Keeps :
        (user friend : Bytes) → Keeps server P (delete_friend j auth sodium user friend)
    unfolding delete_friend
    delete_friend-Keeps user friend = search write_rules depth 24

    update_photo-Keeps :
        (info : PostTInfo j.Json) (id : Bytes) → Keeps server P (update_photo j auth sodium info id)
    unfolding update_photo
    update_photo-Keeps info id = search write_rules depth 24

    update_data-Keeps :
        (body : j.Json) (id : Bytes) → Keeps server P (update_data j auth sodium body id)
    unfolding update_data
    update_data-Keeps body id = search write_rules depth 24

    update_password-Keeps :
        (password id : Bytes) → Keeps server P (update_password j auth sodium password id)
    unfolding update_password
    update_password-Keeps password id = search write_rules depth 24

    ruleset update_rules =
        (write_rules, update_photo-Keeps, update_data-Keeps, update_password-Keeps)

    pub update_profile_photo-Keeps :
        (info : PostTInfo j.Json) (id : Bytes)
        → Keeps server P (update_profile_photo j auth sodium info id)
    unfolding update_profile_photo
    update_profile_photo-Keeps info id = search update_rules depth 24

    pub update_profile_data-Keeps :
        (body : j.Json) (id : Bytes) → Keeps server P (update_profile_data j auth sodium body id)
    unfolding update_profile_data
    update_profile_data-Keeps body id = search update_rules depth 24

    pub update_profile_password-Keeps :
        (password id : Bytes) → Keeps server P (update_profile_password j auth sodium password id)
    unfolding update_profile_password
    update_profile_password-Keeps password id = search update_rules depth 24
