-- ===== src/WorkWithPostgreSql/Updates.antt =====
-- What `WorkWithPostgreSQL` changes behind the registration: friends and profiles
-- (auth_server_src/WorkWithPostgreSQL.cpp).
use photogram.Outcome.{throw}
use photogram.Text.{Bytes, codes}
use photogram.Text.StdMap.{get_text}
use photogram.Json.{JsonLib}
use photogram.HttpDef.{PostTInfo}
use photogram.HashTools.{Sodium}
use photogram.Action.{lift, ◌>>=◌, try}
use photogram.Postgres.{bind, exec_prepared0, work}
use photogram.WorkWithPostgreSql.Tables.{
  insert_friend, remove_friend, update_picture, update_user, set_password,
}
use photogram.WorkWithPostgreSql.{AuthServer, AuthAction, or_throw, occupied_or_same}

module _ (j : JsonLib) (auth : AuthServer) (sodium : Sodium) where
  open j use {Json, null, text_at, bool_at, object, set_bool, push_back}
  open auth use {server, connects, is_open, read_bool, read_date, read_count, same_email, name_like}
  open server use {read_id, show_id}

  unfoldable pub make_friend : Bytes → Bytes → AuthAction j auth sodium Unit
  make_friend user_id friend_id = or_throw j auth sodium "404" (
      work server (do
        user ← bind server read_id user_id
        friend ← bind server read_id friend_id
        exec_prepared0 server (insert_friend user friend)))

  unfoldable pub delete_friend : Bytes → Bytes → AuthAction j auth sodium Unit
  delete_friend user_id friend_id = or_throw j auth sodium "404" (
      work server (do
        user ← bind server read_id user_id
        friend ← bind server read_id friend_id
        exec_prepared0 server (remove_friend user friend)))

  unfoldable pub update_photo : PostTInfo Json → Bytes → AuthAction j auth sodium Unit
  update_photo post_info id = or_throw j auth sodium "Can't add photo" (
      work server (do
        user ← bind server read_id id
        exec_prepared0 server (
            update_picture (get_text (codes "photo_type") post_info.user_properties)
              post_info.binary_data user)))

  unfoldable pub update_data : Json → Bytes → AuthAction j auth sodium Unit
  update_data json_body id =
      try
        (work server (do
          nickname ← lift (text_at json_body (codes "nickname"))
          first_name ← lift (text_at json_body (codes "firstname"))
          last_name ← lift (text_at json_body (codes "lastname"))
          email ← lift (text_at json_body (codes "email"))
          is_male ← lift (bool_at json_body (codes "is_male"))
          birthdate_text ← lift (text_at json_body (codes "birthdate"))
          birthdate ← bind server read_date birthdate_text
          user ← bind server read_id id
          exec_prepared0 server (
              update_user
                (record {
                  nickname = nickname;
                  first_name = first_name;
                  last_name = last_name;
                  email = email;
                  is_male = is_male;
                  birthdate = birthdate;
                })
                user)))
        (occupied_or_same j auth sodium)

  unfoldable pub update_password : Bytes → Bytes → AuthAction j auth sodium Unit
  update_password password id =
      work server
        (do user ← bind server read_id id; exec_prepared0 server (set_password password user))

  -- The public updates catch, write to the console, and throw again.
  abbrev pub rethrow : {A : Type 0} → AuthAction j auth sodium A → AuthAction j auth sodium A
  rethrow m = try m (λ e. lift (throw e))

  unfoldable pub update_profile_photo : PostTInfo Json → Bytes → AuthAction j auth sodium Unit
  update_profile_photo post_info id = rethrow (update_photo post_info id)

  unfoldable pub update_profile_data : Json → Bytes → AuthAction j auth sodium Unit
  update_profile_data json_body id = rethrow (update_data json_body id)

  unfoldable pub update_profile_password : Bytes → Bytes → AuthAction j auth sodium Unit
  update_profile_password password id = rethrow (update_password password id)
