-- ===== src/WorkWithPostgreSql/Api.antt =====
-- The class `WorkWithPostgreSQL` as the database that the thread of a client calls.
use photogram.Json.{JsonLib}
use photogram.HashTools.{Sodium}
use photogram.Postgres.{Session}
use photogram.Services.{DbApi}
use photogram.WorkWithPostgreSql.{AuthServer, open_connection, add_new_user}
use photogram.WorkWithPostgreSql.Queries.{
  get_nickname_by_id, get_profile_information, get_profile_photo, get_photo_by_id, check_password,
  get_users, get_status,
}
use photogram.WorkWithPostgreSql.Updates.{
  make_friend, delete_friend, update_profile_photo, update_profile_data, update_profile_password,
}

module _ (j : JsonLib) (auth : AuthServer) (sodium : Sodium) where
  abbrev pub work_with_postgre_sql : DbApi j.Json
  work_with_postgre_sql = record {
    World = Session auth.server;
    connect = open_connection j auth sodium;
    get_nickname_by_id = get_nickname_by_id j auth sodium;
    add_new_user = add_new_user j auth sodium;
    check_password = check_password j auth sodium;
    get_profile_information = get_profile_information j auth sodium;
    get_profile_photo = get_profile_photo j auth sodium;
    get_users = get_users j auth sodium;
    get_photo_by_id = get_photo_by_id j auth sodium;
    make_friend = make_friend j auth sodium;
    delete_friend = delete_friend j auth sodium;
    get_status = get_status j auth sodium;
    update_profile_photo = update_profile_photo j auth sodium;
    update_profile_data = update_profile_data j auth sodium;
    update_profile_password = update_profile_password j auth sodium;
  }
