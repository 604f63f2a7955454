-- ===== src/Services.antt =====
-- What a client's thread of the auth server calls: the JSON and token libraries, the clock, and the
-- public operations of `WorkWithPostgreSQL` (auth_server_src/WorkWithPostgreSQL.hpp) on a world.
use photogram.Prelude.{ℕ}
use photogram.Outcome.{Outcome}
use photogram.Text.{Bytes}
use photogram.Text.StdMap.{StdMap}
use photogram.Json.{JsonLib}
use photogram.JwtToken.{JwtLib}
use photogram.HttpDef.{PostTInfo}

pub record DbApi (Json : Type 0) : Type 1 where
  pub World : Type 0
  -- the constructor, which opens the connection
  pub connect : World → Outcome (Unit {0}) × World
  pub get_nickname_by_id : Bytes → World → Outcome Bytes × World
  pub add_new_user : PostTInfo Json → World → Outcome Bytes × World
  pub check_password : Bytes → Bytes → World → Outcome Bytes × World
  pub get_profile_information : Bytes → World → Outcome Json × World
  -- the photo, and its type, which the source returns by reference
  pub get_profile_photo : Bytes → World → Outcome (Bytes × Bytes) × World
  pub get_users : StdMap Bytes → Bytes → World → Outcome Json × World
  pub get_photo_by_id : Bytes → World → Outcome (Bytes × Bytes) × World
  pub make_friend : Bytes → Bytes → World → Outcome (Unit {0}) × World
  pub delete_friend : Bytes → Bytes → World → Outcome (Unit {0}) × World
  pub get_status : Bytes → Bytes → World → Outcome Json × World
  pub update_profile_photo : PostTInfo Json → Bytes → World → Outcome (Unit {0}) × World
  pub update_profile_data : Json → Bytes → World → Outcome (Unit {0}) × World
  pub update_profile_password : Bytes → Bytes → World → Outcome (Unit {0}) × World

pub record Services : Type 1 where
  pub json : JsonLib
  pub jwt : JwtLib
  pub db : DbApi json.Json
  -- std::chrono::system_clock::now()
  pub now : db.World → ℕ × db.World
  -- what a view of a string that is gone reads
  pub stale : Bytes → Bytes
