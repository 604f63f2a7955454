-- ===== src/WorkWithPostgreSql/Calls.antt =====
-- Sequences of calls of `WorkWithPostgreSQL`.
use photogram.Prelude.{◌≡◌, refl, Bool, true, false, List, [], ◌∷◌}
use photogram.Text.{Bytes}
use photogram.Text.StdMap.{StdMap}
use photogram.Json.{JsonLib}
use photogram.HttpDef.{PostTInfo}
use photogram.HashTools.{Sodium}
use photogram.Postgres.{Session}
use photogram.Postgres.Keeps.{IsGiven}
use photogram.WorkWithPostgreSql.Kept.{
  get_nickname_by_id-Keeps, check_password-Keeps, get_profile_information-Keeps,
  get_profile_photo-Keeps, get_users-Keeps, get_photo_by_id-Keeps, get_status-Keeps,
  open_connection-Keeps, add_new_user-Keeps, make_friend-Keeps, delete_friend-Keeps,
  update_profile_photo-Keeps, update_profile_data-Keeps, update_profile_password-Keeps,
}
use photogram.WorkWithPostgreSql.{AuthServer, open_connection, add_new_user}
use photogram.WorkWithPostgreSql.Tables.{Db}
use photogram.WorkWithPostgreSql.Queries.{
  get_nickname_by_id, get_profile_information, get_profile_photo, get_photo_by_id, check_password,
  get_users, get_status,
}
use photogram.WorkWithPostgreSql.Updates.{
  make_friend, delete_friend, update_profile_photo, update_profile_data, update_profile_password,
}

module _ (j : JsonLib) (auth : AuthServer) (sodium : Sodium) where
  open auth use {server}

  -- The public calls.
  pub data Call : Type 0 where
    read_nickname read_profile read_profile_photo read_photo : Bytes → Call
    log_in read_status befriend unfriend set_password_of : Bytes → Bytes → Call
    list_users : StdMap Bytes → Bytes → Call
    connect : Call
    register : PostTInfo j.Json → Call
    change_photo : PostTInfo j.Json → Bytes → Call
    change_profile : j.Json → Bytes → Call

  -- The state behind a call, whether it returned or threw.
  abbrev pub after : Call → Session server → Session server
  after (read_nickname id) s = (get_nickname_by_id j auth sodium id s).1
  after (read_profile nickname) s = (get_profile_information j auth sodium nickname s).1
  after (read_profile_photo nickname) s = (get_profile_photo j auth sodium nickname s).1
  after (read_photo id) s = (get_photo_by_id j auth sodium id s).1
  after (log_in login password) s = (check_password j auth sodium login password s).1
  after (read_status user friend) s = (get_status j auth sodium user friend s).1
  after (befriend user friend) s = (make_friend j auth sodium user friend s).1
  after (unfriend user friend) s = (delete_friend j auth sodium user friend s).1
  after (set_password_of password id) s = (update_profile_password j auth sodium password id s).1
  after (list_users properties id) s = (get_users j auth sodium properties id s).1
  after connect s = (open_connection j auth sodium s).1
  after (register info) s = (add_new_user j auth sodium info s).1
  after (change_photo info id) s = (update_profile_photo j auth sodium info id s).1
  after (change_profile body id) s = (update_profile_data j auth sodium body id s).1

  abbrev pub after_all : List Call → Session server → Session server
  after_all [] s = s
  after_all (c ∷ cs) s = after_all cs (after c s)

  abbrev pub is_read : Call → Bool
  is_read (befriend user friend) = false
  is_read (unfriend user friend) = false
  is_read (set_password_of password id) = false
  is_read (register info) = false
  is_read (change_photo info id) = false
  is_read (change_profile body id) = false
  is_read _ = true

  module _ (P : Db → Type 0) where
    read-P : (c : Call) (s : Session server) → is_read c ≡ true → P s.tables → P (after c s).tables
    read-P (read_nickname id) s r p = (get_nickname_by_id-Keeps j auth sodium P id).at s p
    read-P (read_profile nickname) s r p =
        (get_profile_information-Keeps j auth sodium P nickname).at s p
    read-P (read_profile_photo nickname) s r p =
        (get_profile_photo-Keeps j auth sodium P nickname).at s p
    read-P (read_photo id) s r p = (get_photo_by_id-Keeps j auth sodium P id).at s p
    read-P (log_in login password) s r p =
        (check_password-Keeps j auth sodium P login password).at s p
    read-P (read_status user friend) s r p = (get_status-Keeps j auth sodium P user friend).at s p
    read-P (list_users properties id) s r p = (get_users-Keeps j auth sodium P properties id).at s p
    read-P connect s r p = (open_connection-Keeps j auth sodium P).at s p
    read-P (befriend user friend) s r p = cc
    read-P (unfriend user friend) s r p = cc
    read-P (set_password_of password id) s r p = cc
    read-P (register info) s r p = cc
    read-P (change_photo info id) s r p = cc
    read-P (change_profile body id) s r p = cc

    call-P : IsGiven server P → (c : Call) (s : Session server) → P s.tables → P (after c s).tables
    call-P g (befriend user friend) s p = (make_friend-Keeps j auth sodium P g user friend).at s p
    call-P g (unfriend user friend) s p = (delete_friend-Keeps j auth sodium P g user friend).at s p
    call-P g (set_password_of password id) s p =
        (update_profile_password-Keeps j auth sodium P g password id).at s p
    call-P g (register info) s p = (add_new_user-Keeps j auth sodium P g info).at s p
    call-P g (change_photo info id) s p =
        (update_profile_photo-Keeps j auth sodium P g info id).at s p
    call-P g (change_profile body id) s p =
        (update_profile_data-Keeps j auth sodium P g body id).at s p
    call-P g (read_nickname id) s p = read-P (read_nickname id) s refl p
    call-P g (read_profile nickname) s p = read-P (read_profile nickname) s refl p
    call-P g (read_profile_photo nickname) s p = read-P (read_profile_photo nickname) s refl p
    call-P g (read_photo id) s p = read-P (read_photo id) s refl p
    call-P g (log_in login password) s p = read-P (log_in login password) s refl p
    call-P g (read_status user friend) s p = read-P (read_status user friend) s refl p
    call-P g (list_users properties id) s p = read-P (list_users properties id) s refl p
    call-P g connect s p = read-P connect s refl p

    -- What the constraints of the schema give of the tables, and holds before a sequence of calls of the
    -- class, holds behind it, whichever of the calls throw.
    pub after_all-IsGiven :
        IsGiven server P
        → (cs : List Call) (s : Session server) → P s.tables
        → P (after_all cs s).tables
    after_all-IsGiven g [] s p = p
    after_all-IsGiven g (c ∷ cs) s p = after_all-IsGiven g cs (after c s) (call-P g c s p)

  -- The calls that read, the login and the connection among them, leave every row as it is, also where
  -- they throw.
  pub after-read :
      (c : Call) (s : Session server) → is_read c ≡ true → (after c s).tables ≡ s.tables
  after-read c s r = read-P (λ db. db ≡ s.tables) c s r refl
