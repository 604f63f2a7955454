-- ===== src/Tests/Accounts.antt =====
-- The theorems about users over a small concrete database of the auth server.
use photogram.Prelude.{
  ℕ, ◌+◌, ◌-◌, ◌≡◌, refl, ◌⊎◌, String, Bool, true, false, ◌||◌, Option, none, some, List, [], ◌∷◌,
  ◌==◌, map, if◌then◌else◌,
}
use photogram.Outcome.{runtime_error, ok, throw}
use photogram.Text.{Bytes, codes, text_eq}
use photogram.Text.StdMap.{lookup, get_text}
use photogram.HttpDef.{PostTInfo, registration}
use photogram.HashTools.{Sodium, verify}
use photogram.Action.{pure, lift, ◌>>=◌, try}
use photogram.Rows.{any}
use photogram.Postgres.{Server, Session, bind, exec_prepared0, commit, roll_back, work}
use photogram.Postgres.Statements.{Fails, IsAdmitted}
use photogram.Postgres.Returned.{Returns}
use photogram.WorkWithPostgreSql.{AuthServer, add_new_user}
use photogram.WorkWithPostgreSql.Tables.{User, Db, Profile, by_id, by_email, update_user}
use photogram.WorkWithPostgreSql.Queries.{check_password, get_status}
use photogram.WorkWithPostgreSql.Updates.{update_data, update_profile_data}
use photogram.WorkWithPostgreSql.Calls.{befriend, after}
use photogram.WorkWithPostgreSql.AllOrNothing.{returns, after-atomic}
use photogram.WorkWithPostgreSql.Registered.{registered, add_new_user-atomic}
use photogram.WorkWithPostgreSql.Login.{check_password_sound, check_password_complete}
use photogram.WorkWithPostgreSql.Friends.{
  Asked, ask_all, report_all, change_all, relation_of, get_status-ask_all,
}
use photogram.WorkWithPostgreSql.Profiles.{Gives, update_profile_data-by_id}
use photogram.Tests.Thread.{text_json}

abbrev pub read_digit : Bytes → Option ℕ
read_digit [] = none
read_digit (d ∷ []) = some (d - 48)
read_digit (d ∷ e ∷ t) = none

-- Nicknames are unique.
abbrev has_twin : List User → Bool
has_twin [] = false
has_twin (u ∷ us) = any (λ w. text_eq w.nickname u.nickname) us || has_twin us

abbrev violated : Bool → Option String
violated true = some "users_nickname_key"
violated false = none

abbrev pub server : Server Db
server = record {
  prepares = λ name. true;
  read_id = read_digit;
  show_id = λ n. (n + 48) ∷ [];
  bad_input = λ t. "invalid input";
  unexpected_rows = λ n. if n == 0 then "got 0" else "got 2";
  Sequences = ℕ;
  next_id = λ table n. (n, n + 1);
  violation = λ db. violated (has_twin db.users);
  commit_error = λ db. none;
}

abbrev pub auth : AuthServer
auth = record {
  server = server;
  connects = true;
  is_open = true;
  read_bool = λ t. some true;
  read_date = λ t. some t;
  read_count = λ t. read_digit t;
  read_text = λ t. some t;
  same_email = text_eq;
  name_like = λ name substr. true;
}

-- A hash that is the password.
abbrev pub sodium : Sodium
sodium = record { init = true; generichash = λ t. t; bin2hex = λ t. t; pwhash_str_verify = text_eq }

abbrev pub user : ℕ → Bytes → User
user id name = record {
  id = id;
  nickname = name;
  first_name = [];
  last_name = [];
  email = name;
  is_male = true;
  birthdate = [];
  password = codes "p";
  photo_id = none;
}

abbrev pub session : Session server
session = record {
  tables = record {
    users = user 1 (codes "ann") ∷ user 18 (codes "bob") ∷ [];
    pictures = [];
    friends = record { user_id = 1; friend_id = 2 } ∷ [];
  };
  ids = 3;
}

abbrev pub form_info : PostTInfo Bytes
form_info = record {
  origin = [];
  msg = registration;
  json_body = [];
  access_token = [];
  user_properties = (codes "nickname", codes "eve") ∷ [];
  files_coordinates = [];
  binary_data = codes "photo";
}

abbrev Admitted : Db → Type 0
Admitted db = server.violation db ≡ none

after-atomic_example :
    (returns text_json auth sodium (befriend (codes "1") (codes "xy")) session ≡ true)
    ⊎ ((after text_json auth sodium (befriend (codes "1") (codes "xy")) session).tables
        ≡ session.tables)
after-atomic_example =
    after-atomic text_json auth sodium (befriend (codes "1") (codes "xy")) session refl

session-IsAdmitted : IsAdmitted server session.tables
unfolding text_eq
session-IsAdmitted = record { holds = refl; commits = refl }

add_new_user-atomic_example :
    Fails server session (add_new_user text_json auth sodium form_info session)
    ⊎ ((is_male : Bool) × (birthdate : Bytes) × (some true ≡ some is_male)
        × (some [] ≡ some birthdate)
        × (add_new_user text_json auth sodium form_info session ≡ (
          ok (codes "3"),
          registered text_json auth sodium form_info session is_male birthdate,
        )))
unfolding lookup text_eq get_text
add_new_user-atomic_example =
    add_new_user-atomic text_json auth sodium form_info session refl refl refl refl
      session-IsAdmitted

check_password_complete_example :
    (check_password text_json auth sodium (codes "ann") (codes "p") session).0 ≡ (
      if verify sodium (codes "p") (codes "p")
      then ok (codes "1")
      else throw (runtime_error "Invalid login or password"))
unfolding by_id by_email text_eq
check_password_complete_example =
    check_password_complete text_json auth sodium (codes "ann") (codes "p") session
      (user 18 (codes "bob")) (user 1 (codes "ann")) refl refl refl refl

abbrev asked : List Asked
asked =
    record { user_id = codes "1"; friend_id = codes "3"; makes = true }
    ∷ record { user_id = codes "1"; friend_id = codes "2"; makes = false }
    ∷ []

get_status-ask_all_example :
    (get_status text_json auth sodium
      (codes "1")
      (codes "3")
      (ask_all text_json auth sodium asked session)).0
    ≡ ok (
        text_json.object (
          (
            codes "status",
            if change_all
                  (report_all text_json auth sodium asked session)
                  (relation_of session.tables)
                  1
                  3
                then codes "friend"
                else codes "stranger",
          )
          ∷ []))
get_status-ask_all_example =
    get_status-ask_all text_json auth sodium asked session (codes "1") (codes "3") 1 3 refl refl
      refl

abbrev given_profile : Profile
given_profile = record {
  nickname = codes "amy";
  first_name = codes "amy";
  last_name = codes "amy";
  email = codes "amy";
  is_male = true;
  birthdate = codes "amy";
}

updated :
    Returns server
      (update_profile_data text_json auth sodium (codes "amy") (codes "1"))
      session
      tt
      (record session { tables = update_user given_profile 1 session.tables })
unfolding update_profile_data update_data bind exec_prepared0 commit roll_back work pure lift try
    ◌>>=◌ update_user text_eq
updated = refl

update_profile_data-by_id_example :
    (user : ℕ) × (p : Profile) × (read_digit (codes "1") ≡ some user)
    × Gives text_json auth sodium (codes "amy") p
    × (by_id 18 (update_user given_profile 1 session.tables) ≡ (
        if 18 == user
        then map
            (λ (u : User). record u {
              nickname = p.nickname;
              first_name = p.first_name;
              last_name = p.last_name;
              email = p.email;
              is_male = p.is_male;
              birthdate = p.birthdate;
            })
            (by_id 18 session.tables)
        else by_id 18 session.tables))
update_profile_data-by_id_example =
    update_profile_data-by_id text_json auth sodium (codes "amy") (codes "1") session
      (record session { tables = update_user given_profile 1 session.tables }) 18 updated

check_password_sound_example :
    ((printed : User) × (u : User) × (by_id 18 session.tables ≡ printed ∷ [])
      × (by_email text_eq (codes "ann") session.tables ≡ u ∷ [])
      × (verify sodium (codes "q") u.password ≡ true)
      × (check_password text_json auth sodium (codes "ann") (codes "q") session
          ≡ (ok (server.show_id u.id), session)))
    ⊎ (check_password text_json auth sodium (codes "ann") (codes "q") session
        ≡ (throw (runtime_error "Invalid login or password"), session))
check_password_sound_example =
    check_password_sound text_json auth sodium (codes "ann") (codes "q") session
