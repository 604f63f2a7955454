-- ===== src/Tests/Updates.antt =====
-- The theorems about updates, and what is read behind them, over the accounts of the tests.
use photogram.Prelude.{ℕ, ◌≡◌, refl, some, [], ◌∷◌, ◌==◌, if◌then◌else◌}
use photogram.Outcome.{runtime_error, ok, throw}
use photogram.Text.{codes, text_eq}
use photogram.Text.StdMap.{get_text}
use photogram.HashTools.{verify}
use photogram.Action.{pure, lift, ◌>>=◌, try}
use photogram.Postgres.{Session, bind, exec_prepared0, commit, roll_back, work}
use photogram.Postgres.Returned.{Returns}
use photogram.WorkWithPostgreSql.Tables.{
  User, Picture, by_email, by_id, by_nickname, picture_by_id, set_password, update_picture,
}
use photogram.WorkWithPostgreSql.Queries.{check_password, get_profile_photo}
use photogram.WorkWithPostgreSql.Updates.{
  update_password, update_profile_password, update_photo, update_profile_photo,
}
use photogram.WorkWithPostgreSql.Passwords.{check_password-update_profile_password}
use photogram.WorkWithPostgreSql.Photos.{get_profile_photo-update_profile_photo}
use photogram.Tests.Thread.{text_json}
use photogram.Tests.Accounts.{read_digit, server, auth, sodium, user, form_info, session}

changed_once :
    Returns server
      (update_profile_password text_json auth sodium (codes "q") (codes "1"))
      session
      tt
      (record session { tables = set_password (codes "q") 1 session.tables })
unfolding update_profile_password update_password bind exec_prepared0 commit roll_back work pure
    lift try ◌>>=◌ set_password text_eq
changed_once = refl

check_password-update_profile_password_example :
    (changed : ℕ) × (read_digit (codes "1") ≡ some changed)
    × ((check_password text_json auth sodium
          (codes "ann")
          (codes "q")
          (record session { tables = set_password (codes "q") 1 session.tables })).0
        ≡ (if verify sodium (codes "q") (if 1 == changed then codes "q" else codes "p")
            then ok (codes "1")
            else throw (runtime_error "Invalid login or password")))
unfolding by_id by_email text_eq
check_password-update_profile_password_example =
    check_password-update_profile_password text_json auth sodium (codes "q") (codes "1")
      (codes "ann") (codes "q") session
      (record session { tables = set_password (codes "q") 1 session.tables })
      (user 18 (codes "bob")) (user 1 (codes "ann")) changed_once refl refl refl refl

-- User 1 has the photo 4.
abbrev ann : User
ann = record (user 1 (codes "ann")) { photo_id = some 4 }

abbrev old_photo : Picture
old_photo = record { id = 4; photo_type = codes "image/png"; photo = codes "PNG" }

abbrev pictured : Session server
pictured = record {
  tables = record { users = ann ∷ []; pictures = old_photo ∷ []; friends = [] };
  ids = 5;
}

abbrev repictured : Session server
repictured = record pictured {
  tables =
      update_picture (get_text (codes "photo_type") form_info.user_properties) (codes "photo") 1
        pictured.tables;
}

photo_changed_once :
    Returns server
      (update_profile_photo text_json auth sodium form_info (codes "1"))
      pictured
      tt
      repictured
unfolding update_profile_photo update_photo bind exec_prepared0 commit roll_back work pure lift try
    ◌>>=◌ update_picture text_eq
photo_changed_once = refl

get_profile_photo-update_profile_photo_example :
    (get_profile_photo text_json auth sodium (codes "ann") repictured).0
    ≡ ok (codes "photo", get_text (codes "photo_type") form_info.user_properties)
unfolding by_nickname by_id picture_by_id text_eq
get_profile_photo-update_profile_photo_example =
    get_profile_photo-update_profile_photo text_json auth sodium form_info (codes "1") (codes "ann")
      (codes "ann") pictured repictured 1 ann 4 old_photo photo_changed_once refl refl refl refl
      refl refl refl refl
