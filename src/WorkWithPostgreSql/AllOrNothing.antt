-- ===== src/WorkWithPostgreSql/AllOrNothing.antt =====
-- The calls of `WorkWithPostgreSQL` that are one transaction.
use photogram.Prelude.{◌≡◌, refl, ◌⊎◌, inr, true, Bool, false}
use photogram.Text.{Bytes}
use photogram.Json.{JsonLib}
use photogram.HttpDef.{PostTInfo}
use photogram.HashTools.{Sodium}
use photogram.Postgres.{Session}
use photogram.Postgres.Atomic.{Atomic, is_ok, atomic_rules}
use photogram.WorkWithPostgreSql.{AuthServer}
use photogram.WorkWithPostgreSql.Calls.{
  Call, read_nickname, read_profile, read_profile_photo, read_photo, log_in, read_status, befriend,
  unfriend, set_password_of, list_users, connect, register, change_photo, change_profile, after,
  after-read,
}
use photogram.WorkWithPostgreSql.Updates.{
  make_friend, delete_friend, update_photo, update_data, update_password, update_profile_photo,
  update_profile_data, update_profile_password,
}

module _ (j : JsonLib) (auth : AuthServer) (sodium : Sodium) where
  open auth use {server}

  Atomic-make_friend : (user friend : Bytes) → Atomic server (make_friend j auth sodium user friend)
  unfolding make_friend
  Atomic-make_friend user friend = search atomic_rules

  Atomic-delete_friend :
      (user friend : Bytes) → Atomic server (delete_friend j auth sodium user friend)
  unfolding delete_friend
  Atomic-delete_friend user friend = search atomic_rules

  Atomic-update_photo :
      (info : PostTInfo j.Json) (id : Bytes) → Atomic server (update_photo j auth sodium info id)
  unfolding update_photo
  Atomic-update_photo info id = search atomic_rules

  Atomic-update_data :
      (body : j.Json) (id : Bytes) → Atomic server (update_data j auth sodium body id)
  unfolding update_data
  Atomic-update_data body id = search atomic_rules

  Atomic-update_password :
      (password id : Bytes) → Atomic server (update_password j auth sodium password id)
  unfolding update_password
  Atomic-update_password password id = search atomic_rules

  ruleset update_rules =
      (atomic_rules, Atomic-update_photo, Atomic-update_data, Atomic-update_password)

  Atomic-update_profile_photo :
      (info : PostTInfo j.Json) (id : Bytes)
      → Atomic server (update_profile_photo j auth sodium info id)
  unfolding update_profile_photo
  Atomic-update_profile_photo info id = search update_rules

  Atomic-update_profile_data :
      (body : j.Json) (id : Bytes) → Atomic server (update_profile_data j auth sodium body id)
  unfolding update_profile_data
  Atomic-update_profile_data body id = search update_rules

  Atomic-update_profile_password :
      (password id : Bytes) → Atomic server (update_profile_password j auth sodium password id)
  unfolding update_profile_password
  Atomic-update_profile_password password id = search update_rules

  -- Whether a call that is one transaction returns; a call that reads is not asked.
  abbrev pub returns : Call j auth sodium → Session server → Bool
  returns (befriend user friend) s = is_ok (make_friend j auth sodium user friend s).0
  returns (unfriend user friend) s = is_ok (delete_friend j auth sodium user friend s).0
  returns (set_password_of password id) s =
      is_ok (update_profile_password j auth sodium password id s).0
  returns (change_photo info id) s = is_ok (update_profile_photo j auth sodium info id s).0
  returns (change_profile body id) s = is_ok (update_profile_data j auth sodium body id s).0
  returns _ s = false

  abbrev pub is_registration : Call j auth sodium → Bool
  is_registration (register info) = true
  is_registration _ = false

  -- Every public call but the registration is all or nothing: it is one that writes and returns, or it
  -- leaves every row as it is, whether the error is a text that is not read, a constraint, or the commit.
  pub after-atomic :
      (c : Call j auth sodium) (s : Session server)
      → is_registration c ≡ false
      → (returns c s ≡ true) ⊎ ((after j auth sodium c s).tables ≡ s.tables)
  after-atomic (befriend user friend) s r = (Atomic-make_friend user friend).at s
  after-atomic (unfriend user friend) s r = (Atomic-delete_friend user friend).at s
  after-atomic (set_password_of password id) s r = (Atomic-update_profile_password password id).at s
  after-atomic (change_photo info id) s r = (Atomic-update_profile_photo info id).at s
  after-atomic (change_profile body id) s r = (Atomic-update_profile_data body id).at s
  after-atomic (register info) s r = cc
  after-atomic (read_nickname id) s r = inr (after-read j auth sodium (read_nickname id) s refl)
  after-atomic (read_profile nickname) s r =
      inr (after-read j auth sodium (read_profile nickname) s refl)
  after-atomic (read_profile_photo nickname) s r =
      inr (after-read j auth sodium (read_profile_photo nickname) s refl)
  after-atomic (read_photo id) s r = inr (after-read j auth sodium (read_photo id) s refl)
  after-atomic (log_in login password) s r =
      inr (after-read j auth sodium (log_in login password) s refl)
  after-atomic (read_status user friend) s r =
      inr (after-read j auth sodium (read_status user friend) s refl)
  after-atomic (list_users properties id) s r =
      inr (after-read j auth sodium (list_users properties id) s refl)
  after-atomic connect s r = inr (after-read j auth sodium connect s refl)
