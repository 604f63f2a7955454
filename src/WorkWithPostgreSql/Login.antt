-- ===== src/WorkWithPostgreSql/Login.antt =====
-- `checkPassword` of auth_server_src/WorkWithPostgreSQL.cpp.
use photogram.Prelude.{
  ◌≡◌, refl, ◌⊎◌, inl, inr, true, none, [], ◌∷◌, if◌then◌else◌, Bool-cases, Option-cases,
}
use photogram.Outcome.{runtime_error, ok, throw}
use photogram.Text.{Bytes}
use photogram.Json.{JsonLib}
use photogram.HashTools.{Sodium, hash_tools, verify}
use photogram.Action.{pure, lift, ◌>>=◌, try}
use photogram.Postgres.{Session, exec_prepared1, commit, roll_back, work}
use photogram.Postgres.Reading.{one_row-cases}
use photogram.WorkWithPostgreSql.Tables.{User, by_id, by_email}
use photogram.WorkWithPostgreSql.{AuthServer}
use photogram.WorkWithPostgreSql.Queries.{check_password}

module _ (j : JsonLib) (auth : AuthServer) (sodium : Sodium) (login password : Bytes)
    (s : Session auth.server) where
  open auth use {server, same_email}
  open server use {show_id, commit_error}

  -- A login that returns gives the id of the only user with that email, whose hash is verified, and there
  -- is a user 18. Any other login throws "Invalid login or password". Either way nothing is changed.
  pub check_password_sound :
      ((printed : User) × (u : User) × (by_id 18 s.tables ≡ printed ∷ [])
        × (by_email same_email login s.tables ≡ u ∷ [])
        × (verify sodium password u.password ≡ true)
        × (check_password j auth sodium login password s ≡ (ok (show_id u.id), s)))
      ⊎ (check_password j auth sodium login password s
          ≡ (throw (runtime_error "Invalid login or password"), s))
  unfolding check_password hash_tools work roll_back exec_prepared1 commit pure lift try ◌>>=◌
      verify
  check_password_sound = elim (one_row-cases server (by_id 18 s.tables)) [
    | inr (e, q) ↦ inr (rw q refl)
    | inl (printed, p) ↦ elim (one_row-cases server (by_email same_email login s.tables)) [
      | inr (e, q) ↦ inr (rw (p, q) refl)
      | inl (u, q) ↦ elim (Bool-cases sodium.init) [
        | inr i ↦ inr (rw (p, q, i) refl)
        | inl i ↦ elim (Option-cases (commit_error s.tables)) [
          | inr (t, c) ↦ inr (rw (p, q, i, c) refl)
          | inl c ↦ elim (Bool-cases (verify sodium password u.password)) [
            | inr v ↦ inr (rw (p, q, i, c, v) refl)
            | inl v ↦ inl (printed, u, p, q, v, rw (p, q, i, c, v) refl)
          ]
        ]
      ]
    ]
  ]

  -- Where there is a user 18, one user with that email, libsodium starts and the commit is taken, the
  -- login returns the id of the user exactly if the password is verified for the hash.
  pub check_password_complete :
      (printed u : User)
      → by_id 18 s.tables ≡ printed ∷ []
      → by_email same_email login s.tables ≡ u ∷ []
      → sodium.init ≡ true
      → commit_error s.tables ≡ none
      → (check_password j auth sodium login password s).0 ≡ (
          if verify sodium password u.password
          then ok (show_id u.id)
          else throw (runtime_error "Invalid login or password"))
  unfolding check_password hash_tools work roll_back exec_prepared1 commit pure lift try ◌>>=◌
      verify
  check_password_complete printed u p q i c =
      elim (Bool-cases (verify sodium password u.password)) [
        | inl v ↦ rw (p, q, i, c, v) refl
        | inr v ↦ rw (p, q, i, c, v) refl
      ]
