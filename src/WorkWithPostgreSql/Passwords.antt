-- ===== src/WorkWithPostgreSql/Passwords.antt =====
-- `updateProfilePassword` and the login behind it (auth_server_src/WorkWithPostgreSQL.cpp).
use photogram.Prelude.{
  ℕ, ◌≡◌, refl, ap, ◌∙◌, Bool, true, none, some, [], ◌∷◌, List, map, inl, inr, if◌then◌else◌,
  Bool-cases, ◌==◌,
}
use photogram.Outcome.{runtime_error, ok, throw}
use photogram.Text.{Bytes}
use photogram.Json.{JsonLib}
use photogram.HashTools.{Sodium, verify}
use photogram.Action.{lift}
use photogram.Rows.{select_where, update_where}
use photogram.Postgres.{Session}
use photogram.Postgres.Returned.{
  Returns, try-Returns, bind-Returns, exec_prepared0-Returns, work-Returns,
}
use photogram.WorkWithPostgreSql.Tables.{User, is_user, by_id, by_email, set_password}
use photogram.WorkWithPostgreSql.{AuthServer}
use photogram.WorkWithPostgreSql.Queries.{check_password}
use photogram.WorkWithPostgreSql.Updates.{update_password, update_profile_password}
use photogram.WorkWithPostgreSql.Login.{check_password_complete}

-- A row with the password, where it is the user's.
abbrev changed : Bytes → ℕ → User → User
changed password id u = if is_user id u then record u { password = password } else u

select-set_password :
    (p : User → Bool) (password : Bytes) (id : ℕ) (us : List User)
    → ((u : User) → p (record u { password = password }) ≡ p u)
    → select_where p (update_where (is_user id) (λ u. record u { password = password }) us)
      ≡ map (changed password id) (select_where p us)
select-set_password p password id [] same = refl
select-set_password p password id (u ∷ us) same = elim (Bool-cases (is_user id u)) [
  | inl q ↦ elim (Bool-cases (p u)) [
    | inl e ↦
        rw (q, same u, e, q)
          (ap (λ l. record u { password = password } ∷ l)
            (select-set_password p password id us same))
    | inr e ↦ rw (q, same u, e) (select-set_password p password id us same)
  ]
  | inr q ↦ elim (Bool-cases (p u)) [
    | inl e ↦ rw (q, e, q) (ap (λ l. u ∷ l) (select-set_password p password id us same))
    | inr e ↦ rw (q, e) (select-set_password p password id us same)
  ]
]

module _ (j : JsonLib) (auth : AuthServer) (sodium : Sodium) where
  open auth use {server, same_email}
  open server use {read_id, show_id, commit_error}

  update_profile_password-Returns :
      (new id : Bytes) (s s' : Session server)
      → Returns server (update_profile_password j auth sodium new id) s tt s'
      → (user : ℕ) × (read_id id ≡ some user)
        × (s' ≡ record s { tables = set_password new user s.tables })
  unfolding update_profile_password update_password lift
  update_profile_password-Returns new id s s' h =
      let h0 = try-Returns server _ _ s s' tt (λ e s1. refl) h in
      let (user, r, k) = bind-Returns server _ _ _ s s' tt (work-Returns server _ s s' tt h0) in
      (user, r, exec_prepared0-Returns server _ s s' k)

  -- Behind a change of a password that returns, a login with an email that one user has, where there is
  -- a user 18, libsodium starts and the commit is taken, is decided by the new hash for the user whose
  -- id was given, and by the hash from before for every other one.
  pub check_password-update_profile_password :
      (new id login password : Bytes) (s s' : Session server) (printed u : User)
      → Returns server (update_profile_password j auth sodium new id) s tt s'
      → by_id 18 s.tables ≡ printed ∷ []
      → by_email same_email login s.tables ≡ u ∷ []
      → sodium.init ≡ true
      → commit_error s'.tables ≡ none
      → (user : ℕ) × (read_id id ≡ some user)
        × ((check_password j auth sodium login password s').0 ≡ (
            if verify sodium password (if u.id == user then new else u.password)
            then ok (show_id u.id)
            else throw (runtime_error "Invalid login or password")))
  unfolding by_id by_email set_password
  check_password-update_profile_password new id login password s s' printed u h p q i c =
      let (user, r, e) = update_profile_password-Returns new id s s' h in
      let users = s.tables.users in
      let p' : by_id 18 s'.tables ≡ changed new user printed ∷ [] =
        ap (λ (x : Session server). by_id 18 x.tables) e
        ∙ select-set_password (is_user 18) new user users (λ u. refl)
        ∙ ap (map (changed new user)) p in
      let q' : by_email same_email login s'.tables ≡ changed new user u ∷ [] =
        ap (λ (x : Session server). by_email same_email login x.tables) e
        ∙ select-set_password (λ u. same_email u.email login) new user users (λ u. refl)
        ∙ ap (map (changed new user)) q in
      let done =
        check_password_complete j auth sodium login password s' (changed new user printed)
          (changed new user u) p' q' i c in
      (
        user,
        r,
        elim (Bool-cases (u.id == user)) [
          | inl d ↦ rw d (rw d at done)
          | inr d ↦ rw d (rw d at done)
        ],
      )
