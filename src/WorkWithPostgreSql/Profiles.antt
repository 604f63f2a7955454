-- ===== src/WorkWithPostgreSql/Profiles.antt =====
-- The update of a profile (auth_server_src/WorkWithPostgreSQL.cpp).
use photogram.Prelude.{
  ℕ, ◌≡◌, refl, ap, ◌∙◌, inl, inr, false, some, arith, map, if◌then◌else◌, Bool-cases, ◌==◌,
}
use photogram.Outcome.{Exception, ok, throw}
use photogram.Text.{Bytes, codes}
use photogram.Json.{JsonLib}
use photogram.HashTools.{Sodium}
use photogram.Action.{lift}
use photogram.Rows.{select-update, select-update_other}
use photogram.Postgres.{Session}
use photogram.WorkWithPostgreSql.Tables.{
  User, Db, Profile, is_user, by_id, set_profile, update_user,
}
use photogram.Postgres.Atomic.{is_ok}
use photogram.Postgres.Returned.{
  Returns, try-Returns, lift-Returns, bind-Returns, exec_prepared0-Returns, work-Returns,
}
use photogram.WorkWithPostgreSql.Updates.{update_data, update_profile_data}
use photogram.WorkWithPostgreSql.{AuthServer, says, occupied_or_same}

-- The row of a user behind an update of its profile, and of another user.
pub by_id-update_user :
    (p : Profile) (id k : ℕ) (db : Db)
    → by_id k (update_user p id db)
      ≡ (if k == id then map (set_profile p) (by_id k db) else by_id k db)
unfolding by_id update_user
by_id-update_user p id k db = elim (Bool-cases (k == id)) [
  | inl e ↦ rw e (
      select-update (is_user k) (is_user id) (set_profile p) db.users (λ x. refl)
        (λ x h. ground arith))
  | inr e ↦ rw e (
      select-update_other (is_user k) (is_user id) (set_profile p) db.users (λ x. refl)
        (λ x h. ground arith))
]

module _ (j : JsonLib) (auth : AuthServer) (sodium : Sodium) where
  open j use {text_at, bool_at}
  open auth use {server, read_date}
  open server use {read_id}

  -- The profile that a JSON body gives, its birthdate as the database reads it.
  pub record Gives (body : j.Json) (p : Profile) : Type 0 where
    pub nickname : text_at body (codes "nickname") ≡ ok p.nickname
    pub first_name : text_at body (codes "firstname") ≡ ok p.first_name
    pub last_name : text_at body (codes "lastname") ≡ ok p.last_name
    pub email : text_at body (codes "email") ≡ ok p.email
    pub is_male : bool_at body (codes "is_male") ≡ ok p.is_male
    pub birthdate_text : Bytes
    pub birthdate_read : text_at body (codes "birthdate") ≡ ok birthdate_text
    pub birthdate : read_date birthdate_text ≡ some p.birthdate

  throw-never :
      (e : Exception) (s : Session server) → is_ok {A = Unit {0}} (lift (throw e) s).0 ≡ false
  unfolding lift
  throw-never e s = refl

  occupied_or_same-never :
      (e : Exception) (s : Session server)
      → is_ok (occupied_or_same j auth sodium {A = Unit {0}} e s).0 ≡ false
  unfolding lift
  occupied_or_same-never e s = elim (Bool-cases (says e "users_nickname_key")) [
    | inl n ↦ rw n refl
    | inr n ↦ elim (Bool-cases (says e "users_email_key")) [
      | inl m ↦ rw (n, m) refl
      | inr m ↦ rw (n, m) refl
    ]
  ]

  -- An update of a profile that returns has read the body and the id, and has changed the tables by the
  -- one statement.
  update_profile_data-Returns :
      (body : j.Json) (id : Bytes) (s s' : Session server)
      → Returns server (update_profile_data j auth sodium body id) s tt s'
      → (user : ℕ) × (p : Profile) × (read_id id ≡ some user)
        × Gives body p
        × (s' ≡ record s { tables = update_user p user s.tables })
  unfolding update_profile_data update_data
  update_profile_data-Returns body id s s' h =
      let h0 = try-Returns server _ _ s s' tt (λ e s1. throw-never e s1) h in
      let h1 = try-Returns server _ _ s s' tt occupied_or_same-never h0 in
      let (nickname, r1, k1) = lift-Returns server _ _ s s' tt (work-Returns server _ s s' tt h1) in
      let (first_name, r2, k2) = lift-Returns server _ _ s s' tt k1 in
      let (last_name, r3, k3) = lift-Returns server _ _ s s' tt k2 in
      let (email, r4, k4) = lift-Returns server _ _ s s' tt k3 in
      let (is_male, r5, k5) = lift-Returns server _ _ s s' tt k4 in
      let (birthdate_text, r6, k6) = lift-Returns server _ _ s s' tt k5 in
      let (birthdate, r7, k7) = bind-Returns server _ _ _ s s' tt k6 in
      let (user, r8, k8) = bind-Returns server _ _ _ s s' tt k7 in
      (
        user,
        record {
          nickname = nickname;
          first_name = first_name;
          last_name = last_name;
          email = email;
          is_male = is_male;
          birthdate = birthdate;
        },
        r8,
        record {
          nickname = r1;
          first_name = r2;
          last_name = r3;
          email = r4;
          is_male = r5;
          birthdate_text = birthdate_text;
          birthdate_read = r6;
          birthdate = r7;
        },
        exec_prepared0-Returns server _ s s' k8,
      )

  -- An update of a profile that returns has given the user of the id the nickname, the names, the
  -- email, the sex and the birthdate of the body, has left its other columns, and has left the row of
  -- every other user as it was.
  pub update_profile_data-by_id :
      (body : j.Json) (id : Bytes) (s s' : Session server) (k : ℕ)
      → Returns server (update_profile_data j auth sodium body id) s tt s'
      → (user : ℕ) × (p : Profile) × (read_id id ≡ some user)
        × Gives body p
        × (by_id k s'.tables ≡ (
            if k == user
            then map
                (λ (u : User). record u {
                  nickname = p.nickname;
                  first_name = p.first_name;
                  last_name = p.last_name;
                  email = p.email;
                  is_male = p.is_male;
                  birthdate = p.birthdate;
                })
                (by_id k s.tables)
            else by_id k s.tables))
  update_profile_data-by_id body id s s' k h =
      let (user, p, r, g, e) = update_profile_data-Returns body id s s' h in
      (
        user,
        p,
        r,
        g,
        ap (λ (x : Session server). by_id k x.tables) e ∙ by_id-update_user p user k s.tables,
      )
