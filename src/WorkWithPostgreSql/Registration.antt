-- ===== src/WorkWithPostgreSql/Registration.antt =====
-- The registration of a user, which takes three transactions, and the compensation of its errors.
use photogram.Prelude.{ℕ, ◌≡◌, refl, ◌∙◌, ◌⊎◌, inl, inr, Bool, some, Bool-cases, Option-cases}
use photogram.Outcome.{Exception, what, foreign, runtime_error, ok}
use photogram.Text.{Bytes, codes}
use photogram.Text.StdMap.{StdMap, get_text}
use photogram.Json.{JsonLib}
use photogram.HttpDef.{PostTInfo}
use photogram.HashTools.{Sodium}
use photogram.Action.{pure, lift, ◌>>=◌, try}
use photogram.Postgres.{Session, bind, exec_prepared0, work}
use photogram.Postgres.Statements.{
  Fails, IsAdmitted, work_write-ok, work_write-cases, work_insert-cases, work-bind-some,
  work-bind-none,
}
use photogram.WorkWithPostgreSql.Tables.{
  Db, add_photo, insert_user, set_photo, delete_user, delete_picture,
}
use photogram.WorkWithPostgreSql.{
  AuthServer, says, occupied_or_same, profile_of, insert_properties, add_new_photo, add_properties,
  connect_properties_and_photo, delete_row, delete_photo,
}

module _ (j : JsonLib) (auth : AuthServer) (sodium : Sodium) where
  open auth use {server, read_bool, read_date}
  open server use {read_id, show_id, next_id}

  occupied_or_same-Fails :
      {A : Type 0} (e : Exception) (s s' : Session server)
      → s'.tables ≡ s.tables
      → Fails server s (occupied_or_same j auth sodium {A = A} e s')
  unfolding lift
  occupied_or_same-Fails e s s' h = elim (Bool-cases (says e "users_nickname_key")) [
    | inl n ↦ rw n (runtime_error "The nickname is already occupied", s', refl, h)
    | inr n ↦ elim (Bool-cases (says e "users_email_key")) [
      | inl m ↦ rw (n, m) (runtime_error "This email is already occupied", s', refl, h)
      | inr m ↦ rw (n, m) (e, s', refl, h)
    ]
  ]

  module _ (properties : StdMap Bytes) (s : Session server) where
    abbrev pub added_tables : Bool → Bytes → Db
    added_tables is_male birthdate =
        insert_user (profile_of j auth sodium properties is_male birthdate)
          (get_text (codes "password") properties) (next_id (codes "users") s.ids).0 s.tables

    abbrev pub added : Bool → Bytes → Session server
    added is_male birthdate = record {
      ids = (next_id (codes "users") s.ids).1;
      tables = added_tables is_male birthdate;
    }

    abbrev Inserted : Bool → Bytes → Type 0
    Inserted is_male birthdate =
        (work server (insert_properties j auth sodium properties) s
          ≡ (ok (next_id (codes "users") s.ids).0, added is_male birthdate))
        × IsAdmitted server (added_tables is_male birthdate)

    abbrev pub Added : Bool → Bytes → Type 0
    Added is_male birthdate =
        (add_properties j auth sodium properties s
          ≡ (ok (show_id (next_id (codes "users") s.ids).0), added is_male birthdate))
        × IsAdmitted server (added_tables is_male birthdate)

    insert_properties-cases :
        Fails server s (work server (insert_properties j auth sodium properties) s)
        ⊎ ((is_male : Bool) × (birthdate : Bytes) × (read_bool
                (get_text (codes "is_male") properties)
              ≡ some is_male)
            × (read_date (get_text (codes "birthdate") properties) ≡ some birthdate)
            × Inserted is_male birthdate)
    insert_properties-cases =
        elim (Option-cases (read_bool (get_text (codes "is_male") properties))) [
          | inl e ↦ inl (_, s, work-bind-none server read_bool _ _ s e, refl)
          | inr (is_male, e) ↦
              elim (Option-cases (read_date (get_text (codes "birthdate") properties))) [
                | inl e' ↦ inl (
                  _,
                  s,
                  work-bind-some server read_bool _ is_male _ s e
                      ∙ work-bind-none server read_date _ _ s e',
                  refl,
                )
                | inr (birthdate, e') ↦
                    let q =
                      work-bind-some server read_bool _ is_male _ s e
                      ∙ work-bind-some server read_date _ birthdate _ s e' in
                    elim (work_insert-cases server (codes "users")
                      (insert_user (profile_of j auth sodium properties is_male birthdate)
                        (get_text (codes "password") properties))
                      s) [
                        | inl (x, s', f, h) ↦ inl (x, s', q ∙ f, h)
                        | inr (f, h) ↦ inr (is_male, birthdate, e, e', (q ∙ f, h))
                      ]
              ]
        ]

    -- What `addProperties` does: it fails, or it has added the row of the user.
    pub add_properties-cases :
        Fails server s (add_properties j auth sodium properties s)
        ⊎ ((is_male : Bool) × (birthdate : Bytes) × (read_bool
                (get_text (codes "is_male") properties)
              ≡ some is_male)
            × (read_date (get_text (codes "birthdate") properties) ≡ some birthdate)
            × Added is_male birthdate)
    unfolding add_properties try pure ◌>>=◌
    add_properties-cases = elim insert_properties-cases [
      | inl (x, s', q, h) ↦ inl (rw q (occupied_or_same-Fails x s s' h))
      | inr (is_male, birthdate, e, e', (q, h)) ↦ inr (is_male, birthdate, e, e', (rw q refl, h))
    ]

  module _ (info : PostTInfo j.Json) (s : Session server) where
    abbrev pub with_photo : Session server
    with_photo = record {
      ids = (next_id (codes "profile_picture") s.ids).1;
      tables =
          add_photo (get_text (codes "photo_type") info.user_properties) info.binary_data
            (next_id (codes "profile_picture") s.ids).0 s.tables;
    }

    pub add_new_photo-cases :
        Fails server s (add_new_photo j auth sodium info s)
        ⊎ ((add_new_photo j auth sodium info s
              ≡ (ok (show_id (next_id (codes "profile_picture") s.ids).0), with_photo))
            × IsAdmitted server with_photo.tables)
    unfolding add_new_photo try pure lift ◌>>=◌
    add_new_photo-cases =
        elim (work_insert-cases server (codes "profile_picture")
          (add_photo (get_text (codes "photo_type") info.user_properties) info.binary_data) s) [
            | inl (x, s', q, h) ↦ inl (runtime_error "Can't add photo", s', rw q refl, h)
            | inr (q, h) ↦ inr (rw q refl, h)
          ]

  -- An id whose text reads back as the id.
  module _ (user : ℕ) (shown : read_id (show_id user) ≡ some user) where
    pub connect-cases :
        (photo : ℕ) (s : Session server)
        → read_id (show_id photo) ≡ some photo
        → Fails server s
            (connect_properties_and_photo j auth sodium (show_id user) (show_id photo) s)
          ⊎ (connect_properties_and_photo j auth sodium (show_id user) (show_id photo) s
              ≡ (ok tt, record s { tables = set_photo photo user s.tables }))
    unfolding connect_properties_and_photo try lift
    connect-cases photo s shown_photo =
        let q =
          work-bind-some server read_id _ photo
            (λ p. bind server read_id (show_id user) >>= λ u. exec_prepared0 server (set_photo p u))
            s shown_photo
          ∙ work-bind-some server read_id _ user _ s shown in
        elim (work_write-cases server (set_photo photo user) s) [
          | inl (x, s', f, h) ↦ inl (foreign (what x), s', rw (q, f) refl, h)
          | inr (f, h) ↦ inr (rw (q, f) refl)
        ]

    -- A deletion that the database takes.
    pub delete_row-ok :
        (s : Session server)
        → IsAdmitted server (delete_user user s.tables)
        → delete_row j auth sodium (show_id user) s
          ≡ (ok tt, record s { tables = delete_user user s.tables })
    unfolding delete_row try
    delete_row-ok s h =
        let q =
          work-bind-some server read_id _ user (λ u. exec_prepared0 server (delete_user u)) s
            shown in
        rw (q, work_write-ok server (delete_user user) s h) refl

    pub delete_photo-ok :
        (s : Session server)
        → IsAdmitted server (delete_picture user s.tables)
        → delete_photo j auth sodium (show_id user) s
          ≡ (ok tt, record s { tables = delete_picture user s.tables })
    unfolding delete_photo try
    delete_photo-ok s h =
        let q =
          work-bind-some server read_id _ user (λ u. exec_prepared0 server (delete_picture u)) s
            shown in
        rw (q, work_write-ok server (delete_picture user) s h) refl
