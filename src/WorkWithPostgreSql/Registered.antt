-- ===== src/WorkWithPostgreSql/Registered.antt =====
-- `addNewUser` of auth_server_src/WorkWithPostgreSQL.cpp as a whole.
use photogram.Prelude.{
  ℕ, ◌≡◌, refl, sym, ap, subst, ◌∙◌, ◌⊎◌, inl, inr, [], ◌∷◌, ◌++◌, Bool, false, some, arith,
}
use photogram.Outcome.{ok}
use photogram.Text.{Bytes, codes}
use photogram.Text.StdMap.{get_text}
use photogram.Json.{JsonLib}
use photogram.HttpDef.{PostTInfo}
use photogram.HashTools.{Sodium}
use photogram.Action.{pure, lift, ◌>>=◌, try}
use photogram.Rows.{any, delete-append, update-append}
use photogram.Postgres.{Session}
use photogram.Postgres.Statements.{Fails, IsAdmitted}
use photogram.WorkWithPostgreSql.Tables.{
  Db, is_user, is_picture, add_photo, new_user, insert_user, set_photo, delete_user, delete_picture,
}
use photogram.WorkWithPostgreSql.{AuthServer, profile_of, delete_row, delete_photo, add_new_user}
use photogram.WorkWithPostgreSql.Registration.{
  added_tables, added, add_properties-cases, with_photo, add_new_photo-cases, connect-cases,
  delete_row-ok, delete_photo-ok,
}

module _ (j : JsonLib) (auth : AuthServer) (sodium : Sodium) (info : PostTInfo j.Json)
    (s : Session auth.server) where
  open auth use {server, read_bool, read_date}
  open server use {read_id, show_id, next_id}

  -- The ids that the sequences give next.
  abbrev pub user_id : ℕ
  user_id = (next_id (codes "users") s.ids).0

  abbrev pub photo_id : ℕ
  photo_id = (next_id (codes "profile_picture") (next_id (codes "users") s.ids).1).0

  -- The state with the user of the form, who has its photo.
  abbrev pub registered : Bool → Bytes → Session server
  registered is_male birthdate = record {
    ids = (next_id (codes "profile_picture") (next_id (codes "users") s.ids).1).1;
    tables = record s.tables {
      users =
          s.tables.users
          ++ record {
            id = user_id;
            nickname = get_text (codes "nickname") info.user_properties;
            first_name = get_text (codes "first_name") info.user_properties;
            last_name = get_text (codes "last_name") info.user_properties;
            email = get_text (codes "email") info.user_properties;
            is_male = is_male;
            birthdate = birthdate;
            password = get_text (codes "password") info.user_properties;
            photo_id = some photo_id;
          }
            ∷ [];
      pictures =
          s.tables.pictures
          ++ record {
            id = photo_id;
            photo_type = get_text (codes "photo_type") info.user_properties;
            photo = info.binary_data;
          }
            ∷ [];
    };
  }

  module _ (shown : read_id (show_id user_id) ≡ some user_id)
      (new_user_id : any (is_user user_id) s.tables.users ≡ false)
      (admitted : IsAdmitted server s.tables) where
    delete_added :
        (is_male : Bool) (birthdate : Bytes)
        → delete_user user_id (added_tables j auth sodium info.user_properties s is_male birthdate)
          ≡ s.tables
    unfolding delete_user insert_user
    delete_added is_male birthdate =
        rw
          (delete-append (is_user user_id) s.tables.users
            (new_user (profile_of j auth sodium info.user_properties is_male birthdate)
              (get_text (codes "password") info.user_properties) user_id)
            new_user_id (ground arith))
          refl

    -- The row of the user goes again.
    undo_user :
        (is_male : Bool) (birthdate : Bytes) (s' : Session server)
        → s'.tables ≡ added_tables j auth sodium info.user_properties s is_male birthdate
        → delete_row j auth sodium (show_id user_id) s' ≡ (ok tt, record s' { tables = s.tables })
    undo_user is_male birthdate s' h =
        let e : delete_user user_id s'.tables ≡ s.tables =
          ap (delete_user user_id) h ∙ delete_added is_male birthdate in
        delete_row-ok j auth sodium user_id shown s' (subst (IsAdmitted server) (sym e) admitted)
        ∙ ap (λ (db : Db). (ok tt, record s' { tables = db })) e

    -- The photo goes again.
    undo_photo :
        read_id (show_id photo_id) ≡ some photo_id
        → any (is_picture photo_id) s.tables.pictures ≡ false
        → (is_male : Bool) (birthdate : Bytes) (s' : Session server)
        → IsAdmitted server (added_tables j auth sodium info.user_properties s is_male birthdate)
        → s'.tables
          ≡ (with_photo j auth sodium info
              (added j auth sodium info.user_properties s is_male birthdate)).tables
        → delete_photo j auth sodium (show_id photo_id) s' ≡ (
          ok tt,
          record s' {
            tables = added_tables j auth sodium info.user_properties s is_male birthdate;
          },
        )
    unfolding delete_picture add_photo insert_user
    undo_photo shown_photo fresh is_male birthdate s' ok_db h =
        let e : delete_picture photo_id s'.tables
            ≡ added_tables j auth sodium info.user_properties s is_male birthdate =
          ap (delete_picture photo_id) h
          ∙ rw
              (delete-append (is_picture photo_id) s.tables.pictures
                (record {
                  id = photo_id;
                  photo_type = get_text (codes "photo_type") info.user_properties;
                  photo = info.binary_data;
                })
                fresh (ground arith))
              refl in
        delete_photo-ok j auth sodium photo_id shown_photo s'
          (subst (IsAdmitted server) (sym e) ok_db)
        ∙ ap (λ (db : Db). (ok tt, record s' { tables = db })) e

  -- The user is tied to the photo.
  tied :
      any (is_user user_id) s.tables.users ≡ false
      → (is_male : Bool) (birthdate : Bytes)
      → let s' =
          with_photo j auth sodium info
            (added j auth sodium info.user_properties s is_male birthdate) in
        record s' { tables = set_photo photo_id user_id s'.tables } ≡ registered is_male birthdate
  unfolding set_photo add_photo insert_user
  tied fresh is_male birthdate =
      rw
        (update-append (is_user user_id) (λ u. record u { photo_id = some photo_id }) s.tables.users
          (new_user (profile_of j auth sodium info.user_properties is_male birthdate)
            (get_text (codes "password") info.user_properties) user_id)
          fresh (ground arith))
        refl

  -- Where the two ids that the sequences give next are new and are read back from their texts, and the
  -- tables are admitted as they are, `addNewUser` either throws, and every row is as it was, whichever of its
  -- three transactions fails; or it returns the id of the user, and has added one user, with the
  -- texts of the form, the sex and the birthdate that are read and the id of the photo, and one photo,
  -- with the bytes and the type of the form.
  pub add_new_user-atomic :
      read_id (show_id user_id) ≡ some user_id
      → read_id (show_id photo_id) ≡ some photo_id
      → any (is_user user_id) s.tables.users ≡ false
      → any (is_picture photo_id) s.tables.pictures ≡ false
      → IsAdmitted server s.tables
      → Fails server s (add_new_user j auth sodium info s)
        ⊎ ((is_male : Bool) × (birthdate : Bytes) × (read_bool
                (get_text (codes "is_male") info.user_properties)
              ≡ some is_male)
            × (read_date (get_text (codes "birthdate") info.user_properties) ≡ some birthdate)
            × (add_new_user j auth sodium info s
                ≡ (ok (show_id user_id), registered is_male birthdate)))
  unfolding add_new_user try pure lift ◌>>=◌
  add_new_user-atomic shown shown_photo new_id new_photo admitted =
      elim (add_properties-cases j auth sodium info.user_properties s) [
        | inl (x, s', q, h) ↦ inl (x, s', rw q refl, h)
        | inr (is_male, birthdate, e, e', (q, a)) ↦
            let s1 = added j auth sodium info.user_properties s is_male birthdate in
            elim (add_new_photo-cases j auth sodium info s1) [
              | inl (x, s', f, h) ↦ inl (
                x,
                record s' { tables = s.tables },
                rw (q, f, undo_user shown new_id admitted is_male birthdate s' h) refl,
                refl,
              )
              | inr (f, b) ↦
                  elim (connect-cases j auth sodium user_id shown photo_id
                    (with_photo j auth sodium info s1) shown_photo) [
                      | inl (x, s', g, h) ↦ inl (
                        x,
                        record s' { tables = s.tables },
                        rw
                            (
                              q,
                              f,
                              g,
                              undo_photo shown new_id admitted shown_photo new_photo is_male
                                  birthdate s' a h,
                              undo_user shown new_id admitted is_male birthdate
                                  (record s' { tables = s1.tables }) refl,
                            )
                            refl,
                        refl,
                      )
                      | inr g ↦ inr (
                        is_male,
                        birthdate,
                        e,
                        e',
                        rw (q, f, g)
                            (ap (λ (x : Session server). (ok (show_id user_id), x))
                              (tied new_id is_male birthdate)),
                      )
                    ]
            ]
      ]
