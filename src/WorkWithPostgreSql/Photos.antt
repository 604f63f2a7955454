-- ===== src/WorkWithPostgreSql/Photos.antt =====
-- `updateProfilePhoto` and the photo that is read behind it (auth_server_src/WorkWithPostgreSQL.cpp).
use photogram.Prelude.{ℕ, ◌≡◌, refl, ap, ◌∙◌, none, some, [], ◌∷◌, map}
use photogram.Outcome.{ok}
use photogram.Text.{Bytes, codes}
use photogram.Text.StdMap.{get_text}
use photogram.Json.{JsonLib}
use photogram.HttpDef.{PostTInfo}
use photogram.HashTools.{Sodium}
use photogram.Action.{pure, lift, ◌>>=◌, try}
use photogram.Rows.{select-update}
use photogram.Postgres.{Session, bind, exec_prepared1, commit, roll_back, work}
use photogram.Postgres.Returned.{
  Returns, try-Returns, bind-Returns, exec_prepared0-Returns, work-Returns,
}
use photogram.WorkWithPostgreSql.Tables.{
  User, Picture, is_picture, is_photo, photo_of, by_id, by_nickname, picture_by_id, update_picture,
}
use photogram.WorkWithPostgreSql.{AuthServer}
use photogram.WorkWithPostgreSql.Queries.{get_profile_photo}
use photogram.WorkWithPostgreSql.Updates.{update_photo, update_profile_photo}

module _ (j : JsonLib) (auth : AuthServer) (sodium : Sodium) where
  open auth use {server, read_text}
  open server use {read_id, show_id, commit_error}

  update_profile_photo-Returns :
      (info : PostTInfo j.Json) (id : Bytes) (s s' : Session server)
      → Returns server (update_profile_photo j auth sodium info id) s tt s'
      → (user : ℕ) × (read_id id ≡ some user)
        × (s' ≡ record s {
          tables =
              update_picture
                (get_text (codes "photo_type") info.user_properties)
                info.binary_data
                user
                s.tables;
        })
  unfolding update_profile_photo update_photo lift
  update_profile_photo-Returns info id s s' h =
      let h0 = try-Returns server _ _ s s' tt (λ e s1. refl) h in
      let h1 = try-Returns server _ _ s s' tt (λ e s1. refl) h0 in
      let (user, r, k) = bind-Returns server _ _ _ s s' tt (work-Returns server _ s s' tt h1) in
      (user, r, exec_prepared0-Returns server _ s s' k)

  -- Behind an update of a profile's photo that returns, the photo that is read by the nickname is the
  -- one of the form, with the type of the form: where the nickname is taken by the database, one user
  -- has it, the id of the update reads as an id that only this user has, the user has a photo, one
  -- picture has its id, which is read back from its text, and the commit is taken.
  pub get_profile_photo-update_profile_photo :
      (info : PostTInfo j.Json) (id nickname name : Bytes) (s s' : Session server) (user : ℕ)
      (u : User) (photo : ℕ) (picture : Picture)
      → Returns server (update_profile_photo j auth sodium info id) s tt s'
      → read_id id ≡ some user
      → read_text nickname ≡ some name
      → by_nickname name s.tables ≡ u ∷ []
      → by_id user s.tables ≡ u ∷ []
      → u.photo_id ≡ some photo
      → read_id (show_id photo) ≡ some photo
      → picture_by_id photo s.tables ≡ picture ∷ []
      → commit_error s'.tables ≡ none
      → (get_profile_photo j auth sodium nickname s').0
        ≡ ok (info.binary_data, get_text (codes "photo_type") info.user_properties)
  unfolding get_profile_photo by_nickname by_id picture_by_id update_picture bind exec_prepared1
      commit roll_back work pure lift try ◌>>=◌
  get_profile_photo-update_profile_photo info id nickname name s s' user u photo picture h r t n i
        has back one c =
      let (user', r', e) = update_profile_photo-Returns info id s s' h in
      let same : user' ≡ user = cc (r, r') in
      let owned : photo_of (by_id user s.tables) ≡ some photo = ap photo_of i ∙ has in
      let type = get_text (codes "photo_type") info.user_properties in
      let e' = rw (same, owned) at e in
      let new : Picture → Picture = λ p. record p { photo_type = type; photo = info.binary_data } in
      let n' : by_nickname name s'.tables ≡ u ∷ [] =
        ap (λ (x : Session server). by_nickname name x.tables) e ∙ n in
      let one' : picture_by_id photo s'.tables ≡ new picture ∷ [] =
        ap (λ (x : Session server). picture_by_id photo x.tables) e'
        ∙ select-update (is_picture photo) (is_photo (some photo)) new s.tables.pictures (λ p. refl)
            (λ p q. q)
        ∙ ap (map new) one in
      rw (t, n', has, back, one', c) refl
