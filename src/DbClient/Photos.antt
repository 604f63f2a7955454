-- ===== src/DbClient/Photos.antt =====
-- `addNewPost`, `delPostPhotoById` and `getPostPhotoById` of content_server_src/DBclient/DBclient.cpp.
use photogram.Prelude.{
  true, ◌++◌, none, ℕ, ◌≡◌, refl, ◌⊎◌, inl, inr, some, Option-cases, [], arith, ◌∷◌, false,
}
use photogram.Outcome.{runtime_error, ok, throw}
use photogram.Text.{Bytes, codes}
use photogram.Text.StdMap.{StdMap, get_text}
use photogram.Json.{JsonLib}
use photogram.Action.{pure, lift, ◌>>=◌, try}
use photogram.Rows.{any, select-append_only}
use photogram.Postgres.{
  prepare_all, Session, bind, exec_prepared1, exec_insert, commit, roll_back, work,
}
use photogram.Postgres.Statements.{prepare_all-cases}
use photogram.WorkWithPostgreSql.Tables.{is_picture}
use photogram.DbClient.Tables.{Db, insert_photo, new_post, insert_post, photo_by_id}
use photogram.DbClient.{ContentServer, post_statements, or_500, del_post_photo_by_id, add_new_post}
use photogram.DbClient.Reads.{get_post_photo_by_id}

module _ (content : ContentServer) where
  open content use {server, default_count}
  open server use {prepares, read_id, show_id, next_id, violation, commit_error}

  -- `delPostPhotoById` never returns.
  pub del_post_photo_by_id-throws :
      (photo_id : Bytes) (s : Session server)
      → del_post_photo_by_id content photo_id s ≡ (throw (runtime_error "500"), s)
  unfolding del_post_photo_by_id or_500 work roll_back lift try ◌>>=◌
  del_post_photo_by_id-throws photo_id s =
      elim (prepare_all-cases server (codes "delPostPhotoById" ∷ []) s) [
        | inl e ↦ rw e refl
        | inr e ↦ rw e refl
      ]

  -- The tables with a new post of a user and its photo.
  abbrev pub posted : ℕ → ℕ → ℕ → ℕ → ℕ → StdMap Bytes → Db → Db
  posted now user photo photo_ref post property_map db = record db {
    photos =
        db.photos
        ++ record {
          id = photo;
          photo_type = get_text (codes "Content-Type") property_map;
          photo = get_text (codes "photo") property_map;
        }
          ∷ [];
    posts =
        db.posts
        ++ record {
          id = post;
          user_id = user;
          date_posted = now;
          like_count = default_count;
          description = get_text (codes "description") property_map;
          photo_id = some photo_ref;
        }
          ∷ [];
  }

  -- `addNewPost` throws "500", and no table is changed; or it returns, and there is one photo more, and
  -- one post more, of the user that the text reads as, both with the texts that the form gave. The post
  -- has the photo that the text of the new photo's id reads back as, and the new tables violate no
  -- constraint of the schema.
  pub add_new_post-atomic :
      (now : ℕ) (user_id : Bytes) (property_map : StdMap Bytes) (s : Session server)
      → let (photo, ids) = next_id (codes "post_photos") s.ids in
        let (post, ids') = next_id (codes "posts") ids in
        ((s' : Session server) × (add_new_post content now user_id property_map s
            ≡ (throw (runtime_error "500"), s'))
          × (s'.tables ≡ s.tables))
        ⊎ ((user : ℕ) × (photo_ref : ℕ) × (read_id user_id ≡ some user)
            × (read_id (show_id photo) ≡ some photo_ref)
            × (violation (posted now user photo photo_ref post property_map s.tables) ≡ none)
            × (add_new_post content now user_id property_map s ≡ (
              ok tt,
              record s {
                tables = posted now user photo photo_ref post property_map s.tables;
                ids = ids';
              },
            )))
  unfolding add_new_post or_500 roll_back bind exec_insert commit pure lift try ◌>>=◌ insert_photo
      insert_post
  add_new_post-atomic now user_id property_map s =
      let (photo, ids) = next_id (codes "post_photos") s.ids in
      let (post, ids') = next_id (codes "posts") ids in
      let description = get_text (codes "description") property_map in
      let db =
        insert_photo (get_text (codes "Content-Type") property_map)
          (get_text (codes "photo") property_map) photo s.tables in
      let s1 = record s { ids = ids } in
      let s2 = record s { ids = ids' } in
      let undo = del_post_photo_by_id-throws (show_id photo) in
      elim (prepare_all-cases server post_statements s) [
        | inr d ↦ inl (s, rw d refl, refl)
        | inl d ↦ elim (Option-cases (violation db)) [
          | inr (t, v) ↦ inl (s1, rw (d, v) refl, refl)
          | inl v ↦ elim (Option-cases (read_id user_id)) [
            | inl e ↦ inl (s1, rw (d, v, e, undo s1) refl, refl)
            | inr (user, u) ↦ elim (Option-cases (read_id (show_id photo))) [
              | inl e ↦ inl (s1, rw (d, v, u, e, undo s1) refl, refl)
              | inr (photo_ref, p) ↦
                  let db' =
                    insert_post (new_post default_count user now description photo_ref) post db in
                  elim (Option-cases (violation db')) [
                    | inr (t, w) ↦ inl (s2, rw (d, v, u, p, w, undo s2) refl, refl)
                    | inl w ↦ elim (Option-cases (commit_error db')) [
                      | inr (t, c) ↦ inl (s2, rw (d, v, u, p, w, c, undo s2) refl, refl)
                      | inl c ↦ inr (user, photo_ref, u, p, w, rw (d, v, u, p, w, c) refl)
                    ]
                  ]
            ]
          ]
        ]
      ]

  -- Where `addNewPost` has returned, the statement that reads a photo is prepared, the next commit is
  -- taken, and the id of the new photo was new and is read back from its text, `getPostPhotoById` behind
  -- it returns the photo and the type that the form gave.
  pub get_post_photo_by_id-add_new_post :
      (j : JsonLib) (now : ℕ) (user_id : Bytes) (property_map : StdMap Bytes) (s : Session server)
      → (add_new_post content now user_id property_map s).0 ≡ ok tt
      → prepares (codes "getPostPhotoById") ≡ true
      → commit_error (add_new_post content now user_id property_map s).1.tables ≡ none
      → let photo = (next_id (codes "post_photos") s.ids).0 in
        read_id (show_id photo) ≡ some photo
        → any (is_picture photo) s.tables.photos ≡ false
        → (get_post_photo_by_id j content
            (show_id photo)
            (add_new_post content now user_id property_map s).1).0
          ≡ ok (get_text (codes "photo") property_map, get_text (codes "Content-Type") property_map)
  unfolding get_post_photo_by_id or_500 work roll_back bind exec_prepared1 prepare_all commit pure
      lift try ◌>>=◌ photo_by_id
  get_post_photo_by_id-add_new_post j now user_id property_map s returned prepared c p fresh =
      let photo = (next_id (codes "post_photos") s.ids).0 in
      let one =
        select-append_only (is_picture photo) s.tables.photos
          (record {
            id = photo;
            photo_type = get_text (codes "Content-Type") property_map;
            photo = get_text (codes "photo") property_map;
          })
          fresh (ground arith) in
      elim (add_new_post-atomic now user_id property_map s) [
        | inl (s', q, h) ↦ cc (rw q at returned)
        | inr (user, photo_ref, u, p', v, q) ↦
            let c' = rw q at c in rw (prepared, p) (rw (q, one, c') refl)
      ]
