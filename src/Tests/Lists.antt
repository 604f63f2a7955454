-- ===== src/Tests/Lists.antt =====
-- The theorems about photos and lists of posts over the database of the tests.
use photogram.Prelude.{none, ℕ, ◌≡◌, refl, ◌⊎◌, some, [], ◌∷◌}
use photogram.Outcome.{runtime_error, ok, throw}
use photogram.Text.{Bytes, codes}
use photogram.Text.StdMap.{StdMap, get_text}
use photogram.Action.{pure, lift, ◌>>=◌, try}
use photogram.Postgres.{Session, prepare_all, bind, exec_insert, commit, roll_back}
use photogram.DbClient.Tables.{insert_photo, insert_post}
use photogram.DbClient.{or_500, add_new_post}
use photogram.DbClient.Reads.{get_post_photo_by_id}
use photogram.DbClient.Photos.{posted, add_new_post-atomic, get_post_photo_by_id-add_new_post}
use photogram.Tests.Thread.{text_json}
use photogram.Tests.Database.{server, content, db, session}

abbrev form : StdMap Bytes
form =
    (codes "Content-Type", codes "image/gif")
    ∷ (codes "description", codes "sea")
    ∷ (codes "photo", codes "GIF")
    ∷ []

add_new_post-atomic_example :
    ((s' : Session server) × (add_new_post content 3 (codes "4") form session
        ≡ (throw (runtime_error "500"), s'))
      × (s'.tables ≡ db))
    ⊎ ((user : ℕ) × (photo_ref : ℕ) × (server.read_id (codes "4") ≡ some user)
        × (server.read_id (server.show_id 7) ≡ some photo_ref)
        × (server.violation (posted content 3 user 7 photo_ref 8 form db) ≡ none)
        × (add_new_post content 3 (codes "4") form session ≡ (
          ok tt,
          record session { tables = posted content 3 user 7 photo_ref 8 form db; ids = 9 },
        )))
add_new_post-atomic_example = add_new_post-atomic content 3 (codes "4") form session

posted_once : (add_new_post content 3 (codes "4") form session).0 ≡ ok tt
unfolding add_new_post or_500 roll_back bind exec_insert commit prepare_all pure lift try ◌>>=◌
    insert_photo insert_post
posted_once = refl

get_post_photo_by_id-add_new_post_example :
    (get_post_photo_by_id text_json content
      (server.show_id 7)
      (add_new_post content 3 (codes "4") form session).1).0
    ≡ ok (get_text (codes "photo") form, get_text (codes "Content-Type") form)
get_post_photo_by_id-add_new_post_example =
    get_post_photo_by_id-add_new_post content text_json 3 (codes "4") form session posted_once refl
      refl refl refl
