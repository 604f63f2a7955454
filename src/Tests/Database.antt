-- ===== src/Tests/Database.antt =====
-- The theorems about posts and likes over a small concrete database of the content server.
use photogram.Prelude.{
  ℕ, ◌+◌, ◌-◌, ◌≡◌, refl, ◌⊎◌, String, true, false, Option, none, some, [], ◌∷◌, arith,
  if◌then◌else◌,
}
use photogram.Outcome.{runtime_error, ok, throw}
use photogram.Text.{Bytes, codes}
use photogram.Action.{pure, lift, ◌>>=◌, try}
use photogram.Postgres.{
  Server, Session, prepare_all, bind, exec_prepared0, exec_prepared1, commit, roll_back, work,
}
use photogram.Postgres.Statements.{IsServerText}
use photogram.DbClient.Tables.{pos, Db, exists_like, exists_post, delete_post, delete_likes_of}
use photogram.DbClient.{
  ContentServer, or_500, toggle_like, like_clicked, delete_own, del_post_by_id,
}
use photogram.DbClient.Likes.{IsCounted}
use photogram.DbClient.Clicks.{toggled, like_clicked-atomic}
use photogram.DbClient.Posts.{HasOwnTexts, del_post_by_id-atomic, without_post}
use text.Mathlib.Text.{◌==◌ as str_eq}

abbrev read_digit : Bytes → Option ℕ
read_digit [] = none
read_digit (d ∷ []) = some (d - 48)
read_digit (d ∷ e ∷ t) = none

abbrev pub server : Server Db
server = record {
  prepares = λ name. true;
  read_id = read_digit;
  show_id = λ n. (n + 48) ∷ [];
  bad_input = λ t. "invalid input syntax";
  unexpected_rows = λ n. "unexpected rows";
  Sequences = ℕ;
  next_id = λ table n. (n, n + 1);
  violation = λ db. none;
  commit_error = λ db. none;
}

abbrev pub content : ContentServer
content = record {
  server = server;
  connects = true;
  is_open = true;
  read_count = read_digit;
  show_timestamp = λ n. (n + 48) ∷ [];
  default_count = none;
  newest_first = λ limit offset rows. rows;
}

no_text : (t : String) → IsServerText server t → str_eq t "Bad request" ≡ false
no_text t (IsServerText.violated db e) = cc
no_text t (IsServerText.not_committed db e) = cc

server-HasOwnTexts : HasOwnTexts server
server-HasOwnTexts = record { bad_inputs = λ t. refl; texts = no_text }

-- User 5 likes the post 1 of user 3, who has the friend 4.
abbrev pub db : Db
db = record {
  posts =
      record {
        id = 1;
        user_id = 3;
        date_posted = 2;
        like_count = some (pos 1);
        description = codes "cat";
        photo_id = some 6;
      }
      ∷ record {
        id = 2;
        user_id = 4;
        date_posted = 1;
        like_count = none;
        description = codes "dog";
        photo_id = none;
      }
      ∷ [];
  likes = record { post_id = 1; user_id = 5 } ∷ [];
  photos = record { id = 6; photo_type = codes "image/png"; photo = codes "PNG" } ∷ [];
  users =
      record {
        id = 3;
        nickname = codes "ann";
        first_name = [];
        last_name = [];
        email = [];
        is_male = false;
        birthdate = [];
        password = [];
        photo_id = none;
      }
      ∷ record {
        id = 4;
        nickname = codes "bob";
        first_name = [];
        last_name = [];
        email = [];
        is_male = true;
        birthdate = [];
        password = [];
        photo_id = some 1;
      }
      ∷ [];
  friends = record { user_id = 3; friend_id = 4 } ∷ [];
}

abbrev pub session : Session server
session = record { tables = db; ids = 7 }

pub db-IsCounted : IsCounted db
db-IsCounted = record { counted = (refl, (refl, tt)); once = λ post user. ground arith }

like_clicked-atomic_example :
    (like_clicked content (codes "1") (codes "5") session ≡ (throw (runtime_error "500"), session))
    ⊎ ((post : ℕ) × (user : ℕ) × (server.read_id (codes "1") ≡ some post)
        × (server.read_id (codes "5") ≡ some user)
        × (like_clicked content (codes "1") (codes "5") session
            ≡ (ok tt, record session { tables = toggled post user db })))
like_clicked-atomic_example = like_clicked-atomic content (codes "1") (codes "5") session

clicked_once : (like_clicked content (codes "2") (codes "5") session).0 ≡ ok tt
unfolding like_clicked or_500 work roll_back bind exec_prepared0 exec_prepared1 commit toggle_like
    prepare_all pure lift try ◌>>=◌ exists_like
clicked_once = refl

del_post_by_id-atomic_example :
    (del_post_by_id content (codes "1") (codes "4") session
      ≡ (throw (runtime_error "500"), session))
    ⊎ ((post : ℕ) × (user : ℕ) × (server.read_id (codes "1") ≡ some post)
        × (server.read_id (codes "4") ≡ some user)
        × (del_post_by_id content (codes "1") (codes "4") session ≡ (
            if exists_post post user db
            then (ok tt, record session { tables = without_post post db })
            else (throw (runtime_error "400"), session))))
unfolding exists_post delete_post delete_likes_of
del_post_by_id-atomic_example =
    del_post_by_id-atomic content (codes "1") (codes "4") session server-HasOwnTexts

deleted_once : (del_post_by_id content (codes "1") (codes "3") session).0 ≡ ok tt
unfolding del_post_by_id work roll_back bind exec_prepared0 exec_prepared1 commit delete_own
    exists_post prepare_all pure lift try ◌>>=◌
deleted_once = refl
