-- ===== src/Tests/Requests.antt =====
-- A sequence of requests over the database of the tests, with the keys of its schema.
use photogram.Prelude.{
  ℕ, ◌≤◌, ◌≡◌, refl, Bool, true, false, ◌||◌, Option, none, some, List, [], ◌∷◌, arith, All, String,
  ◌==◌, Bool-cases, inl, inr, if◌then◌else◌,
}
use photogram.Rows.{any, count_where, any-count_where}
use photogram.Postgres.{Server, Session}
use photogram.Postgres.Statements.{IsServerText}
use photogram.DbClient.Tables.{Post, Like, Db, is_post}
use photogram.DbClient.{ContentServer}
use photogram.DbClient.Posts.{HasOwnTexts}
use photogram.DbClient.Kept.{HasKeys, HasSchema, IsSound}
use photogram.Tests.Database.{server, content, db, db-IsCounted}
use text.Mathlib.Text.{◌==◌ as str_eq}

abbrev has_twin : List Post → Bool
has_twin [] = false
has_twin (p ∷ ps) = any (is_post p.id) ps || has_twin ps

abbrev has_stray : List Post → List Like → Bool
has_stray posts [] = false
has_stray posts (l ∷ ls) = if any (is_post l.post_id) posts then has_stray posts ls else true

abbrev key_error : Bool → Option String
key_error true = some "violates a key"
key_error false = none

abbrev pub keyed_server : Server Db
keyed_server = record server {
  violation = λ db. key_error (has_twin db.posts || has_stray db.posts db.likes);
}

abbrev pub keyed_content : ContentServer
keyed_content = record content { server = keyed_server }

twins_single :
    (posts : List Post) (id : ℕ) → has_twin posts ≡ false → count_where (is_post id) posts ≤ 1
twins_single [] id h = omega arith
twins_single (p ∷ ps) id h = elim (Bool-cases (any (is_post p.id) ps)) [
  | inl e ↦ cc (rw e at h)
  | inr e ↦ elim (Bool-cases (p.id == id)) [
    | inl d ↦
        let same : p.id ≡ id = ground arith in
        rw (d, any-count_where (is_post id) ps (rw same at e)) (omega arith)
    | inr d ↦ rw d (twins_single ps id (rw e at h))
  ]
]

strays_known :
    (posts : List Post) (likes : List Like)
    → has_stray posts likes ≡ false
    → All (λ l. any (is_post l.post_id) posts ≡ true) likes
strays_known posts [] h = tt
strays_known posts (l ∷ ls) h = elim (Bool-cases (any (is_post l.post_id) posts)) [
  | inl e ↦ (e, strays_known posts ls (rw e at h))
  | inr e ↦ cc (rw e at h)
]

keys_kept : (db : Db) → keyed_server.violation db ≡ none → HasKeys db
keys_kept db h = elim (Bool-cases (has_twin db.posts)) [
  | inl e ↦ cc (rw e at h)
  | inr e ↦ elim (Bool-cases (has_stray db.posts db.likes)) [
    | inl d ↦ cc (rw (e, d) at h)
    | inr d ↦ record {
      known = strays_known db.posts db.likes d;
      single = λ id. twins_single db.posts id e;
    }
  ]
]

pub keyed_content-HasSchema : HasSchema keyed_content
keyed_content-HasSchema = record { keys = keys_kept; default_zero = refl }

key_text : (b : Bool) (t : String) → key_error b ≡ some t → str_eq t "Bad request" ≡ false
key_text true t h = let same : "violates a key" ≡ t = cc h in rw (← same) refl
key_text false t h = cc h

other_text : (t : String) → IsServerText keyed_server t → str_eq t "Bad request" ≡ false
other_text t (IsServerText.violated db e) = key_text _ t e
other_text t (IsServerText.not_committed db e) = cc e

pub keyed_server-HasOwnTexts : HasOwnTexts keyed_server
keyed_server-HasOwnTexts = record { bad_inputs = λ t. refl; texts = other_text }

abbrev pub keyed_session : Session keyed_server
keyed_session = record { tables = db; ids = 7 }

pub db-IsSound : IsSound db
db-IsSound = record { counted = db-IsCounted; keyed = keys_kept db refl }
