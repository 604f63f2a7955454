-- ===== src/TcpConnection/Kept.antt =====
-- The tables of the content server behind any sequence of requests.
use photogram.Prelude.{ℕ, Bool, true, false, sym, subst, List, [], ◌∷◌, if◌then◌else◌}
use photogram.Text.{Bytes}
use photogram.Text.StdMap.{StdMap}
use photogram.Json.{JsonLib}
use photogram.FormResponse.{Beast}
use photogram.Postgres.{Session}
use photogram.Postgres.Keeps.{Keeps, read_rules}
use photogram.DbClient.{ContentServer, open_connection, add_new_post}
use photogram.DbClient.Posts.{HasOwnTexts}
use photogram.DbClient.Kept.{
  HasSchema, IsSound, like_clicked-IsSound, del_post_by_id-IsSound, add_new_post-IsSound,
}
use photogram.TcpConnection.{post_target, post_answer, on_get_id, on_post_id}
use photogram.TcpConnection.Served.{served}
use photogram.TcpConnection.Reading.{on_get_id-tables}

-- A request whose token was checked: what the check said, and when.
pub record Checked (beast : Beast) : Type 0 where
  pub is_post : Bool
  pub request : beast.Request
  pub address : Bytes
  pub id : Bytes
  pub now : ℕ

module _ (j : JsonLib) (content : ContentServer) (beast : Beast) where
  open content use {server}

  -- The callback of the check is called.
  abbrev pub after_check : Checked beast → Session server → Session server
  after_check r s =
      if r.is_post
      then (on_post_id beast (served j content beast (λ s. r.now)) r.request r.address r.id s).1
      else (on_get_id beast (served j content beast (λ s. r.now)) r.request r.address r.id s).1

  abbrev pub after_checks : List (Checked beast) → Session server → Session server
  after_checks [] s = s
  after_checks (r ∷ rs) s = after_checks rs (after_check r s)

  module _ (schema : HasSchema content) (own : HasOwnTexts server) where
    pub open_connection-Keeps : Keeps server IsSound (open_connection content)
    unfolding open_connection
    open_connection-Keeps = search read_rules

    new_post-Keeps :
        (now : Session server → ℕ) (user_id : Bytes) (property_map : StdMap Bytes)
        → Keeps server IsSound (λ s. add_new_post content (now s) user_id property_map s)
    new_post-Keeps now user_id property_map = record {
      at = λ s h. (add_new_post-IsSound content schema own (now s) user_id property_map).at s h;
    }

    pub on_post_id-Keeps :
        (now : Session server → ℕ) (request : beast.Request) (address id : Bytes)
        → Keeps server IsSound (on_post_id beast (served j content beast now) request address id)
    unfolding on_post_id post_answer post_target
    on_post_id-Keeps now request address id =
        search
          (
            read_rules,
            open_connection-Keeps,
            like_clicked-IsSound content schema own,
            del_post_by_id-IsSound content schema own,
            new_post-Keeps now,
          )
          depth 16

    after_check-IsSound :
        (is_post : Bool) (request : beast.Request) (address id : Bytes) (now : ℕ)
        (s : Session server)
        → IsSound s.tables
        → IsSound
            (after_check
              (record {
                is_post = is_post;
                request = request;
                address = address;
                id = id;
                now = now;
              })
              s).tables
    after_check-IsSound true request address id now s h =
        (on_post_id-Keeps (λ s. now) request address id).at s h
    after_check-IsSound false request address id now s h =
        subst IsSound (sym (on_get_id-tables j content beast (λ s. now) request address id s)) h

    -- Behind any sequence of requests, whatever each is answered, every counter is the number of likes of
    -- its post, nobody likes a post twice, every like is of a post that is there, and an id is the id of
    -- one post, where this was so before. The schema of the database holds to the last two and begins the
    -- counter of a post at 0 or NULL, and no error of the database has the text "Bad request".
    pub after_checks-IsSound :
        (rs : List (Checked beast)) (s : Session server)
        → IsSound s.tables
        → IsSound (after_checks rs s).tables
    after_checks-IsSound [] s h = h
    after_checks-IsSound (r ∷ rs) s h =
        after_checks-IsSound rs (after_check r s)
          (after_check-IsSound r.is_post r.request r.address r.id r.now s h)
