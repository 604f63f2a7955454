-- ===== src/TcpServer/Served.antt =====
-- The tables of the content server under its connections, in whatever order their handlers run.
use photogram.Prelude.{
  ℕ, ◌≡◌, refl, sym, subst, ap, ◌∙◌, inl, inr, Bool, false, some, List, ◌==◌, Bool-cases, get_elem?,
}
use photogram.Outcome.{ok}
use photogram.Text.{Bytes, codes, text_eq}
use photogram.Action.{pure}
use photogram.Json.{JsonLib}
use photogram.FormResponse.{Beast}
use photogram.Postgres.{Session}
use photogram.DbClient.{ContentServer, open_connection}
use photogram.DbClient.Tables.{Db}
use photogram.DbClient.Posts.{HasOwnTexts}
use photogram.DbClient.Kept.{HasSchema, IsSound}
use photogram.AnotherServerConnection.{BoostJson, ServerResponse, received}
use photogram.AnotherServerConnection.Runs.{verdict}
use photogram.TcpConnection.{on_post_id}
use photogram.TcpConnection.Served.{served}
use photogram.TcpConnection.Reading.{on_get_id-tables, Keeps-open_connection}
use photogram.TcpConnection.Kept.{open_connection-Keeps, on_post_id-Keeps}
use photogram.TcpConnection.Explained.{Holds, IsCallback, get_callback, post_callback}
use photogram.TcpServer.{Event, checked, main}
use photogram.TcpServer.Explained.{WasAsked, WasGiven, permitted, begun, main-Explained}

module _ (j : JsonLib) (content : ContentServer) (beast : Beast) (now : Session content.server → ℕ)
    (boost : BoostJson) where
  open content use {server}

  abbrev pub Events : Type 0
  Events = List (Event beast (served j content beast now) boost)

  -- The database behind the handlers.
  abbrev pub after : Bool → Events → Session server → Session server
  after listens es w =
      let api = served j content beast now in
      (main beast api boost listens es (begun beast api boost w)).1.world

  module _ (P : Session server → Type 0) (opens : Holds P (open_connection content))
      (listens : Bool) (es : Events)
      (calls : (i : ℕ) (callback : _) (id : Bytes)
        → IsCallback beast
            (served j content beast now)
            boost
            (WasAsked beast (served j content beast now) boost es i)
            callback
        → WasGiven beast (served j content beast now) boost es i id
        → Holds P (callback id)) where
    after-P : Holds P (λ w. (ok tt, after listens es w))
    after-P w h =
        let api = served j content beast now in
        (main-Explained beast api boost (WasAsked beast api boost es) (WasGiven beast api boost es)
          P opens calls listens es (begun beast api boost w) (permitted beast api boost P es)
          (record { links = λ k x r. cc; world = h })).world

  module _ (schema : HasSchema content) (own : HasOwnTexts server) where
    callback-IsSound :
        (Asked : beast.Request → Type 0) (callback : _) (id : Bytes)
        → IsCallback beast (served j content beast now) boost Asked callback
        → Holds (λ s. IsSound s.tables) (callback id)
    callback-IsSound Asked callback id (get_callback request asked) s h =
        subst IsSound (sym (on_get_id-tables j content beast now request _ id s)) h
    callback-IsSound Asked callback id (post_callback request asked) s h =
        (on_post_id-Keeps j content beast schema own now request _ id).at s h

    -- In whatever order the handlers of the connections run, also where one throws: every counter is the
    -- number of likes of its post, nobody likes a post twice, every like is of a post that is there, and an
    -- id is the id of one post, where this was so before. The schema of the database holds to the last two
    -- and begins the counter of a post at 0 or NULL, and no error of the database has the text "Bad request".
    pub main-IsSound :
        (listens : Bool) (es : Events) (w : Session server)
        → IsSound w.tables
        → IsSound (after listens es w).tables
    main-IsSound listens es w h =
        after-P (λ s. IsSound s.tables)
          (λ s. (open_connection-Keeps j content beast schema own).at s) listens es
          (λ i callback id k a. callback-IsSound _ callback id k) w h

  refused_post :
      (request : beast.Request) (address id : Bytes) (reply : ServerResponse)
      → reply.result == 200 ≡ false
      → verdict boost reply ≡ ok id
      → (s : Session server)
      → (on_post_id beast (served j content beast now) request address id s).1 ≡ s
  unfolding on_post_id pure text_eq
  refused_post request address id reply r v s = elim (Bool-cases (reply.result == 401)) [
    | inl e ↦ let q : id ≡ codes "unauthorized" = cc (rw (r, e) at v) in rw q refl
    | inr e ↦ elim (Bool-cases (reply.result == 400)) [
      | inl e' ↦ let q : id ≡ codes "bad_request" = cc (rw (r, e, e') at v) in rw q refl
      | inr e' ↦ let q : id ≡ codes "internal_server_error" = cc (rw (r, e, e') at v) in rw q refl
    ]
  ]

  module _ (es : Events)
      (refused : (n i : ℕ) (d : Bool) (reply : ServerResponse)
        → get_elem? es n ≡ some (checked i (received false d reply))
        → reply.result == 200 ≡ false) where
    callback-tables :
        (tables : Db) (i : ℕ) (callback : _) (id : Bytes)
        → IsCallback beast
            (served j content beast now)
            boost
            (WasAsked beast (served j content beast now) boost es i)
            callback
        → WasGiven beast (served j content beast now) boost es i id
        → Holds (λ s. s.tables ≡ tables) (callback id)
    callback-tables tables i callback id (get_callback request asked) given s h =
        on_get_id-tables j content beast now request _ id s ∙ h
    callback-tables tables i callback id (post_callback request asked) (n, d, reply, e, v) s h =
        ap (λ s. s.tables) (refused_post request _ id reply (refused n i d reply e) v s) ∙ h

    -- Where no reply of the auth server has the status 200, no table of the content server changes, in
    -- whatever order the handlers run, and whatever the clients send.
    pub main-tables : (listens : Bool) (w : Session server) → (after listens es w).tables ≡ w.tables
    main-tables listens w =
        after-P (λ s. s.tables ≡ w.tables)
          (λ s. (Keeps-open_connection j content beast now w.tables).at s) listens es
          (callback-tables w.tables) w refl
