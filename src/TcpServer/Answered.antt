-- ===== src/TcpServer/Answered.antt =====
-- A connection whose operations end without an error is answered.
use photogram.Prelude.{
  ℕ, ◌≡◌, refl, sym, subst, ap, ◌∙◌, inl, inr, true, false, some, List, [], ◌∷◌, get_elem?,
}
use photogram.Outcome.{ok, Outcome-cases}
use photogram.Text.{Bytes, codes}
use photogram.Action.{Action, pure, lift, ◌>>=◌}
use photogram.FormResponse.{post, Beast}
use photogram.AnotherServerConnection.{
  BoostJson, ServerResponse, Pending, read, connect, write, resolve, form_request_get_id_by_access,
  check_accesstoken, check_step, on_resolve, on_connect, on_write, resolved, connected, written,
  received,
}
use photogram.AnotherServerConnection.Runs.{verdict}
use photogram.AnotherServerConnection.Given.{check_step-ids}
use photogram.TcpConnection.{ContentApi, handle_request, on_post_id}
use photogram.TcpConnection.Exchange.{
  Link, start, in_world, set_stage, begin, begin_check, shutdown, close_socket, checking, writing,
  handle_read, handle_write, on_check,
}
use photogram.TcpServer.{Event, read_done, checked, write_done, Server, run}
use photogram.TcpServer.Follows.{own, handler, Follows, run-Follows}

module _ (beast : Beast) (api : ContentApi beast) (j : BoostJson) where
  open beast use {Request, Response, method, field}
  open api use {World}

  -- The events of a request that is checked and answered, none with an error.
  abbrev pub exchange : ℕ → Request → ServerResponse → List (Event beast api j)
  exchange i request reply =
      read_done i false false request
      ∷ checked i (resolved false)
      ∷ checked i (connected false)
      ∷ checked i (written false)
      ∷ checked i (received false false reply)
      ∷ write_done i false false
      ∷ []

  module _ (i : ℕ) (request : Request) where
    abbrev origin : Bytes
    origin = field (codes "Origin") request

    abbrev callback : Bytes → Action World Response
    callback = on_post_id beast api request origin

    -- The connection while the operation `p` of its check is awaited.
    abbrev waits : Pending → Link beast api j
    waits p = record {
      stage = checking callback;
      check = record {
        pending = some p;
        callback = true;
        ids = [];
        request =
            form_request_get_id_by_access (field (codes "Authorization") request)
              (codes "127.0.0.1") (codes "/getIdForServerByAccess");
        is_open = true;
      };
      is_open = true;
      sent = [];
    }

    -- One step whose outcome does not depend on the database.
    step :
        (e : Event beast api j) (es : List (Event beast api j)) (l next l' : Link beast api j)
        → ((w : World) → (handler beast api j e (record { link = l; world = w })).1.link ≡ next)
        → Follows beast api j (e ∷ es) l l'
        → Follows beast api j es next l'
    step e es l next l' moves (w, w', n, h, f) =
        let q : n ≡ next = sym (ap (λ r. r.1.link) h) ∙ moves w in
        subst (λ n. Follows beast api j es n l') q f

    posted :
        method request ≡ post
        → (w : World)
        → (handle_read beast api j false false request
            (record { link = start beast api j; world = w })).1.link
          ≡ waits resolve
    unfolding handle_read in_world begin begin_check check_accesstoken handle_request shutdown pure
        ◌>>=◌
    posted m w = rw (m, handle_request) refl

    module _ (w : World) where
      resolves :
          (on_check beast api j
            (resolved false)
            (record { link = waits resolve; world = w })).1.link
          ≡ waits connect
      unfolding on_check check_step on_resolve pure lift ◌>>=◌
      resolves = refl

      connects :
          (on_check beast api j
            (connected false)
            (record { link = waits connect; world = w })).1.link
          ≡ waits write
      unfolding on_check check_step on_connect pure lift ◌>>=◌
      connects = refl

      writes :
          (on_check beast api j (written false) (record { link = waits write; world = w })).1.link
          ≡ waits read
      unfolding on_check check_step on_write pure lift ◌>>=◌
      writes = refl

    -- The callback is called, and its response is on the way.
    module _ (reply : ServerResponse) (id : Bytes) (v : verdict j reply ≡ ok id) where
      replies :
          (w w' : World) (next : Link beast api j)
          → on_check beast api j
              (received false false reply)
              (record { link = waits read; world = w })
            ≡ (ok tt, record { link = next; world = w' })
          → (response : Response) × ((callback id w).0 ≡ ok response)
            × (next.stage ≡ writing response)
            × (next.sent ≡ [])
      unfolding on_check in_world set_stage lift ◌>>=◌
      replies w w' next h =
          let g =
            check_step-ids j reply id (waits read).check refl
              (record { callback = refl; ids = refl }) v in
          let h' = rw g at h in
          elim (Outcome-cases (callback id w).0) [
            | inl (response, q) ↦
                let h'' = rw q at h' in
                (response, q, ap (λ r. r.1.link.stage) (sym h''), ap (λ r. r.1.link.sent) (sym h''))
            | inr (inl (x, q)) ↦ cc (rw q at h')
            | inr (inr q) ↦ cc (rw q at h')
          ]

      -- The write ends.
      write_ends :
          (w : World) (l : Link beast api j) (response : Response)
          → l.stage ≡ writing response
          → l.sent ≡ []
          → let l' =
              (handle_write beast api j false false (record { link = l; world = w })).1.link in
            (l'.sent ≡ response ∷ []) × (l'.is_open ≡ false)
      unfolding handle_write shutdown close_socket pure ◌>>=◌
      write_ends w l response e n = rw e (rw n refl, refl)

      -- The end of the connection: its response was written, and its socket is closed.
      pub record Answered (l : Link beast api j) : Type 0 where
        pub world : World
        pub response : Response
        pub called : (callback id world).0 ≡ ok response
        pub sent : l.sent ≡ response ∷ []
        pub closed : l.is_open ≡ false

      last_two :
          (l' : Link beast api j)
          → Follows beast api j
              (checked i (received false false reply) ∷ write_done i false false ∷ [])
              (waits read)
              l'
          → Answered l'
      last_two l' (w, w', next, h, (v', v'', last, k, e)) =
          let (response, c, stage, none_sent) = replies w w' next h in
          let (s, o) = write_ends v' next response stage none_sent in
          let q : (handle_write beast api j false false (record { link = next; world = v' })).1.link
              ≡ l' =
            ap (λ r. r.1.link) k ∙ sym e in
          record {
            world = w;
            response = response;
            called = c;
            sent = subst (λ l. l.sent ≡ response ∷ []) q s;
            closed = subst (λ l. l.is_open ≡ false) q o;
          }

      Follows-Answered :
          (l' : Link beast api j)
          → method request ≡ post
          → Follows beast api j (exchange i request reply) (start beast api j) l'
          → Answered l'
      Follows-Answered l' m f =
          let es = checked i (received false false reply) ∷ write_done i false false ∷ [] in
          let es1 = checked i (written false) ∷ es in
          let es2 = checked i (connected false) ∷ es1 in
          let es3 = checked i (resolved false) ∷ es2 in
          let f3 =
            step (read_done i false false request) es3 (start beast api j) (waits resolve) l'
              (posted m) f in
          let f2 =
            step (checked i (resolved false)) es2 (waits resolve) (waits connect) l' resolves f3 in
          let f1 =
            step (checked i (connected false)) es1 (waits connect) (waits write) l' connects f2 in
          last_two l' (step (checked i (written false)) es (waits write) (waits read) l' writes f1)

      -- Where the operations of a POST end without an error, the auth server replies with a verdict, and
      -- every handler returns, also those of the other connections in between, one response is written
      -- to the connection, the one that the callback gave for the verdict, and its socket is closed.
      pub run-Answered :
          (es : List (Event beast api j)) (s : Server beast api j)
          → method request ≡ post
          → own beast api j i es ≡ exchange i request reply
          → get_elem? s.links i ≡ some (start beast api j)
          → (run beast api j es s).0 ≡ ok tt
          → (l : Link beast api j) × (get_elem? (run beast api j es s).1.links i ≡ some l)
            × Answered l
      run-Answered es s m e g r =
          let (l, g', f) = run-Follows beast api j i es s (start beast api j) g r in
          (
            l,
            g',
            Follows-Answered l m (subst (λ es. Follows beast api j es (start beast api j) l) e f),
          )
