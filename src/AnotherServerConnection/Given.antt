-- ===== src/AnotherServerConnection/Given.antt =====
-- What one handler of a check gives its callback, also where it throws.
use photogram.Prelude.{
  ◌≡◌, refl, ap, inl, inr, Bool, true, false, Option, none, some, [], ◌∷◌, ◌==◌, Bool-cases,
  Option-cases,
}
use photogram.Outcome.{ok, Outcome-cases}
use photogram.Text.{Bytes, codes}
use photogram.Action.{pure, lift, ◌>>=◌}
use photogram.AnotherServerConnection.{
  BoostJson, ServerResponse, Pending, resolve, connect, write, read, Connection, call_back,
  on_resolve, on_connect, on_write, on_ok, on_read, fire, taken, check_step, Completion, resolved,
  connected, written, received,
}
use photogram.AnotherServerConnection.Runs.{verdict}

module _ (j : BoostJson) where
  open j use {parse, id_text}

  -- Behind a response: nothing was given, or the verdict of the response.
  pub data Gives (reply : ServerResponse) (s : Connection) : Type 0 where
    no_id : s.callback ≡ true → s.ids ≡ [] → Gives reply s
    an_id : (id : Bytes) → verdict j reply ≡ ok id → s.ids ≡ id ∷ [] → Gives reply s

  -- A check with a callback that has given nothing yet.
  pub record IsFresh (s : Connection) : Type 0 where
    pub callback : s.callback ≡ true
    pub ids : s.ids ≡ []

  -- What an operation of a fresh check comes to: the check is fresh, or it has given an id and is over.
  pub data Steps (c : Completion) (s : Connection) : Type 0 where
    fresh : IsFresh s → Steps c s
    given :
        (shutdown_error : Bool) (reply : ServerResponse) (id : Bytes)
        → c ≡ received false shutdown_error reply
        → verdict j reply ≡ ok id
        → s.ids ≡ id ∷ []
        → s.pending ≡ none
        → Steps c s

  module _ (shutdown_error : Bool) (reply : ServerResponse) (s : Connection) (f : IsFresh s) where
    on_read-Gives :
        Gives reply (on_read j false shutdown_error reply s).1
        × ((on_read j false shutdown_error reply s).1.pending ≡ s.pending)
    unfolding on_read on_ok call_back lift pure ◌>>=◌
    on_read-Gives = elim (Bool-cases (reply.result == 200)) [
      | inl e ↦ elim (Option-cases (parse reply.body)) [
        | inl n ↦
            rw (e, n, f.callback, f.ids)
              (an_id (codes "internal_server_error") (rw (e, n) refl) refl, refl)
        | inr (value, n) ↦ elim (Outcome-cases (id_text value)) [
          | inl (id, q) ↦ elim (Bool-cases shutdown_error) [
            | inl d ↦ rw (e, n, f.callback, q, d, f.ids) (an_id id (rw (e, n) q) refl, refl)
            | inr d ↦ rw (e, n, f.callback, q, d, f.ids) (an_id id (rw (e, n) q) refl, refl)
          ]
          | inr (inl (x, q)) ↦ rw (e, n, f.callback, q) (no_id refl f.ids, refl)
          | inr (inr q) ↦ rw (e, n, f.callback, q) (no_id refl f.ids, refl)
        ]
      ]
      | inr e ↦ elim (Bool-cases (reply.result == 401)) [
        | inl e' ↦
            rw (e, e', f.callback, f.ids)
              (an_id (codes "unauthorized") (rw (e, e') refl) refl, refl)
        | inr e' ↦ elim (Bool-cases (reply.result == 400)) [
          | inl d ↦
              rw (e, e', d, f.callback, f.ids)
                (an_id (codes "bad_request") (rw (e, e', d) refl) refl, refl)
          | inr d ↦
              rw (e, e', d, f.callback, f.ids)
                (an_id (codes "internal_server_error") (rw (e, e', d) refl) refl, refl)
        ]
      ]
    ]

  of_reply :
      (shutdown_error : Bool) (reply : ServerResponse) (s : Connection)
      → Gives reply s
      → s.pending ≡ none
      → Steps (received false shutdown_error reply) s
  of_reply shutdown_error reply s (no_id c i) p = fresh (record { callback = c; ids = i })
  of_reply shutdown_error reply s (an_id id v i) p = given shutdown_error reply id refl v i p

  fire-Steps :
      (c : Completion) (p : Option Pending) (s : Connection)
      → IsFresh s
      → Steps c (fire j c p (record s { pending = taken c p })).1
  unfolding on_resolve on_connect on_write on_read pure
  fire-Steps (resolved true) (some resolve) s f =
      fresh (record { callback = f.callback; ids = f.ids })
  fire-Steps (resolved false) (some resolve) s f =
      fresh (record { callback = f.callback; ids = f.ids })
  fire-Steps (connected true) (some connect) s f =
      fresh (record { callback = f.callback; ids = f.ids })
  fire-Steps (connected false) (some connect) s f =
      fresh (record { callback = f.callback; ids = f.ids })
  fire-Steps (written true) (some write) s f = fresh (record { callback = f.callback; ids = f.ids })
  fire-Steps (written false) (some write) s f =
      fresh (record { callback = f.callback; ids = f.ids })
  fire-Steps (received true d reply) (some read) s f =
      fresh (record { callback = f.callback; ids = f.ids })
  fire-Steps (received false d reply) (some read) s f =
      let (g, p) =
        on_read-Gives d reply (record s { pending = none })
          (record { callback = f.callback; ids = f.ids }) in
      of_reply d reply _ g p
  fire-Steps c p s f = fresh (record { callback = f.callback; ids = f.ids })

  idle :
      (c : Completion) (s : Connection)
      → fire j c none (record s { pending = taken c none }) ≡ (ok tt, record s { pending = none })
  unfolding pure
  idle (resolved e) s = refl
  idle (connected e) s = refl
  idle (written e) s = refl
  idle (received e shutdown_error reply) s = refl

  -- A check that is over is not called again.
  pub check_step-over :
      (c : Completion) (s : Connection)
      → s.pending ≡ none
      → check_step j c s ≡ (ok tt, record s { pending = none })
  unfolding check_step
  check_step-over c s e = rw e (idle c s)

  pub check_step-Steps :
      (c : Completion) (s : Connection) → IsFresh s → Steps c (check_step j c s).1
  unfolding check_step
  check_step-Steps c s f = fire-Steps c s.pending s f

  -- A response with a verdict gives it.
  on_read-ids :
      (reply : ServerResponse) (id : Bytes) (s : Connection)
      → IsFresh s
      → verdict j reply ≡ ok id
      → (on_read j false false reply s).1.ids ≡ id ∷ []
  unfolding on_read on_ok call_back lift pure ◌>>=◌
  on_read-ids reply id s f v = elim (Bool-cases (reply.result == 200)) [
    | inl e ↦ elim (Option-cases (parse reply.body)) [
      | inl n ↦
          let q : codes "internal_server_error" ≡ id = cc (rw (e, n) at v) in
          rw (e, n, f.callback, f.ids) (ap (λ t. t ∷ []) q)
      | inr (value, n) ↦
          let q : id_text value ≡ ok id = rw (e, n) at v in rw (e, n, f.callback, q, f.ids) refl
    ]
    | inr e ↦ elim (Bool-cases (reply.result == 401)) [
      | inl e' ↦
          let q : codes "unauthorized" ≡ id = cc (rw (e, e') at v) in
          rw (e, e', f.callback, f.ids) (ap (λ t. t ∷ []) q)
      | inr e' ↦ elim (Bool-cases (reply.result == 400)) [
        | inl d ↦
            let q : codes "bad_request" ≡ id = cc (rw (e, e', d) at v) in
            rw (e, e', d, f.callback, f.ids) (ap (λ t. t ∷ []) q)
        | inr d ↦
            let q : codes "internal_server_error" ≡ id = cc (rw (e, e', d) at v) in
            rw (e, e', d, f.callback, f.ids) (ap (λ t. t ∷ []) q)
      ]
    ]
  ]

  -- The check that awaits its response gives the verdict of it.
  pub check_step-ids :
      (reply : ServerResponse) (id : Bytes) (s : Connection)
      → s.pending ≡ some read
      → IsFresh s
      → verdict j reply ≡ ok id
      → (check_step j (received false false reply) s).1.ids ≡ id ∷ []
  unfolding check_step
  check_step-ids reply id s p f v = rw p (
      on_read-ids reply id (record s { pending = none })
        (record { callback = f.callback; ids = f.ids }) v)
