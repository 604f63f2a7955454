-- ===== src/AnotherServerConnection/Runs.antt =====
-- The handlers in the order in which the io_context calls them, and what a check comes to.
use photogram.Prelude.{
  ◌≡◌, refl, ap, subst, inl, inr, Bool, true, false, ◌||◌, Option, none, some, List, [], ◌∷◌, ◌++◌,
  ◌==◌, if◌then◌else◌, Bool-cases,
}
use photogram.Outcome.{Outcome, ok, Outcome-cases}
use photogram.Text.{Bytes, codes}
use photogram.Action.{pure, lift, ◌>>=◌}
use photogram.AnotherServerConnection.{
  BoostJson, ServerResponse, Pending, resolve, connect, write, read, Connection, call_back,
  check_accesstoken, on_resolve, on_connect, on_write, on_ok, on_read, Completion, resolved,
  connected, written, received,
}

abbrev pub is_error : Completion → Bool
is_error (resolved e) = e
is_error (connected e) = e
is_error (written e) = e
is_error (received e shutdown_error response) = e

module _ (j : BoostJson) where
  open j use {parse, id_text}

  -- The handler of the pending operation is called once, and returns.
  pub data Fires (c : Completion) (s s' : Connection) : Type 0 where
    on_resolve_called :
        (e : Bool)
        → c ≡ resolved e
        → s.pending ≡ some resolve
        → on_resolve e (record s { pending = none }) ≡ (ok tt, s')
        → Fires c s s'
    on_connect_called :
        (e : Bool)
        → c ≡ connected e
        → s.pending ≡ some connect
        → on_connect e (record s { pending = none }) ≡ (ok tt, s')
        → Fires c s s'
    on_write_called :
        (e : Bool)
        → c ≡ written e
        → s.pending ≡ some write
        → on_write e (record s { pending = none }) ≡ (ok tt, s')
        → Fires c s s'
    on_read_called :
        (e shutdown_error : Bool) (response : ServerResponse)
        → c ≡ received e shutdown_error response
        → s.pending ≡ some read
        → on_read j e shutdown_error response (record s { pending = none }) ≡ (ok tt, s')
        → Fires c s s'

  -- The completions since the check began, the last one first.
  pub data Runs (begun : Connection) : List Completion → Connection → Type 0 where
    begin : Runs begun [] begun
    next :
        (c : Completion) (cs : List Completion) (s s' : Connection)
        → Runs begun cs s
        → Fires c s s'
        → Runs begun (c ∷ cs) s'

  -- What a response says of the token: whose it is, or why that is not known.
  abbrev pub read_id : Option j.JsonValue → Outcome Bytes
  read_id none = ok (codes "internal_server_error")
  read_id (some value) = id_text value

  abbrev pub verdict : ServerResponse → Outcome Bytes
  verdict response =
      if response.result == 200
      then read_id (parse response.body)
      else if response.result == 401
      then ok (codes "unauthorized")
      else if response.result == 400
      then ok (codes "bad_request")
      else ok (codes "internal_server_error")

  abbrev pub any_error : List Completion → Bool
  any_error [] = false
  any_error (c ∷ cs) = is_error c || any_error cs

  -- How far a check is: an operation is pending, and nothing was answered or went wrong; or an
  -- operation failed, nothing is pending any more, and nothing was answered; or a response came, and
  -- the callback was called once, with its verdict.
  pub data Progress (cs : List Completion) (s : Connection) : Type 0 where
    waiting :
        (p : Pending)
        → s.pending ≡ some p
        → s.ids ≡ []
        → s.callback ≡ true
        → any_error cs ≡ false
        → Progress cs s
    unanswered : s.pending ≡ none → s.ids ≡ [] → any_error cs ≡ true → Progress cs s
    answered :
        (shutdown_error : Bool) (response : ServerResponse) (earlier : List Completion) (id : Bytes)
        → s.pending ≡ none
        → cs ≡ received false shutdown_error response ∷ earlier
        → any_error cs ≡ false
        → verdict response ≡ ok id
        → s.ids ≡ id ∷ []
        → Progress cs s

  abbrev Answers : Connection → Bytes → Connection → Type 0
  Answers s id s' = (s'.ids ≡ id ∷ []) × (s'.pending ≡ s.pending)

  module _ (s s' : Connection) (i : s.ids ≡ []) (c : s.callback ≡ true) where
    call_back-Answers : (id : Bytes) → call_back id s ≡ (ok tt, s') → Answers s id s'
    unfolding call_back pure
    call_back-Answers id h =
        let q : record s { callback = true; ids = [] ++ id ∷ [] } ≡ s' =
          ap (λ t. t.1) (rw (c, i) at h) in
        subst (Answers s id) q (refl, refl)

    parsed-Answers :
        (shutdown_error : Bool) (value : j.JsonValue) (id : Bytes)
        → id_text value ≡ ok id
        → on_ok j shutdown_error (some value) s ≡ (ok tt, s')
        → Answers s id s'
    unfolding on_ok call_back lift pure ◌>>=◌
    parsed-Answers true value id e h = cc (rw (c, e) at h)
    parsed-Answers false value id e h =
        let q : record s { callback = true; ids = [] ++ id ∷ []; is_open = false } ≡ s' =
          ap (λ t. t.1) (rw (c, e, i) at h) in
        subst (Answers s id) q (refl, refl)

    on_ok-Answers :
        (shutdown_error : Bool) (value : Option j.JsonValue)
        → on_ok j shutdown_error value s ≡ (ok tt, s')
        → (id : Bytes) × (read_id value ≡ ok id) × Answers s id s'
    unfolding on_ok lift pure ◌>>=◌
    on_ok-Answers shutdown_error none h =
        (codes "internal_server_error", refl, call_back-Answers (codes "internal_server_error") h)
    on_ok-Answers shutdown_error (some value) h = elim (Outcome-cases (id_text value)) [
      | inl (id, e) ↦ (id, e, parsed-Answers shutdown_error value id e h)
      | inr (inl (x, e)) ↦ cc (rw (c, e) at h)
      | inr (inr e) ↦ cc (rw (c, e) at h)
    ]

    on_read-Answers :
        (shutdown_error : Bool) (response : ServerResponse)
        → on_read j false shutdown_error response s ≡ (ok tt, s')
        → (id : Bytes) × (verdict response ≡ ok id) × Answers s id s'
    unfolding on_read
    on_read-Answers shutdown_error response h = elim (Bool-cases (response.result == 200)) [
      | inl e ↦ rw e (on_ok-Answers shutdown_error (parse response.body) (rw e at h))
      | inr e ↦ elim (Bool-cases (response.result == 401)) [
        | inl e' ↦
            rw (e, e')
              (
                codes "unauthorized",
                refl,
                call_back-Answers (codes "unauthorized") (rw (e, e') at h),
              )
        | inr e' ↦ elim (Bool-cases (response.result == 400)) [
          | inl e'' ↦
              rw (e, e', e'')
                (
                  codes "bad_request",
                  refl,
                  call_back-Answers (codes "bad_request") (rw (e, e', e'') at h),
                )
          | inr e'' ↦
              rw (e, e', e'')
                (
                  codes "internal_server_error",
                  refl,
                  call_back-Answers (codes "internal_server_error") (rw (e, e', e'') at h),
                )
        ]
      ]
    ]

  -- Where an operation is pending, nothing was answered, and nothing went wrong.
  waiting_of :
      (cs : List Completion) (s : Connection) (p : Pending)
      → s.pending ≡ some p
      → Progress cs s
      → (s.ids ≡ []) × (s.callback ≡ true) × (any_error cs ≡ false)
  waiting_of cs s p e (waiting q h i c n) = (i, c, n)
  waiting_of cs s p e (unanswered h i n) = cc (e, h)
  waiting_of cs s p e (answered x r l id h q n v i) = cc (e, h)

  Fires-Progress :
      (c : Completion) (cs : List Completion) (s s' : Connection)
      → Progress cs s
      → Fires c s s'
      → Progress (c ∷ cs) s'
  unfolding on_resolve on_connect on_write on_read pure
  Fires-Progress c cs s s' p (on_resolve_called true q w h) =
      let (i, b, n) = waiting_of cs s resolve w p in
      let same = ap (λ t. t.1) h in
      rw q (subst (Progress (resolved true ∷ cs)) same (unanswered refl i refl))
  Fires-Progress c cs s s' p (on_resolve_called false q w h) =
      let (i, b, n) = waiting_of cs s resolve w p in
      let same = ap (λ t. t.1) h in
      rw q (subst (Progress (resolved false ∷ cs)) same (waiting connect refl i b n))
  Fires-Progress c cs s s' p (on_connect_called true q w h) =
      let (i, b, n) = waiting_of cs s connect w p in
      let same = ap (λ t. t.1) h in
      rw q (subst (Progress (connected true ∷ cs)) same (unanswered refl i refl))
  Fires-Progress c cs s s' p (on_connect_called false q w h) =
      let (i, b, n) = waiting_of cs s connect w p in
      let same = ap (λ t. t.1) h in
      rw q (subst (Progress (connected false ∷ cs)) same (waiting write refl i b n))
  Fires-Progress c cs s s' p (on_write_called true q w h) =
      let (i, b, n) = waiting_of cs s write w p in
      let same = ap (λ t. t.1) h in
      rw q (subst (Progress (written true ∷ cs)) same (unanswered refl i refl))
  Fires-Progress c cs s s' p (on_write_called false q w h) =
      let (i, b, n) = waiting_of cs s write w p in
      let same = ap (λ t. t.1) h in
      rw q (subst (Progress (written false ∷ cs)) same (waiting read refl i b n))
  Fires-Progress c cs s s' p (on_read_called true x r q w h) =
      let (i, b, n) = waiting_of cs s read w p in
      let same = ap (λ t. t.1) h in
      rw q (subst (Progress (received true x r ∷ cs)) same (unanswered refl i refl))
  Fires-Progress c cs s s' p (on_read_called false x r q w h) =
      let (i, b, n) = waiting_of cs s read w p in
      let (id, v, (o, m)) = on_read-Answers (record s { pending = none }) s' i b x r h in
      rw q (answered x r cs id m refl n v o)

  -- A check is begun with a callback, on a connection that has answered nothing. However its operations
  -- end, as long as no handler throws: the callback is called once, with the verdict
  -- of the response, where a response came and all that went before succeeded; it is not called before,
  -- and never where an operation failed, behind which nothing is pending any more.
  pub Runs-Progress :
      (token host target : Bytes) (idle begun s : Connection) (cs : List Completion)
      → idle.ids ≡ []
      → check_accesstoken token true host target idle ≡ (ok tt, begun)
      → Runs begun cs s
      → Progress cs s
  unfolding check_accesstoken pure
  Runs-Progress token host target idle begun _ _ i h begin =
      subst (Progress []) (ap (λ t. t.1) h) (waiting resolve refl i refl refl)
  Runs-Progress token host target idle begun _ _ i h (next c cs s s' r f) =
      Fires-Progress c cs s s' (Runs-Progress token host target idle begun s cs i h r) f
