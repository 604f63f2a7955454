-- ===== src/TcpConnection/Explained.antt =====
-- What the handlers of one connection keep: where each of its responses comes from, and what is true of
-- the database.
use photogram.Prelude.{
  none, ◌≡◌, refl, sym, subst, ap, ◌⊎◌, inl, inr, Bool, true, false, List, [], ◌∷◌,
}
use photogram.Outcome.{Outcome, ok, Outcome-cases}
use photogram.Text.{Bytes, codes}
use photogram.Action.{Action, pure, lift, ◌>>=◌, ◌>>◌}
use photogram.FormResponse.{Verb, options, get, post, other, Beast, form_response_options}
use photogram.AnotherServerConnection.{BoostJson, Connection, check_accesstoken, idle_check}
use photogram.AnotherServerConnection.Given.{IsFresh}
use photogram.TcpConnection.{
  ContentApi, Handled, answer, check, nothing, handle_request, on_get_id, on_post_id,
}
use photogram.TcpConnection.Exchange.{
  Stage, reading, checking, writing, ended, Link, Local, in_world, set_stage, close_socket,
  shutdown, begin_check, begin, awaiting_read, handle_read, awaiting_write, handle_write,
}

-- A call keeps `P` of its state, whether it returns or throws.
abbrev pub Holds : {S A : Type 0} → (S → Type 0) → Action S A → Type 0
Holds P m = (s : _) → P s → P (m s).1

module _ (beast : Beast) (api : ContentApi beast) (j : BoostJson) where
  open beast use {Request, Response, method, field, fresh as blank}
  open api use {World, connect}

  module _ (Asked : Request → Type 0) where
    -- The callbacks of the checks.
    pub data IsCallback : (Bytes → Action World Response) → Type 0 where
      get_callback :
          (request : Request)
          → Asked request
          → IsCallback (on_get_id beast api request (field (codes "Origin") request))
      post_callback :
          (request : Request)
          → Asked request
          → IsCallback (on_post_id beast api request (field (codes "Origin") request))

  module _ (Asked : Request → Type 0) (Allowed : Bytes → Type 0) where
    -- Where a response comes from: it answers an OPTIONS request, or a callback gave it for an allowed id.
    pub data Comes (response : Response) : Type 0 where
      of_options :
          (request : Request)
          → Asked request
          → method request ≡ options
          → response ≡ form_response_options beast request (field (codes "Origin") request) blank
          → Comes response
      of_callback :
          (callback : Bytes → Action World Response) (id : Bytes) (w : World)
          → IsCallback Asked callback
          → Allowed id
          → (callback id w).0 ≡ ok response
          → Comes response

    -- At most one response was written.
    pub data AtMostOne : List Response → Type 0 where
      unsent : AtMostOne []
      sent_one : (response : Response) → Comes response → AtMostOne (response ∷ [])

    -- A check that has given nothing, or is over.
    abbrev pub Awaits : Connection → Type 0
    Awaits c = IsFresh j c ⊎ (c.pending ≡ none)

    abbrev pub Explained : Stage beast api j → Connection → List Response → Type 0
    Explained reading c sent = (sent ≡ []) × (c ≡ idle_check)
    Explained (checking callback) c sent = (sent ≡ []) × IsCallback Asked callback × Awaits c
    Explained (writing response) c sent = (sent ≡ []) × Comes response
    Explained ended c sent = AtMostOne sent

    abbrev pub LinkExplained : Link beast api j → Type 0
    LinkExplained l = Explained l.stage l.check l.sent

    by_stage :
        (stage : Stage beast api j) (l : Link beast api j)
        → l.stage ≡ stage
        → Explained stage l.check l.sent
        → AtMostOne l.sent
    by_stage reading l e (h, _) = rw h unsent
    by_stage (checking callback) l e (h, _, _) = rw h unsent
    by_stage (writing response) l e (h, _) = rw h unsent
    by_stage ended l e h = h

    pub LinkExplained-AtMostOne : (l : Link beast api j) → LinkExplained l → AtMostOne l.sent
    LinkExplained-AtMostOne l h = by_stage l.stage l refl h

    module _ (P : World → Type 0) where
      abbrev pub LocalExplained : Local beast api j → Type 0
      LocalExplained s = LinkExplained s.link × P s.world

      pub as_stage :
          (stage : Stage beast api j) (s : Local beast api j)
          → s.link.stage ≡ stage
          → LinkExplained s.link
          → Explained stage s.link.check s.link.sent
      as_stage stage s e h = subst (λ stage. Explained stage s.link.check s.link.sent) e h

      -- What comes last changes nothing, also where it throws.
      pub then-same :
          (m n : Action (Local beast api j) (Unit {0})) (s : Local beast api j)
          → ((s' : Local beast api j) → (n s').1 ≡ s')
          → ((m >> n) s).1 ≡ (m s).1
      unfolding ◌>>=◌
      then-same m n s same = elim (Outcome-cases (m s).0) [
        | inl (u, q) ↦ rw q (same _)
        | inr (inl (x, q)) ↦ rw q refl
        | inr (inr q) ↦ rw q refl
      ]

      shutdown-same : (d : Bool) (s : Local beast api j) → (shutdown beast api j d s).1 ≡ s
      unfolding shutdown lift pure
      shutdown-same true s = refl
      shutdown-same false s = refl

      pub lift-same : (r : Outcome (Unit {0})) (s : Local beast api j) → (lift r s).1 ≡ s
      unfolding lift
      lift-same r s = refl

      module _ (opens : Holds P connect) where
        abbrev HandledExplained : Outcome (Handled beast api) → Type 0
        HandledExplained (ok (answer response)) = Comes response
        HandledExplained (ok (check token callback)) = IsCallback Asked callback
        HandledExplained _ = Unit

        record AfterRequest (r : Outcome (Handled beast api) × World) : Type 0 where
          handled : HandledExplained r.0
          world : P r.1

        by_method :
            (v : Verb) (request : Request) (w : World)
            → Asked request
            → method request ≡ v
            → P w
            → AfterRequest (handle_request beast api request w)
        unfolding handle_request pure ◌>>=◌
        by_method options request w k e p =
            rw (e, handle_request) (record { handled = of_options request k e refl; world = p })
        by_method get request w k e p = elim (Outcome-cases (connect w).0) [
          | inl (u, q) ↦
              rw (e, handle_request, q)
                (record { handled = get_callback request k; world = opens w p })
          | inr (inl (x, q)) ↦
              rw (e, handle_request, q) (record { handled = tt; world = opens w p })
          | inr (inr q) ↦ rw (e, handle_request, q) (record { handled = tt; world = opens w p })
        ]
        by_method post request w k e p =
            rw (e, handle_request) (record { handled = post_callback request k; world = p })
        by_method other request w k e p =
            rw (e, handle_request) (record { handled = tt; world = p })

        begin-Explained :
            (h : Handled beast api) (s : Local beast api j)
            → HandledExplained (ok h)
            → Explained reading s.link.check s.link.sent
            → P s.world
            → LocalExplained (begin beast api j h s).1
        unfolding begin set_stage begin_check close_socket check_accesstoken pure
        begin-Explained (answer response) s h (e, i) p = ((e, h), p)
        begin-Explained (check token callback) s h (e, i) p =
            ((e, h, inl (record { callback = refl; ids = ap (λ c. c.ids) i })), p)
        begin-Explained nothing s h (e, i) p = (rw e unsent, p)

        answered_request :
            (d : Bool) (request : Request) (s : Local beast api j)
            → Asked request
            → Explained reading s.link.check s.link.sent
            → LinkExplained s.link
            → P s.world
            → LocalExplained
                ((in_world beast api j (handle_request beast api request) >>= λ h.
                    begin beast api j h >> shutdown beast api j d)
                  s).1
        unfolding in_world ◌>>=◌
        answered_request d request s k h l p =
            let a = by_method (method request) request s.world k refl p in
            elim (Outcome-cases (handle_request beast api request s.world).0) [
              | inl (v, q) ↦
                  let s' = record s { world = (handle_request beast api request s.world).1 } in
                  rw q (
                    subst LocalExplained
                      (sym (
                        then-same (begin beast api j v) (shutdown beast api j d) s'
                          (shutdown-same d)))
                      (begin-Explained v s' (subst HandledExplained q a.handled) h a.world))
              | inr (inl (x, q)) ↦ rw q (l, a.world)
              | inr (inr q) ↦ rw q (l, a.world)
            ]

        awaiting_read-Explained :
            (stage : Stage beast api j) (error shutdown_error : Bool) (request : Request)
            (s : Local beast api j)
            → (error ≡ false → Asked request)
            → s.link.stage ≡ stage
            → LocalExplained s
            → LocalExplained (awaiting_read beast api j stage error shutdown_error request s).1
        unfolding close_socket in_world pure ◌>>=◌
        awaiting_read-Explained reading true d request s k e (h, p) =
            let h' = as_stage reading s e h in (rw h'.0 unsent, p)
        awaiting_read-Explained reading false d request s k e (h, p) =
            answered_request d request s (k refl) (as_stage reading s e h) h p
        awaiting_read-Explained (checking callback) error d request s k e h = h
        awaiting_read-Explained (writing response) error d request s k e h = h
        awaiting_read-Explained ended error d request s k e h = h

        pub handle_read-Explained :
            (error shutdown_error : Bool) (request : Request) (s : Local beast api j)
            → (error ≡ false → Asked request)
            → LocalExplained s
            → LocalExplained (handle_read beast api j error shutdown_error request s).1
        unfolding handle_read
        handle_read-Explained error d request s k h =
            awaiting_read-Explained s.link.stage error d request s k refl h

        awaiting_write-Explained :
            (stage : Stage beast api j) (error shutdown_error : Bool) (s : Local beast api j)
            → s.link.stage ≡ stage
            → LocalExplained s
            → LocalExplained (awaiting_write beast api j stage error shutdown_error s).1
        unfolding close_socket shutdown lift pure ◌>>=◌
        awaiting_write-Explained (writing response) true d s e (h, p) =
            let h' = as_stage (writing response) s e h in (rw h'.0 unsent, p)
        awaiting_write-Explained (writing response) false true s e (h, p) =
            let h' = as_stage (writing response) s e h in (rw h'.0 (sent_one response h'.1), p)
        awaiting_write-Explained (writing response) false false s e (h, p) =
            let h' = as_stage (writing response) s e h in (rw h'.0 (sent_one response h'.1), p)
        awaiting_write-Explained reading error d s e h = h
        awaiting_write-Explained (checking callback) error d s e h = h
        awaiting_write-Explained ended error d s e h = h

        pub handle_write-Explained :
            (error shutdown_error : Bool) (s : Local beast api j)
            → LocalExplained s
            → LocalExplained (handle_write beast api j error shutdown_error s).1
        unfolding handle_write
        handle_write-Explained error d s h = awaiting_write-Explained s.link.stage error d s refl h
