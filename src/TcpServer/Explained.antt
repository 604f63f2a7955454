-- ===== src/TcpServer/Explained.antt =====
-- Where the responses of the content server come from, whatever the order of the handlers is.
use photogram.Prelude.{
  true, ℕ, zero, suc, ◌≡◌, refl, sym, subst, ap, ◌⊎◌, inl, inr, Bool, false, some, List, [], ◌∷◌,
  ◌++◌, get_elem?, Option-cases,
}
use photogram.Outcome.{ok, Outcome-cases}
use photogram.Text.{Bytes}
use photogram.Action.{Action, pure, lift, ◌>>=◌, try}
use photogram.FormResponse.{Beast}
use photogram.AnotherServerConnection.{BoostJson, ServerResponse, received}
use photogram.AnotherServerConnection.Runs.{verdict}
use photogram.TcpConnection.{ContentApi}
use photogram.TcpConnection.Exchange.{Link, Local, Handler}
use photogram.TcpConnection.Called.{on_check-Explained}
use photogram.TcpConnection.Explained.{
  Holds, IsCallback, AtMostOne, LinkExplained, LocalExplained, LinkExplained-AtMostOne,
  handle_read-Explained, handle_write-Explained,
}
use photogram.TcpServer.{
  set, Event, accepted, read_done, checked, write_done, Server, at, handle_accept, on_event, run,
  listen, main,
}

module _ {A : Type 0} where
  get_elem?-set :
      (xs : List A) (i k : ℕ) (v x : A)
      → get_elem? (set xs i v) k ≡ some x
      → ((k ≡ i) × (x ≡ v)) ⊎ (get_elem? xs k ≡ some x)
  get_elem?-set [] i k v x e = inr e
  get_elem?-set (y ∷ xs) zero zero v x e = inl (refl, cc)
  get_elem?-set (y ∷ xs) zero (suc k) v x e = inr e
  get_elem?-set (y ∷ xs) (suc i) zero v x e = inr e
  get_elem?-set (y ∷ xs) (suc i) (suc k) v x e = elim (get_elem?-set xs i k v x e) [
    | inl (p, q) ↦ inl (ap suc p, q)
    | inr q ↦ inr q
  ]

  get_elem?-snoc :
      (xs : List A) (k : ℕ) (v x : A)
      → get_elem? (xs ++ v ∷ []) k ≡ some x
      → (x ≡ v) ⊎ (get_elem? xs k ≡ some x)
  get_elem?-snoc [] zero v x e = inl cc
  get_elem?-snoc [] (suc k) v x e = inr e
  get_elem?-snoc (y ∷ xs) zero v x e = inr e
  get_elem?-snoc (y ∷ xs) (suc k) v x e = get_elem?-snoc xs k v x e

module _ (beast : Beast) (api : ContentApi beast) (j : BoostJson) where
  open beast use {Request, Response}
  open api use {World, connect}

  module _ (Asked : ℕ → Request → Type 0) (Allowed : ℕ → Bytes → Type 0) (P : World → Type 0) where
    pub record ServerExplained (s : Server beast api j) : Type 0 where
      pub links :
          (i : ℕ) (l : Link beast api j)
          → get_elem? s.links i ≡ some l
          → LinkExplained beast api j (Asked i) (Allowed i) l
      pub world : P s.world

    abbrev pub Permits : Event beast api j → Type 0
    Permits (read_done i error d request) = error ≡ false → Asked i request
    Permits (checked i c) =
        (d : Bool) (reply : ServerResponse) (id : Bytes)
        → c ≡ received false d reply
        → verdict j reply ≡ ok id
        → Allowed i id
    Permits _ = Unit

    at-Explained :
        (i : ℕ) (h : Handler beast api j) (s : Server beast api j)
        → ((l : Local beast api j)
            → LocalExplained beast api j (Asked i) (Allowed i) P l
            → LocalExplained beast api j (Asked i) (Allowed i) P (h l).1)
        → ServerExplained s
        → ServerExplained (at beast api j i h s).1
    unfolding at
    at-Explained i h s keeps e = elim (Option-cases (get_elem? s.links i)) [
      | inl q ↦ rw q e
      | inr (link, q) ↦
          let (l, p) =
            keeps (record { link = link; world = s.world }) (e.links i link q, e.world) in
          rw q (record {
            links = λ k x r. elim (get_elem?-set s.links i k _ x r) [
              | inl (u, v) ↦
                  subst (λ k. LinkExplained beast api j (Asked k) (Allowed k) x) (sym u)
                    (subst (LinkExplained beast api j (Asked i) (Allowed i)) (sym v) l)
              | inr r' ↦ e.links k x r'
            ];
            world = p;
          })
    ]

    module _ (opens : Holds P connect)
        (calls : (i : ℕ) (callback : Bytes → Action World Response) (id : Bytes)
          → IsCallback beast api j (Asked i) callback
          → Allowed i id
          → Holds P (callback id)) where
      on_event-Explained :
          (e : Event beast api j) (s : Server beast api j)
          → Permits e
          → ServerExplained s
          → ServerExplained (on_event beast api j e s).1
      unfolding on_event handle_accept
      on_event-Explained (accepted true) s p h = h
      on_event-Explained (accepted false) s p h = record {
        links = λ k x r. elim (get_elem?-snoc s.links k _ x r) [
          | inl q ↦ rw q (refl, refl)
          | inr r' ↦ h.links k x r'
        ];
        world = h.world;
      }
      on_event-Explained (read_done i error d request) s p h =
          at-Explained i _ s
            (λ l.
              handle_read-Explained beast api j (Asked i) (Allowed i) P opens error d request l p)
            h
      on_event-Explained (checked i c) s p h =
          at-Explained i _ s
            (λ l. on_check-Explained beast api j (Asked i) (Allowed i) P (calls i) c p l) h
      on_event-Explained (write_done i error d) s p h =
          at-Explained i _ s
            (λ l. handle_write-Explained beast api j (Asked i) (Allowed i) P opens error d l) h

      run-Explained :
          (es : List (Event beast api j)) (s : Server beast api j)
          → ((n : ℕ) (e : Event beast api j) → get_elem? es n ≡ some e → Permits e)
          → ServerExplained s
          → ServerExplained (run beast api j es s).1
      unfolding run pure ◌>>=◌
      run-Explained [] s p h = h
      run-Explained (e ∷ es) s p h =
          let h' = on_event-Explained e s (p 0 e refl) h in
          elim (Outcome-cases (on_event beast api j e s).0) [
            | inl (u, q) ↦ rw q (run-Explained es _ (λ n. p (suc n)) h')
            | inr (inl (x, q)) ↦ rw q h'
            | inr (inr q) ↦ rw q h'
          ]

      pub main-Explained :
          (listens : Bool) (es : List (Event beast api j)) (s : Server beast api j)
          → ((n : ℕ) (e : Event beast api j) → get_elem? es n ≡ some e → Permits e)
          → ServerExplained s
          → ServerExplained (main beast api j listens es s).1
      unfolding main listen try lift pure ◌>>=◌
      main-Explained false es s p h = h
      main-Explained true es s p h = elim (Outcome-cases (run beast api j es s).0) [
        | inl (u, q) ↦ rw q (run-Explained es s p h)
        | inr (inl (x, q)) ↦ rw q (run-Explained es s p h)
        | inr (inr q) ↦ rw q (run-Explained es s p h)
      ]

  -- A request that was read on the connection `i`.
  abbrev pub WasAsked : List (Event beast api j) → ℕ → Request → Type 0
  WasAsked es i request =
      (n : ℕ) × (d : Bool) × (get_elem? es n ≡ some (read_done i false d request))

  -- What a reply of the auth server to the check of the connection `i` said of its token.
  abbrev pub WasGiven : List (Event beast api j) → ℕ → Bytes → Type 0
  WasGiven es i id =
      (n : ℕ) × (d : Bool) × (reply : ServerResponse) × (get_elem? es n
        ≡ some (checked i (received false d reply)))
      × (verdict j reply ≡ ok id)

  pub permitted :
      (P : World → Type 0) (es : List (Event beast api j)) (n : ℕ) (e : Event beast api j)
      → get_elem? es n ≡ some e
      → Permits (WasAsked es) (WasGiven es) P e
  permitted P es n (accepted error) h = tt
  permitted P es n (read_done i error d request) h =
      λ e. (n, d, subst (λ b. get_elem? es n ≡ some (read_done i b d request)) e h)
  permitted P es n (checked i c) h =
      λ d reply id e v. (n, d, reply, subst (λ c. get_elem? es n ≡ some (checked i c)) e h, v)
  permitted P es n (write_done i error d) h = tt

  -- The server before the first accept.
  abbrev pub begun : World → Server beast api j
  begun w = record { links = []; world = w }

  -- Whatever handlers run in whatever order, also where one throws: to every connection at most one
  -- response is written whole. It answers an OPTIONS request that was read on this connection, or it is
  -- what the callback of a GET or POST read on this connection gave for a verdict that the auth server
  -- replied with to this connection's own check.
  pub main-AtMostOne :
      (listens : Bool) (es : List (Event beast api j)) (w : World) (i : ℕ) (l : Link beast api j)
      → get_elem? (main beast api j listens es (begun w)).1.links i ≡ some l
      → AtMostOne beast api j (WasAsked es i) (WasGiven es i) l.sent
  main-AtMostOne listens es w i l e =
      LinkExplained-AtMostOne beast api j (WasAsked es i) (WasGiven es i) l (
        (main-Explained (WasAsked es) (WasGiven es) (λ w. Unit {0}) (λ w p. tt)
            (λ i callback id k a w p. tt) listens es (begun w) (permitted (λ w. Unit {0}) es)
            (record { links = λ k x r. cc; world = tt })).links
          i l e)
