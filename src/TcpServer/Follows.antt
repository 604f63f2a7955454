-- ===== src/TcpServer/Follows.antt =====
-- What one connection goes through while the handlers of others run in between.
use photogram.Prelude.{
  ℕ, zero, suc, ◌≡◌, refl, sym, subst, ap, ◌∙◌, inl, inr, Bool, true, false, some, List, [], ◌∷◌,
  ◌++◌, ◌==◌, if◌then◌else◌, get_elem?, Bool-cases, Option-cases, arith,
}
use photogram.Outcome.{ok, Outcome-cases}
use photogram.Action.{pure, ◌>>=◌}
use photogram.FormResponse.{Beast}
use photogram.AnotherServerConnection.{BoostJson}
use photogram.TcpConnection.{ContentApi}
use photogram.TcpConnection.Exchange.{Link, Handler, handle_read, handle_write, on_check}
use photogram.TcpServer.{
  set, Event, accepted, read_done, checked, write_done, Server, at, handle_accept, on_event, run,
}

module _ {A : Type 0} where
  set-same :
      (xs : List A) (i : ℕ) (v x : A) → get_elem? xs i ≡ some x → get_elem? (set xs i v) i ≡ some v
  set-same [] i v x e = cc
  set-same (y ∷ xs) zero v x e = refl
  set-same (y ∷ xs) (suc i) v x e = set-same xs i v x e

  set-other :
      (xs : List A) (i k : ℕ) (v : A) → k == i ≡ false → get_elem? (set xs k v) i ≡ get_elem? xs i
  set-other [] i k v e = refl
  set-other (y ∷ xs) zero zero v e = ground arith
  set-other (y ∷ xs) (suc i) zero v e = refl
  set-other (y ∷ xs) zero (suc k) v e = refl
  set-other (y ∷ xs) (suc i) (suc k) v e = set-other xs i k v (ground arith)

  snoc-same :
      (xs : List A) (i : ℕ) (v x : A)
      → get_elem? xs i ≡ some x
      → get_elem? (xs ++ v ∷ []) i ≡ some x
  snoc-same [] i v x e = cc
  snoc-same (y ∷ xs) zero v x e = e
  snoc-same (y ∷ xs) (suc i) v x e = snoc-same xs i v x e

module _ (beast : Beast) (api : ContentApi beast) (j : BoostJson) where
  open api use {World}

  abbrev pub names : ℕ → Event beast api j → Bool
  names i (accepted error) = false
  names i (read_done k error d request) = k == i
  names i (checked k c) = k == i
  names i (write_done k error d) = k == i

  -- The events of the connection `i`.
  abbrev pub own : ℕ → List (Event beast api j) → List (Event beast api j)
  own i [] = []
  own i (e ∷ es) = if names i e then e ∷ own i es else own i es

  -- The handler that an event calls.
  abbrev pub handler : Event beast api j → Handler beast api j
  handler (accepted error) = pure tt
  handler (read_done k error d request) = handle_read beast api j error d request
  handler (checked k c) = on_check beast api j c
  handler (write_done k error d) = handle_write beast api j error d

  -- A connection goes from `l` to `l'` by the handlers of the events, each in some state of the database.
  abbrev pub Follows : List (Event beast api j) → Link beast api j → Link beast api j → Type 0
  Follows [] l l' = l' ≡ l
  Follows (e ∷ es) l l' =
      (w w' : World) × (next : Link beast api j) × (handler e (record { link = l; world = w })
        ≡ (ok tt, record { link = next; world = w' }))
      × Follows es next l'

  at-own :
      (i : ℕ) (h : Handler beast api j) (s : Server beast api j) (l : Link beast api j)
      → get_elem? s.links i ≡ some l
      → ((at beast api j i h s).0 ≡ (h (record { link = l; world = s.world })).0)
        × (get_elem? (at beast api j i h s).1.links i
            ≡ some (h (record { link = l; world = s.world })).1.link)
  unfolding at
  at-own i h s l e = rw e (refl, set-same s.links i _ l e)

  at-other :
      (i k : ℕ) (h : Handler beast api j) (s : Server beast api j)
      → k == i ≡ false
      → get_elem? (at beast api j k h s).1.links i ≡ get_elem? s.links i
  unfolding at
  at-other i k h s e = elim (Option-cases (get_elem? s.links k)) [
    | inl q ↦ rw q refl
    | inr (l, q) ↦ rw q (set-other s.links i k _ e)
  ]

  event-other :
      (i : ℕ) (e : Event beast api j) (s : Server beast api j) (l : Link beast api j)
      → names i e ≡ false
      → get_elem? s.links i ≡ some l
      → get_elem? (on_event beast api j e s).1.links i ≡ some l
  unfolding on_event handle_accept
  event-other i (accepted mathlib.Core.Bool.true) s l n e = e
  event-other i (accepted mathlib.Core.Bool.false) s l n e = snoc-same s.links i _ l e
  event-other i (read_done k error d request) s l n e = at-other i k _ s n ∙ e
  event-other i (checked k c) s l n e = at-other i k _ s n ∙ e
  event-other i (write_done k error d) s l n e = at-other i k _ s n ∙ e

  -- What the handler of an event does to its own connection.
  record Handles (i : ℕ) (e : Event beast api j) (s : Server beast api j) (l : Link beast api j)
      : Type 0 where
    outcome : (on_event beast api j e s).0 ≡ (handler e (record { link = l; world = s.world })).0
    link :
        get_elem? (on_event beast api j e s).1.links i
        ≡ some (handler e (record { link = l; world = s.world })).1.link

  at-Handles :
      (i k : ℕ) (h : Handler beast api j) (s : Server beast api j) (l : Link beast api j)
      → k == i ≡ true
      → get_elem? s.links i ≡ some l
      → ((at beast api j k h s).0 ≡ (h (record { link = l; world = s.world })).0)
        × (get_elem? (at beast api j k h s).1.links i
            ≡ some (h (record { link = l; world = s.world })).1.link)
  at-Handles i k h s l n e =
      let q : i ≡ k = ground arith in
      subst
        (λ k.
          ((at beast api j k h s).0 ≡ (h (record { link = l; world = s.world })).0)
          × (get_elem? (at beast api j k h s).1.links i
              ≡ some (h (record { link = l; world = s.world })).1.link))
        q (at-own i h s l e)

  event-Handles :
      (i : ℕ) (e : Event beast api j) (s : Server beast api j) (l : Link beast api j)
      → names i e ≡ true
      → get_elem? s.links i ≡ some l
      → Handles i e s l
  unfolding on_event
  event-Handles i (accepted error) s l n e = cc
  event-Handles i (read_done k error d request) s l n e =
      let (o, g) = at-Handles i k _ s l n e in record { outcome = o; link = g }
  event-Handles i (checked k c) s l n e =
      let (o, g) = at-Handles i k _ s l n e in record { outcome = o; link = g }
  event-Handles i (write_done k error d) s l n e =
      let (o, g) = at-Handles i k _ s l n e in record { outcome = o; link = g }

  -- Where every handler returns, the connection goes through its own events in their order.
  pub run-Follows :
      (i : ℕ) (es : List (Event beast api j)) (s : Server beast api j) (l : Link beast api j)
      → get_elem? s.links i ≡ some l
      → (run beast api j es s).0 ≡ ok tt
      → (l' : Link beast api j) × (get_elem? (run beast api j es s).1.links i ≡ some l')
        × Follows (own i es) l l'
  unfolding run pure ◌>>=◌
  run-Follows i [] s l e r = (l, e, refl)
  run-Follows i (e ∷ es) s l g r = elim (Outcome-cases (on_event beast api j e s).0) [
    | inl (u, q) ↦ elim (Bool-cases (names i e)) [
      | inl n ↦
          let h = event-Handles i e s l n g in
          let a = handler e (record { link = l; world = s.world }) in
          let b : a ≡ (ok tt, a.1) = ap (λ o. (o, a.1)) (sym h.outcome ∙ q) in
          let (l', g', f) =
            run-Follows i es (on_event beast api j e s).1 a.1.link h.link (rw q at r) in
          rw q (l', g', rw n (s.world, a.1.world, a.1.link, b, f))
      | inr n ↦
          let (l', g', f) =
            run-Follows i es (on_event beast api j e s).1 l (event-other i e s l n g) (rw q at r) in
          rw q (l', g', rw n f)
    ]
    | inr (inl (x, q)) ↦ cc (rw q at r)
    | inr (inr q) ↦ cc (rw q at r)
  ]
