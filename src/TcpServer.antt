-- ===== src/TcpServer.antt =====
-- content_server_src/TcpServer/TcpServer.cpp and ClientAndServer.cpp: the connections of the content server
-- under the io_context, whose order of handlers is any sequence of events.
pub mod Explained
pub mod Follows
pub mod Answered
pub mod Served
use photogram.Prelude.{
  ℕ, zero, suc, Bool, true, false, Option, none, some, List, [], ◌∷◌, ◌++◌, get_elem?,
}
use photogram.Outcome.{foreign, Outcome, ok, throw}
use photogram.Action.{Action, pure, lift, ◌>>=◌, ◌>>◌, try}
use photogram.FormResponse.{Beast}
use photogram.AnotherServerConnection.{BoostJson, Completion}
use photogram.TcpConnection.{ContentApi}
use photogram.TcpConnection.Exchange.{
  Link, Local, Handler, start, handle_read, handle_write, on_check,
}

-- A list with one place changed.
abbrev pub set {ℓ} : {A : Type ℓ} → List A → ℕ → A → List A
set [] i v = []
set (x ∷ xs) zero v = v ∷ xs
set (x ∷ xs) (suc i) v = x ∷ set xs i v

module _ (beast : Beast) (api : ContentApi beast) (j : BoostJson) where
  open beast use {Request}
  open api use {World}

  -- What ends: an accept, or an operation of a connection, which is named by its place in the order of
  -- the accepts.
  pub data Event : Type 0 where
    accepted : Bool → Event
    read_done : ℕ → Bool → Bool → Request → Event
    checked : ℕ → Completion → Event
    write_done : ℕ → Bool → Bool → Event

  pub record Server : Type 0 where
    pub links : List (Link beast api j)
    pub world : World

  abbrev pub put : ℕ → Server → Outcome (Unit {0}) × Local beast api j → Outcome (Unit {0}) × Server
  put i s (r, l) = (r, record { links = set s.links i l.link; world = l.world })

  abbrev pub at_link :
      ℕ → Handler beast api j → Server → Option (Link beast api j) → Outcome (Unit {0}) × Server
  at_link i h s none = (ok tt, s)
  at_link i h s (some link) = put i s (h (record { link = link; world = s.world }))

  -- A handler of the connection `i`.
  unfoldable pub at : ℕ → Handler beast api j → Action Server (Unit {0})
  at i h s = at_link i h s (get_elem? s.links i)

  -- `handle_accept`, behind which the next accept is begun, with a new connection.
  unfoldable pub handle_accept : Bool → Action Server (Unit {0})
  handle_accept true s = (ok tt, s)
  handle_accept false s = (ok tt, record s { links = s.links ++ start beast api j ∷ [] })

  unfoldable pub on_event : Event → Action Server (Unit {0})
  on_event (accepted error) = handle_accept error
  on_event (read_done i error shutdown_error request) =
      at i (handle_read beast api j error shutdown_error request)
  on_event (checked i c) = at i (on_check beast api j c)
  on_event (write_done i error shutdown_error) =
      at i (handle_write beast api j error shutdown_error)

  -- io_context::run: what a handler throws leaves it, and no further handler is called.
  unfoldable pub run : List Event → Action Server (Unit {0})
  run [] = pure tt
  run (e ∷ es) = on_event e >> run es

  -- The constructor of TcpServer: the acceptor, which throws where port 8081 is taken, and `startAccept`.
  unfoldable pub listen : Bool → Action Server (Unit {0})
  listen true = pure tt
  listen false = lift (throw (foreign "bind"))

  -- `main` catches what is thrown, and ends.
  unfoldable pub main : Bool → List Event → Action Server (Unit {0})
  main listens es = try (listen listens >> run es) (λ e. pure tt)
