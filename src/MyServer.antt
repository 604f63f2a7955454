-- ===== src/MyServer.antt =====
-- auth_server_src/MyServer.cpp and PhotogramAuth.cpp: the listening socket of the auth server, and the
-- threads of its clients. What the calls of Winsock come to is given.
pub mod Owned
pub mod Addresses
use photogram.Prelude.{
  ℕ, ◌+◌, ◌-◌, Bool, Option, none, some, List, [], ◌∷◌, ◌++◌, ◌==◌, if◌then◌else◌,
}
use photogram.Text.{Bytes, codes}
use photogram.Text.Decimal.{to_string}

-- The results of the calls in the constructor, and the two functions on addresses.
pub record Winsock : Type 0 where
  pub startup_error : Bool
  pub socket : Option ℕ
  pub bind_error : Bool
  pub listen_error : Bool
  pub htons : ℕ → ℕ
  pub inet_ntoa : ℕ → Bytes

-- What getpeername writes: the port in the order of the network.
pub record Peer : Type 0 where
  pub sin_addr : ℕ
  pub sin_port : ℕ

-- A round of the loop: accept fails, or gives a socket, whose peer has no name or has one.
pub data Accepted : Type 0 where
  invalid : Accepted
  unnamed : ℕ → Accepted
  named : ℕ → Peer → Accepted

-- What the process holds: the calls of WSAStartup that are not cleaned up, the open sockets, the bound
-- ports, and the threads of clients with their sockets and addresses.
pub record Process : Type 0 where
  pub startups : ℕ
  pub sockets : List ℕ
  pub bound : List (ℕ × ℕ)
  pub threads : List (ℕ × Bytes)

-- The last call of WSACleanup closes every socket of the process.
unfoldable pub wsa_cleanup : Process → Process
wsa_cleanup p = record p {
  startups = p.startups - 1;
  sockets = if p.startups == 1 then [] else p.sockets;
}

abbrev pub without : ℕ → List ℕ → List ℕ
without s [] = []
without s (t ∷ ts) = if s == t then ts else t ∷ without s ts

unfoldable pub closesocket : ℕ → Process → Process
closesocket s p = record p { sockets = without s p.sockets }

abbrev pub opened : ℕ → Process → Process
opened s p = record p { sockets = s ∷ p.sockets }

module _ (w : Winsock) where
  abbrev pub with_socket : ℕ → Option ℕ → Process → Option ℕ × Process
  with_socket port none p = (none, wsa_cleanup p)
  with_socket port (some s) p =
      if w.bind_error
      then (none, wsa_cleanup (closesocket s (opened s p)))
      else if w.listen_error
      then (none, wsa_cleanup (closesocket s (opened s p)))
      else (some s, record (opened s p) { bound = (s, w.htons port) ∷ p.bound })

  -- The constructor: the listening socket, or none where it calls exit(1).
  unfoldable pub my_server : ℕ → Process → Option ℕ × Process
  my_server port p =
      if w.startup_error
      then (none, p)
      else with_socket port w.socket (record p { startups = p.startups + 1 })

  -- `sin_port` is printed as it is.
  abbrev pub client_addres : Peer → Bytes
  client_addres peer = w.inet_ntoa peer.sin_addr ++ (codes ":" ++ to_string peer.sin_port)

  -- A round of `waitForNewConnection`.
  unfoldable pub on_accept : Accepted → Process → Process
  on_accept invalid p = p
  on_accept (unnamed s) p = closesocket s (opened s p)
  on_accept (named s peer) p = record (opened s p) { threads = (s, client_addres peer) ∷ p.threads }

  -- The loop, which goes on until the process ends.
  unfoldable pub wait_for_new_connection : List Accepted → Process → Process
  wait_for_new_connection [] p = p
  wait_for_new_connection (a ∷ rest) p = wait_for_new_connection rest (on_accept a p)

  abbrev pub finish : List Accepted → Option ℕ × Process → ℕ × Process
  finish accepted (none, p) = (1, p)
  finish accepted (some s, p) = (0, wsa_cleanup (wait_for_new_connection accepted p))

  -- `main`, with its exit code; at its end the destructor is called.
  unfoldable pub main : List Accepted → Process → ℕ × Process
  main accepted p = finish accepted (my_server 8080 p)
