-- ===== src/MyServer/Addresses.antt =====
-- The text of a client's address.
use photogram.Prelude.{
  ℕ, ◌<◌, ◌≤◌, List, [], ◌∷◌, inl, inr, All, All-append, length, length-append, arith,
}
use photogram.Text.{Bytes}
use photogram.Text.Decimal.{to_string-length}
use photogram.MyServer.{
  Winsock, Accepted, invalid, unnamed, named, Process, Peer, client_addres, main,
}
use photogram.MyServer.Owned.{clients, main-threads}

-- A port has 16 bits.
abbrev pub HasPort : Accepted → Type 0
HasPort (named s peer) = peer.sin_port < 65536
HasPort a = Unit

-- Not longer than 255.255.255.255:65535.
abbrev pub IsShort : ℕ × Bytes → Type 0
IsShort thread = length thread.1 ≤ 21

module _ (w : Winsock) (dotted : (addr : ℕ) → length (w.inet_ntoa addr) ≤ 15) where
  client_addres-length : (peer : Peer) → peer.sin_port < 65536 → length (client_addres w peer) ≤ 21
  client_addres-length peer h =
      let l = to_string-length 4 peer.sin_port (omega arith) (omega arith) in
      let d = dotted peer.sin_addr in rw (length-append, length-append) (omega (arith, l, d))

  clients-IsShort :
      (accepted : List Accepted) → All HasPort accepted → All IsShort (clients w accepted)
  clients-IsShort [] h = tt
  clients-IsShort (named s peer ∷ rest) (p, h) =
      All-append IsShort (clients w rest) _ (clients-IsShort rest h)
        (client_addres-length peer p, tt)
  clients-IsShort (invalid ∷ rest) (p, h) = clients-IsShort rest h
  clients-IsShort (unnamed s ∷ rest) (p, h) = clients-IsShort rest h

  -- Every thread is given an address of at most 21 bytes, where inet_ntoa gives at most 15 bytes and a
  -- port has 16 bits, and the threads before had such addresses.
  pub main-IsShort :
      (accepted : List Accepted) (p : Process)
      → All HasPort accepted
      → All IsShort p.threads
      → All IsShort (main w accepted p).1.threads
  main-IsShort accepted p h k = elim (main-threads w accepted p) [
    | inl t ↦ rw t k
    | inr t ↦
        rw t (All-append IsShort (clients w accepted) p.threads (clients-IsShort accepted h) k)
  ]
