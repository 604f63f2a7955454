-- ===== src/MyServer/Owned.antt =====
-- The threads that the loop of the auth server starts.
use photogram.Prelude.{
  ◌≡◌, refl, sym, subst, ◌∙◌, ◌⊎◌, inl, inr, some, List, [], ◌∷◌, ◌++◌, Bool-cases, Option-cases,
  append_assoc, ℕ, ◌+◌,
}
use photogram.MyServer.{
  client_addres, Winsock, Accepted, invalid, unnamed, named, Process, wsa_cleanup, closesocket,
  my_server, on_accept, wait_for_new_connection, finish, main,
}
use photogram.Text.{Bytes}

module _ (w : Winsock) where
  -- The clients that have a name, the last one first.
  abbrev pub clients : List Accepted → List (ℕ × Bytes)
  clients [] = []
  clients (named s peer ∷ rest) = clients rest ++ (s, client_addres w peer) ∷ []
  clients (_ ∷ rest) = clients rest

  wait-threads :
      (accepted : List Accepted) (p : Process)
      → (wait_for_new_connection w accepted p).threads ≡ clients accepted ++ p.threads
  unfolding wait_for_new_connection on_accept closesocket
  wait-threads [] p = refl
  wait-threads (invalid ∷ rest) p = wait-threads rest p
  wait-threads (unnamed s ∷ rest) p = wait-threads rest _
  wait-threads (named s peer ∷ rest) p =
      wait-threads rest _ ∙ sym (append_assoc (clients rest) _ p.threads)

  -- The process behind the constructor.
  abbrev listening : ℕ → Process → Process
  listening s p = record {
    startups = p.startups + 1;
    sockets = s ∷ p.sockets;
    bound = (s, w.htons 8080) ∷ p.bound;
    threads = p.threads;
  }

  -- The threads behind `main` are those from before, or also one for every peer that has a name.
  pub main-threads :
      (accepted : List Accepted) (p : Process)
      → ((main w accepted p).1.threads ≡ p.threads)
        ⊎ ((main w accepted p).1.threads ≡ clients accepted ++ p.threads)
  unfolding main my_server wsa_cleanup closesocket
  main-threads accepted p = elim (Bool-cases w.startup_error) [
    | inl e ↦ inl (rw e refl)
    | inr e ↦ elim (Option-cases w.socket) [
      | inl q ↦ inl (rw (e, q) refl)
      | inr (s, q) ↦ elim (Bool-cases w.bind_error) [
        | inl b ↦ inl (rw (e, q, b) refl)
        | inr b ↦ elim (Bool-cases w.listen_error) [
          | inl l ↦ inl (rw (e, q, b, l) refl)
          | inr l ↦
              let begun : my_server w 8080 p ≡ (some s, listening s p) = rw (e, q, b, l) refl in
              inr (
                subst (λ r. (finish w accepted r).1.threads ≡ clients accepted ++ p.threads)
                  (sym begun) (wait-threads accepted (listening s p)))
        ]
      ]
    ]
  ]
