-- ===== src/Tests/Sockets.antt =====
-- The auth server's process with three clients, one of which has no name, and an answer.
use photogram.Prelude.{◌+◌, ◌*◌, ◌/◌, ◌%◌, refl, false, some, List, [], ◌∷◌, arith}
use photogram.Text.{codes}
use photogram.Prelude.{All}
use photogram.MyServer.{Winsock, Accepted, invalid, unnamed, named, Process, main}
use photogram.MyServer.Addresses.{IsShort, main-IsShort}
use photogram.ResponseSender.{json_ok, render}
use photogram.ResponseSender.Framed.{sent, IsFramed, render-IsFramed}

abbrev winsock : Winsock
winsock = record {
  startup_error = false;
  socket = some 3;
  bind_error = false;
  listen_error = false;
  htons = λ port. (port % 256) * 256 + port / 256;
  inet_ntoa = λ addr. codes "127.0.0.1";
}

abbrev accepted : List Accepted
accepted =
    named 4 (record { sin_addr = 16777343; sin_port = 53456 })
    ∷ unnamed 5
    ∷ invalid
    ∷ named 5 (record { sin_addr = 16777343; sin_port = 47115 })
    ∷ []

abbrev process : Process
process = record { startups = 0; sockets = []; bound = []; threads = [] }

main-IsShort_example : All IsShort (main winsock accepted process).1.threads
main-IsShort_example =
    main-IsShort winsock (λ addr. omega arith) accepted process
      (omega arith, (tt, (tt, (omega arith, tt)))) tt

render-IsFramed_example : IsFramed (sent (render (json_ok (codes "*") (codes "{}")))) (codes "{}")
render-IsFramed_example =
    render-IsFramed (json_ok (codes "*") (codes "{}")) (codes "{}") refl (omega arith)
