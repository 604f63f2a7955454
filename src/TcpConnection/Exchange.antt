-- ===== src/TcpConnection/Exchange.antt =====
-- content_server_src/TcpConnection/TcpConnection.cpp: one connection of the content server from its start
-- to its end, as the handlers that the io_context calls. A handler that is not awaited is not called.
use photogram.Prelude.{Bool, true, false, List, [], ◌∷◌, ◌++◌, length, drop}
use photogram.Outcome.{foreign, ok, throw}
use photogram.Text.{Bytes, codes}
use photogram.Action.{Action, pure, lift, ◌>>=◌, ◌>>◌}
use photogram.FormResponse.{Beast}
use photogram.AnotherServerConnection.{
  BoostJson, Connection, check_accesstoken, Completion, idle_check, check_step,
}
use photogram.TcpConnection.{ContentApi, Handled, answer, check, nothing, handle_request}

module _ (beast : Beast) (api : ContentApi beast) (j : BoostJson) where
  open beast use {Request, Response}
  open api use {World}

  -- What a connection waits for: its request, the callback of the check, or the end of the write.
  pub data Stage : Type 0 where
    reading : Stage
    checking : (Bytes → Action World Response) → Stage
    writing : Response → Stage
    ended : Stage

  -- A connection, with the responses that were written whole.
  pub record Link : Type 0 where
    pub stage : Stage
    pub check : Connection
    pub is_open : Bool
    pub sent : List Response

  -- What the handlers of one connection change.
  pub record Local : Type 0 where
    pub link : Link
    pub world : World

  abbrev pub Handler : Type 0
  Handler = Action Local Unit

  unfoldable pub in_world : {A : Type 0} → Action World A → Action Local A
  in_world m s = let (r, w) = m s.world in (r, record s { world = w })

  unfoldable pub set_stage : Stage → Handler
  set_stage stage s = (ok tt, record s { link = record s.link { stage = stage } })

  unfoldable pub close_socket : Handler
  close_socket s = (ok tt, record s { link = record s.link { stage = ended; is_open = false } })

  -- socket_.shutdown, which throws where the client is gone
  unfoldable pub shutdown : Bool → Handler
  shutdown true = lift (throw (foreign "shutdown"))
  shutdown false = pure tt

  -- `create`, the constructor and `start`.
  abbrev pub start : Link
  start = record { stage = reading; check = idle_check; is_open = true; sent = [] }

  unfoldable pub begin_check : Bytes → (Bytes → Action World Response) → Handler
  begin_check token callback s =
      let (r, c) =
        check_accesstoken token true (codes "127.0.0.1") (codes "/getIdForServerByAccess")
          s.link.check in
      (r, record s { link = record s.link { stage = checking callback; check = c } })

  -- Where no operation is begun, the connection is freed, and its socket closed with it.
  unfoldable pub begin : Handled beast api → Handler
  begin (answer response) = set_stage (writing response)
  begin (check token callback) = begin_check token callback
  begin nothing = close_socket

  abbrev pub awaiting_read : Stage → Bool → Bool → Request → Handler
  awaiting_read reading true shutdown_error request = close_socket
  awaiting_read reading false shutdown_error request =
      in_world (handle_request beast api request) >>= λ h. begin h >> shutdown shutdown_error
  awaiting_read _ error shutdown_error request = pure tt

  unfoldable pub handle_read : Bool → Bool → Request → Handler
  handle_read error shutdown_error request s =
      awaiting_read s.link.stage error shutdown_error request s

  -- The callback is called with the id that the check has given, if it has given one: a handler of the
  -- check gives one at most.
  abbrev pub call_back_all : Stage → List Bytes → Handler
  call_back_all (checking callback) (id ∷ ids) =
      in_world (callback id) >>= λ response. set_stage (writing response)
  call_back_all stage ids = pure tt

  -- A handler of the check, with the call of the callback inside it: where that throws, it is as if the
  -- handler had gone on to its end.
  unfoldable pub on_check : Completion → Handler
  on_check c s =
      let (r, checked) = check_step j c s.link.check in
      (call_back_all s.link.stage (drop (length s.link.check.ids) checked.ids) >> lift r)
        (record s { link = record s.link { check = checked } })

  abbrev pub awaiting_write : Stage → Bool → Bool → Handler
  awaiting_write (writing response) true shutdown_error s = close_socket s
  awaiting_write (writing response) false shutdown_error s =
      (shutdown shutdown_error >> close_socket)
        (record s { link = record s.link { stage = ended; sent = s.link.sent ++ response ∷ [] } })
  awaiting_write _ error shutdown_error s = pure tt s

  -- `handleWrite`, and the handler of the writes behind a check.
  unfoldable pub handle_write : Bool → Bool → Handler
  handle_write error shutdown_error s = awaiting_write s.link.stage error shutdown_error s
