-- ===== src/AnotherServerConnection.antt =====
-- content_server_src/AnotherServerConnection/AnotherServerConnection.cpp: the content server asks the
-- auth server whose access token it was given. Each asynchronous operation ends in a call of its handler;
-- the io_context that calls the handlers is the relation of AnotherServerConnection/Runs.
pub mod Runs
pub mod Given
use photogram.Prelude.{
  ℕ, Bool, true, false, Option, none, some, List, [], ◌∷◌, ◌++◌, ◌==◌, if◌then◌else◌,
}
use photogram.Outcome.{foreign, Outcome, throw}
use photogram.Text.{Bytes, codes}
use photogram.Action.{Action, pure, lift, ◌>>=◌, ◌>>◌}

-- boost::json: `parse` with an error code, and what `at("id").as_string().c_str()` reads or throws.
pub record BoostJson : Type 1 where
  pub JsonValue : Type 0
  pub parse : Bytes → Option JsonValue
  pub id_text : JsonValue → Outcome Bytes

-- The fields that the request to the auth server is given.
pub record ServerRequest : Type 0 where
  pub version : ℕ
  pub target : Bytes
  pub host : Bytes
  pub authorization : Bytes
  pub origin : Bytes

-- FormRequest::formRequestGetIdByAccess; a GET, also with the name of the library.
unfoldable pub form_request_get_id_by_access : Bytes → Bytes → Bytes → ServerRequest
form_request_get_id_by_access access_token host target = record {
  version = 11;
  target = target;
  host = host;
  authorization = access_token;
  origin = codes "localhost:8081";
}

-- What the auth server answers.
pub record ServerResponse : Type 0 where
  pub result : ℕ
  pub body : Bytes

-- The operation whose handler is called next.
pub data Pending : Type 0 where
  resolve connect write read : Pending

pub record Connection : Type 0 where
  pub pending : Option Pending
  -- whether `callback_` holds a function, and the texts it was called with
  pub callback : Bool
  pub ids : List Bytes
  pub request : ServerRequest
  pub is_open : Bool

abbrev pub Handler : Type 0
Handler = Action Connection Unit

abbrev pub await : Pending → Handler
await p s = pure tt (record s { pending = some p })

abbrev pub close : Handler
close s = pure tt (record s { is_open = false })

unfoldable pub call_back : Bytes → Handler
call_back id s = pure tt (if s.callback then record s { ids = s.ids ++ id ∷ [] } else s)

unfoldable pub check_accesstoken : Bytes → Bool → Bytes → Bytes → Handler
check_accesstoken access_token callback host target s = await resolve (record s {
  callback = callback;
  request = form_request_get_id_by_access access_token host target;
})

unfoldable pub on_resolve : Bool → Handler
on_resolve true = pure tt
on_resolve false = await connect

unfoldable pub on_connect : Bool → Handler
on_connect true = close
on_connect false = await write

unfoldable pub on_write : Bool → Handler
on_write true = close
on_write false = await read

-- The end of a check that was answered; `shutdown` throws where the socket is not connected any more.
abbrev pub finish_answer : Bool → Handler
finish_answer true = lift (throw (foreign "shutdown"))
finish_answer false = close

module _ (j : BoostJson) where
  open j use {JsonValue, parse, id_text}

  unfoldable pub on_ok : Bool → Option JsonValue → Handler
  on_ok shutdown_error none s = call_back (codes "internal_server_error") s
  on_ok shutdown_error (some json_body) s =
      ((if s.callback then (do id ← lift (id_text json_body); call_back id) else pure tt)
          >> finish_answer shutdown_error)
        s

  unfoldable pub on_read : Bool → Bool → ServerResponse → Handler
  on_read true shutdown_error response = close
  on_read false shutdown_error response =
      if response.result == 200
      then on_ok shutdown_error (parse response.body)
      else if response.result == 401
      then call_back (codes "unauthorized")
      else if response.result == 400
      then call_back (codes "bad_request")
      else call_back (codes "internal_server_error")

-- How an operation ended, its error code first.
pub data Completion : Type 0 where
  resolved : Bool → Completion
  connected : Bool → Completion
  written : Bool → Completion
  received : Bool → Bool → ServerResponse → Completion

-- The check of a connection that has begun none.
abbrev pub idle_check : Connection
idle_check = record {
  pending = none;
  callback = false;
  ids = [];
  request = record { version = 11; target = []; host = []; authorization = []; origin = [] };
  is_open = true;
}

abbrev pub fire : BoostJson → Completion → Option Pending → Action Connection (Unit {0})
fire j (resolved e) (some resolve) = on_resolve e
fire j (connected e) (some connect) = on_connect e
fire j (written e) (some write) = on_write e
fire j (received e shutdown_error response) (some read) = on_read j e shutdown_error response
fire j _ _ = pure tt

abbrev pub taken : Completion → Option Pending → Option Pending
taken (resolved e) (some resolve) = none
taken (connected e) (some connect) = none
taken (written e) (some write) = none
taken (received e shutdown_error response) (some read) = none
taken c p = p

-- An operation of the check ends: its handler is called, if it is the one that is awaited.
unfoldable pub check_step : BoostJson → Completion → Action Connection (Unit {0})
check_step j c s = fire j c s.pending (record s { pending = taken c s.pending })
