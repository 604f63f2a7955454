-- ===== src/WorkWithClient/Run.antt =====
-- `WorkWithClient::run`: the loop over what the socket delivers.
use photogram.Prelude.{Bool, true, false, List, [], ◌∷◌, ◌++◌}
use photogram.Outcome.{foreign, throw}
use photogram.Text.{Bytes}
use photogram.HttpDef.{Status, success, bad_http, not_support_type, not_full_req, HttpTypesInfo}
use photogram.HttpParser.{parse}
use photogram.Action.{pure, lift, ◌>>=◌, ◌>>◌, try}
use photogram.Services.{Services}
use photogram.WorkWithClient.{Next, clear, keep, Thread, call}
use photogram.WorkWithClient.Handlers.{handle_info}

-- What `recv` returns while the connection is open: some bytes, or a failure, whose -1 is the
-- greatest size_t.
pub data Received : Type 0 where
  bytes : Bytes → Received
  failure : Received

-- What is left in `request` behind a request that was handled.
abbrev pub left_over : Next → Bytes → Bytes
left_over clear request = []
left_over keep request = request

module _ (v : Services) where
  open v use {json, db, stale}
  open json use {Json}

  unfoldable pub on_status : Bytes → Status → HttpTypesInfo Json → Thread v Bytes
  on_status request not_full_req info = pure request
  on_status request bad_http info = pure []
  on_status request not_support_type info = pure []
  on_status request success info = do next ← handle_info v info; pure (left_over next request)

  -- One round of the loop; `append` of so many bytes throws.
  unfoldable pub on_receive : Bytes → Received → Thread v Bytes
  on_receive request (bytes chunk) = do
    parsed ← lift (parse json stale (request ++ chunk))
    on_status (request ++ chunk) parsed.0 parsed.1
  on_receive request failure = lift (throw (foreign "string too long"))

  -- The loop ends when `recv` returns 0, behind the last of `received`.
  unfoldable pub receive_loop : Bytes → List Received → Thread v Unit
  receive_loop request [] = pure tt
  receive_loop request (r ∷ rest) = on_receive request r >>= λ request'. receive_loop request' rest

  abbrev if_connected : List Received → Bool → Thread v Unit
  if_connected received true = receive_loop [] received
  if_connected received false = pure tt

  -- A connection to the database that fails ends the thread; anything that is thrown in the loop
  -- leaves the thread's function, and ends the process.
  unfoldable pub run : List Received → Thread v Unit
  run received = try (call v db.connect >> pure true) (λ e. pure false) >>= if_connected received
