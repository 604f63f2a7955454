-- ===== src/Tests/Check.antt =====
-- A check of an access token that the auth server answers with an id.
use photogram.Prelude.{◌≡◌, refl, Bool, true, false, Option, none, some, List, [], ◌∷◌}
use photogram.Outcome.{ok}
use photogram.Text.{Bytes, codes}
use photogram.Action.{pure, lift, ◌>>=◌}
use photogram.AnotherServerConnection.{
  BoostJson, ServerRequest, ServerResponse, Pending, resolve, connect, write, read, Connection,
  form_request_get_id_by_access, call_back, check_accesstoken, on_resolve, on_connect, on_write,
  on_ok, on_read, Completion, resolved, connected, written, received,
}
use photogram.AnotherServerConnection.Runs.{
  on_resolve_called, on_connect_called, on_write_called, on_read_called, Runs, begin, next,
  Progress, Runs-Progress,
}

-- A body is an object that holds its id alone.
abbrev pub id_json : BoostJson
id_json = record { JsonValue = Bytes; parse = λ t. some t; id_text = λ t. ok t }

abbrev server_request : ServerRequest
server_request = record {
  version = 11;
  target = codes "/getIdForServerByAccess";
  host = codes "127.0.0.1";
  authorization = codes "Bearer t";
  origin = codes "localhost:8081";
}

abbrev connection : Option Pending → List Bytes → Bool → Connection
connection pending ids is_open = record {
  pending = pending;
  callback = true;
  ids = ids;
  request = server_request;
  is_open = is_open;
}

abbrev answer : ServerResponse
answer = record { result = 200; body = codes "7" }

abbrev completions : List Completion
completions = received false false answer ∷ written false ∷ connected false ∷ resolved false ∷ []

whole_check :
    Runs id_json
      (connection (some resolve) [] true)
      completions
      (connection none (codes "7" ∷ []) false)
unfolding on_resolve on_connect on_write on_read on_ok call_back pure lift ◌>>=◌
whole_check =
    next _ _ (connection (some read) [] true) _
      (next _ _ (connection (some write) [] true) _
        (next _ _ (connection (some connect) [] true) _
          (next _ _ (connection (some resolve) [] true) _ begin
            (on_resolve_called false refl refl refl))
          (on_connect_called false refl refl refl))
        (on_write_called false refl refl refl))
      (on_read_called false false answer refl refl refl)

begun_check :
    check_accesstoken
      (codes "Bearer t")
      true
      (codes "127.0.0.1")
      (codes "/getIdForServerByAccess")
      (connection none [] true)
    ≡ (ok tt, connection (some resolve) [] true)
unfolding check_accesstoken form_request_get_id_by_access pure
begun_check = refl

Runs-Progress_example : Progress id_json completions (connection none (codes "7" ∷ []) false)
Runs-Progress_example =
    Runs-Progress id_json (codes "Bearer t") (codes "127.0.0.1") (codes "/getIdForServerByAccess")
      (connection none [] true) (connection (some resolve) [] true)
      (connection none (codes "7" ∷ []) false) completions refl begun_check whole_check
