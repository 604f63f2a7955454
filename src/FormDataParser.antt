-- ===== src/FormDataParser.antt =====
-- The class `FormDataParser` of content_server_src/FormDataParser/FormDataParser.cpp: the parts of a
-- multipart body. The map is filled in the order of its keys.
pub mod Rounds
use photogram.Prelude.{
  ℕ, zero, suc, ◌+◌, Option, none, some, [], ◌∷◌, ◌++◌, length, ◌==◌, if◌then◌else◌,
}
use photogram.Outcome.{Outcome, ok, undefined, ◌>>=◌}
use photogram.Text.{Bytes, codes, npos, add_size, sub_size, find, substr}
use photogram.Text.StdMap.{StdMap, insert}
use photogram.Request.{crlf}
use photogram.FormData.{deref}

-- Where the type has no "=", the position behind npos wraps to 0.
unfoldable pub get_boundary : Bytes → Outcome Bytes
get_boundary content_type = do
  value ← substr content_type (add_size (find content_type (codes "=") 0) 1) npos
  ok (codes "--" ++ value)

-- The type runs for as many bytes as stand before the first line end of the headers.
unfoldable pub add_type : Bytes → StdMap Bytes → Outcome (StdMap Bytes)
add_type description_part output_collection =
    let type_start_p = find description_part (codes "Content-Type") 0 in
    if type_start_p == npos then ok output_collection else (do
      content_type ←
          substr description_part (add_size type_start_p 14) (find description_part (b'\r' ∷ []) 0)
      ok (insert (codes "Content-Type") content_type output_collection))

unfoldable pub add_property : Bytes → ℕ → ℕ → StdMap Bytes → Outcome (StdMap Bytes)
add_property body start_p finish_p output_collection = do
  description_part ← substr body start_p (sub_size (find body (crlf ++ crlf) start_p) start_p)
  collection ← add_type description_part output_collection
  let name_p = find description_part (codes "name") 0
  let type_start_p = add_size name_p 6
  if name_p == npos then ok collection else (do
    name ←
        substr description_part type_start_p
          (sub_size (find description_part (b'"' ∷ []) type_start_p) type_start_p)
    let value_start_p = add_size (find body (crlf ++ crlf) (add_size type_start_p start_p)) 4
    value ← substr body value_start_p (sub_size (add_size (sub_size finish_p value_start_p) 1) 2)
    ok (insert name value collection))

-- One round of the loop for each part; `none` when the fuel is used up before the last boundary.
unfoldable pub content_loop :
    Bytes → Bytes → ℕ → ℕ → ℕ → StdMap Bytes → Outcome (Option (StdMap Bytes))
content_loop body boundary zero start_p finish_p output_collection = ok none
content_loop body boundary (suc fuel) start_p finish_p output_collection =
    let finish = sub_size finish_p 1 in
    let start = add_size (add_size (add_size finish 1) (length boundary)) 2 in
    let next = find body boundary start in
    add_property body start_p finish output_collection >>= λ collection.
    if next == npos
    then ok (some collection)
    else content_loop body boundary fuel start next collection

-- The loop, with a round for each byte of the body and two more.
unfoldable pub content_parts : Bytes → Bytes → StdMap Bytes → Outcome (Option (StdMap Bytes))
content_parts body boundary output_collection =
    let start_p = add_size (add_size (find body boundary 0) (length boundary)) 2 in
    content_loop body boundary (length body + 2) start_p (find body boundary start_p)
      output_collection

-- `content_type` is the field Content-Type of the request.
unfoldable pub get_content : Bytes → Bytes → StdMap Bytes → Outcome (StdMap Bytes)
get_content content_type body output_collection = do
  boundary ← get_boundary content_type
  filled ← content_parts body boundary output_collection
  deref filled
