-- ===== src/FormData.antt =====
-- The class `FormData` of auth_server_src/FormData.cpp: the parts of a multipart body.
pub mod Rounds
use photogram.Prelude.{
  ℕ, zero, suc, ◌+◌, Bool, true, false, ◌||◌, Option, none, some, [], ◌∷◌, ◌++◌, length, take, ◌==◌,
  if◌then◌else◌,
}
use photogram.Outcome.{Outcome, ok, throw, undefined, runtime_error, ◌>>=◌}
use photogram.Text.{Bytes, codes, npos, add_size, sub_size, find, substr, text_eq}
use photogram.Text.StdMap.{StdMap, insert}
use photogram.Request.{crlf, get_value_some_header, get_type, get_properties_name}

-- `*o`: an empty optional must not be read.
abbrev pub deref {ℓ} : {A : Type ℓ} → Option A → Outcome A
deref none = undefined
deref (some a) = ok a

-- t.find(literal, start, count) looks for `count` bytes that begin with the literal, whose array ends
-- with a zero; to read beyond the array is undefined.
unfoldable pub find_count : Bytes → Bytes → ℕ → ℕ → Outcome ℕ
find_count t literal start count = elim (Prim.Native.Nat.compare count (length literal + 1)) [
  | Prim.Native.Nat.Ordering.gt ↦ undefined
  | _ ↦ ok (find t (take count (literal ++ 0 ∷ [])) start)
]

unfoldable pub get_form_separator : Bytes → Outcome Bytes
get_form_separator request = do
  value ← get_value_some_header request (codes "boundary=-") 0
  boundary ← deref value
  ok (b'-' ∷ b'-' ∷ boundary)

-- The two maps that the parser fills.
pub record FormMaps : Type 0 where
  pub user_properties : StdMap Bytes
  pub files_coordinates : StdMap (ℕ × ℕ)

-- `addPhoto` keeps the type of the photo in a string_view of a std::string that is gone when it is
-- read; `stale` is what the memory holds then.
unfoldable pub add_photo : (Bytes → Bytes) → Bytes → ℕ → ℕ → FormMaps → Outcome FormMaps
add_photo stale request start finish maps =
    let end_photo_headers = find request (crlf ++ crlf) start in
    do
      photo_headers ← substr request start (sub_size end_photo_headers start)
      photo_type ← get_type photo_headers (codes "Content-Type: ") 0
      let arg_position = find photo_headers (codes "Content-Type: ") 0
      let start_photo =
          add_size
            (sub_size (add_size (add_size (add_size start arg_position) 15) (length photo_type)) 1)
            4
      let size_photo = sub_size (sub_size finish start_photo) 2
      name ← get_properties_name request start (codes "filename")
      ok (record {
        user_properties = insert (codes "photo_type") (stale photo_type) maps.user_properties;
        files_coordinates = insert name (start_photo, size_photo) maps.files_coordinates;
      })

-- The loop of `separatorToPropertis` carries the start of the part, and whether a photo is next.
pub record FormState : Type 0 where
  pub start : ℕ
  pub is_next_photo : Bool
  pub maps : FormMaps

unfoldable pub add_property : Bytes → FormState → Outcome FormState
add_property request s = do
  name ← get_properties_name request s.start (codes "name")
  let start_value = add_size (find request (crlf ++ crlf) s.start) 4
  let end_value = find request crlf start_value
  value ← substr request start_value (sub_size end_value start_value)
  ok (record s {
    maps = record s.maps { user_properties = insert name value s.maps.user_properties };
    is_next_photo = if text_eq name (codes "password") then true else s.is_next_photo;
  })

-- One part, which ends at `finish`.
unfoldable pub form_part : (Bytes → Bytes) → Bytes → ℕ → FormState → Outcome FormState
form_part stale request finish s =
    if s.is_next_photo
    then (do maps ← add_photo stale request s.start finish s.maps; ok (record s { maps = maps }))
    else (do
      content_type ← find_count request (codes "Content-Type:") s.start (sub_size finish s.start)
      if content_type == npos then add_property request s else ok s)

-- `none` when the fuel is used up before the last separator.
unfoldable pub form_loop :
    (Bytes → Bytes) → Bytes → Bytes → ℕ → ℕ → FormState → Outcome (Option FormMaps)
form_loop stale request separator zero finish s = ok none
form_loop stale request separator (suc fuel) finish s =
    let finish' = find request separator (add_size finish (length separator)) in
    if finish' == npos
    then ok (some s.maps)
    else (form_part stale request finish' s >>= λ s'.
        form_loop stale request separator fuel finish'
          (record s' { start = add_size (sub_size (add_size finish' (length separator)) 1) 2 }))

abbrev pub form_start : Bytes → Bytes → FormMaps → FormState
form_start request separator maps = record {
  start = add_size (find request separator 0) (add_size (length separator) 2);
  is_next_photo = false;
  maps = maps;
}

-- `separatorToPropertis`, with a round for each byte of the request and one more.
unfoldable pub separator_to_properties :
    (Bytes → Bytes) → Bytes → Bytes → FormMaps → Outcome (Option FormMaps)
separator_to_properties stale request separator maps =
    if find request separator 0 == npos
    then throw (runtime_error "400")
    else form_loop stale request separator (length request + 1)
        (form_start request separator maps).start (form_start request separator maps)

unfoldable pub parse_form : (Bytes → Bytes) → Bytes → FormMaps → Outcome FormMaps
parse_form stale request maps = do
  separator ← get_form_separator request
  filled ← separator_to_properties stale request separator maps
  deref filled

unfoldable pub parse_photo_only : (Bytes → Bytes) → Bytes → FormMaps → Outcome FormMaps
parse_photo_only stale request maps = do
  separator ← get_form_separator request
  let start = (form_start request separator maps).start
  let finish = find request separator (add_size start (length separator))
  if find request separator 0 == npos || finish == npos
      then throw (runtime_error "400")
      else add_photo stale request start finish maps
