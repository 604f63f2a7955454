-- ===== src/Json.antt =====
-- What the auth server uses of nlohmann::json, as a parameter of the model.
use photogram.Prelude.{Bool, List}
use photogram.Outcome.{Outcome}
use photogram.Text.{Bytes}

pub record JsonLib : Type 1 where
  pub Json : Type 0
  -- the value of a new nlohmann::json
  pub null : Json
  -- json::parse, which throws on a malformed text
  pub parse : Bytes → Outcome Json
  -- std::string v = j[key], which throws where the value is no text
  pub text_at : Json → Bytes → Outcome Bytes
  -- bool b = j[key], which throws where the value is no bool
  pub bool_at : Json → Bytes → Outcome Bool
  -- j.get<std::string>()
  pub as_text : Json → Outcome Bytes
  -- the object with the given texts, in the order of the assignments
  pub object : List (Bytes × Bytes) → Json
  -- j[key] = b, of an object
  pub set_bool : Bytes → Bool → Json → Json
  -- j.push_back(element), of null or an array
  pub push_back : Json → Json → Json
  -- j.dump(), which throws on a text that is not UTF-8
  pub dump : Json → Outcome Bytes
