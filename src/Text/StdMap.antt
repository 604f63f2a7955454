-- ===== src/Text/StdMap.antt =====
-- std::map<std::string, V>: an association list in the order of its keys, so that `begin()` is the
-- least key.
use mathlib.Core.Option
use photogram.Prelude.{
  Bool, true, false, ◌&&◌, ◌||◌, Option, none, some, List, [], ◌∷◌, ltb, ◌==◌, if◌then◌else◌,
}
use photogram.Outcome.{Outcome, ok, undefined}
use photogram.Text.{Bytes, text_eq}

-- operator< of std::string
unfoldable pub text_lt : Bytes → Bytes → Bool
text_lt s [] = false
text_lt [] (d ∷ t) = true
text_lt (c ∷ s) (d ∷ t) = ltb c d || (c == d && text_lt s t)

module _ {ℓ} where
  abbrev pub StdMap : Type ℓ → Type ℓ
  StdMap V = List (Bytes × V)

  module _ {V : Type ℓ} where
    unfoldable pub lookup : Bytes → StdMap V → Option V
    lookup k [] = none
    lookup k ((j, v) ∷ m) = if text_eq j k then some v else lookup k m

    -- m[k] = v
    unfoldable pub insert : Bytes → V → StdMap V → StdMap V
    unfolding text_lt
    insert k v [] = (k, v) ∷ []
    insert k v ((j, w) ∷ m) =
        if text_eq j k
        then (k, v) ∷ m
        else if text_lt k j
        then (k, v) ∷ (j, w) ∷ m
        else (j, w) ∷ insert k v m

    -- m.begin()->second; the end of an empty map must not be read
    unfoldable pub begin_value : StdMap V → Outcome V
    begin_value [] = undefined
    begin_value ((k, v) ∷ m) = ok v

-- m[k] of a map to texts: the empty text where the key is missing
unfoldable pub get_text : Bytes → StdMap Bytes → Bytes
unfolding lookup
get_text k m = Option.get_or (lookup k m) []
