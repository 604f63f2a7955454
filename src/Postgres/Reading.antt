-- ===== src/Postgres/Reading.antt =====
-- A statement that reads one row.
use photogram.Prelude.{◌≡◌, refl, ◌⊎◌, inl, inr, List, [], ◌∷◌}
use photogram.Outcome.{Exception, foreign, throw}
use photogram.Postgres.{Server, one_row}

module _ {Db : Type 0} (server : Server Db) where
  -- The rows that are one row, and else what is thrown.
  pub one_row-cases :
      {A : Type 0} (xs : List A)
      → ((x : A) × (xs ≡ x ∷ [])) ⊎ ((e : Exception) × (one_row server xs ≡ throw e))
  one_row-cases [] = inr (foreign (server.unexpected_rows 0), refl)
  one_row-cases (x ∷ []) = inl (x, refl)
  one_row-cases (x ∷ y ∷ xs) = inr (_, refl)
