-- ===== src/Action.antt =====
-- Code that may throw and that changes a state: what was changed before a throw stays changed.

use photogram.Outcome.{Exception, Outcome, ok, throw, undefined}

abbrev pub Action {ℓ κ} : Type ℓ → Type κ → Type (ℓ ⊔ κ)
Action S A = S → Outcome A × S

module _ {ℓ κ} {S : Type ℓ} {A : Type κ} where
  unfoldable pub pure : A → Action S A
  pure a s = (ok a, s)

  unfoldable pub lift : Outcome A → Action S A
  lift r s = (r, s)

module _ {ℓ κ ν} {S : Type ℓ} {A : Type κ} {B : Type ν} where
  abbrev pub continue : Outcome A → (A → Action S B) → Action S B
  continue (ok a) f s = f a s
  continue (throw e) f s = (throw e, s)
  continue undefined f s = (undefined, s)

  infixl 5 ◌>>=◌ ◌>>◌
  unfoldable pub ◌>>=◌ : Action S A → (A → Action S B) → Action S B
  ◌>>=◌ m f s = let (r, s') = m s in continue r f s'

  abbrev pub ◌>>◌ : Action S A → Action S B → Action S B
  m >> n = m >>= λ _. n

module _ {ℓ κ} {S : Type ℓ} {A : Type κ} where
  abbrev pub handle : Outcome A → (Exception → Action S A) → Action S A
  handle (ok a) h s = (ok a, s)
  handle (throw e) h s = h e s
  handle undefined h s = (undefined, s)

  -- try { m } catch (const std::exception & e) { h e }
  unfoldable pub try : Action S A → (Exception → Action S A) → Action S A
  try m h s = let (r, s') = m s in handle r h s'
