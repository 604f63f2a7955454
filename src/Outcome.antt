-- ===== src/Outcome.antt =====
-- What a C++ call can do: return, throw, or leave the behaviour undefined (a null optional that is
-- dereferenced, an end iterator that is read). Exceptions carry what `what()` returns.
use photogram.Prelude.{String, ◌≡◌, refl, ◌⊎◌, inl, inr}

-- `foreign` is an exception of a library (nlohmann::json, jwt-cpp, libpqxx), with the library's text.
pub data Exception : Type 0 where
  runtime_error : String → Exception
  out_of_range : Exception
  invalid_argument : Exception
  foreign : String → Exception

-- The texts of the two standard exceptions are those of the Microsoft library, which the program
-- is written for; none of them is compared with.
abbrev pub what : Exception → String
what (runtime_error s) = s
what out_of_range = "invalid string_view position"
what invalid_argument = "invalid stoi argument"
what (foreign s) = s

pub data Outcome {ℓ} (A : Type ℓ) : Type ℓ where
  ok : A → Outcome A
  throw : Exception → Outcome A
  undefined : Outcome A

infixl 5 ◌>>=◌
abbrev pub ◌>>=◌ {ℓ κ} : {A : Type ℓ} {B : Type κ} → Outcome A → (A → Outcome B) → Outcome B
ok a >>= f = f a
throw e >>= f = throw e
undefined >>= f = undefined

pub Outcome-cases {ℓ} :
    {A : Type ℓ} (r : Outcome A)
    → ((a : A) × (r ≡ ok a)) ⊎ (((e : Exception) × (r ≡ throw e)) ⊎ (r ≡ undefined))
Outcome-cases (ok a) = inl (a, refl)
Outcome-cases (throw e) = inr (inl (e, refl))
Outcome-cases undefined = inr (inr refl)

-- A call that returns behind another one: that one returns, too.
pub bind-ok {ℓ κ} :
    {A : Type ℓ} {B : Type κ} (r : Outcome A) (f : A → Outcome B) (b : B)
    → r >>= f ≡ ok b
    → (a : A) × (r ≡ ok a) × (f a ≡ ok b)
bind-ok (ok a) f b h = (a, refl, h)
bind-ok (throw e) f b h = cc
bind-ok undefined f b h = cc
