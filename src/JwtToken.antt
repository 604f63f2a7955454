-- ===== src/JwtToken.antt =====
-- auth_server_src/JwtToken.cpp over jwt-cpp, which is a parameter. Times are in seconds.
pub mod Laws
use photogram.Prelude.{ℕ, ◌+◌, ◌*◌, String}
use photogram.Outcome.{Exception, runtime_error, Outcome, ok, throw, undefined}
use photogram.Text.{Bytes, codes}

-- What the servers set of a token.
pub record Claims : Type 0 where
  pub issuer : Bytes
  pub subject : Bytes
  pub issued_at : ℕ
  pub expires_at : ℕ

-- `sign` is jwt::create() ... sign(hs256); `verify` decodes a token, checks issuer, signature and
-- expiry at a time, and returns the subject, or throws.
pub record JwtLib : Type 0 where
  pub sign : Claims → Bytes → Bytes
  pub verify : Bytes → Bytes → Bytes → ℕ → Outcome Bytes

abbrev pub issuer_name : Bytes
issuer_name = codes "PhotogramAuth"

-- The clock is read twice, for the two times of a token.
abbrev pub refresh_claims : Bytes → ℕ → ℕ → Claims
refresh_claims id issued now = record {
  issuer = issuer_name;
  subject = id;
  issued_at = issued;
  expires_at = now + 7 * 24 * 3600;
}

abbrev pub access_claims : Bytes → ℕ → ℕ → Claims
access_claims id issued now = record {
  issuer = issuer_name;
  subject = id;
  issued_at = issued;
  expires_at = now + 15 * 60;
}

module _ (jwt : JwtLib) where
  unfoldable pub create_refresh_token : Bytes → Bytes → ℕ → ℕ → Bytes
  create_refresh_token id secret issued now = jwt.sign (refresh_claims id issued now) secret

  unfoldable pub create_access_token : Bytes → Bytes → ℕ → ℕ → Bytes
  create_access_token id secret issued now = jwt.sign (access_claims id issued now) secret

  -- Whatever is thrown is thrown on as an invalid access token.
  abbrev or_invalid : Outcome Bytes → Outcome Bytes
  or_invalid (ok id) = ok id
  or_invalid (throw e) = throw (runtime_error "invalid access token")
  or_invalid undefined = undefined

  unfoldable pub check_access_token : Bytes → Bytes → ℕ → Outcome Bytes
  check_access_token token secret now = or_invalid (jwt.verify token issuer_name secret now)

  unfoldable pub check_refresh_token : Bytes → Bytes → ℕ → Outcome Bytes
  check_refresh_token token secret now = jwt.verify token issuer_name secret now
