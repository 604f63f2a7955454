-- ===== src/JwtToken/Laws.antt =====
-- How long the tokens are good for.
use photogram.Prelude.{ℕ, ◌+◌, ◌≤◌, ◌<◌, ◌≡◌, ◌≢◌, inl, inr, arith, ltb, if◌then◌else◌, Bool-cases}
use photogram.Outcome.{Exception, runtime_error, ok, throw}
use photogram.Text.{Bytes}
use photogram.JwtToken.{
  Claims, JwtLib, refresh_claims, access_claims, create_refresh_token, create_access_token,
  check_access_token,
}

-- What jwt-cpp documents of the tokens that it has signed itself: from the time at which it was issued
-- and before its expiry, a token is verified with the secret and the issuer that it was signed with,
-- and after its expiry the verifier throws. In the second of the expiry itself it depends on the
-- fraction of the clock, which is not modelled.
pub record IsJwt (jwt : JwtLib) : Type 0 where
  pub accepts :
      (c : Claims) (secret : Bytes) (now : ℕ)
      → c.issued_at ≤ now
      → now < c.expires_at
      → jwt.verify (jwt.sign c secret) c.issuer secret now ≡ ok c.subject
  pub refuses :
      (c : Claims) (secret : Bytes) (now : ℕ)
      → c.expires_at < now
      → (e : Exception) × (jwt.verify (jwt.sign c secret) c.issuer secret now ≡ throw e)

module _ (jwt : JwtLib) (laws : IsJwt jwt) (id secret : Bytes) (issued now later : ℕ) where
  -- With a library that signs and verifies as documented, an access token gives its user's id from its
  -- issue on for fifteen minutes, and behind the second in which these end it is refused with the text
  -- that the server answers 401 to.
  pub check_access_token-create_access_token :
      issued ≤ later
      → later ≢ now + 900
      → check_access_token jwt (create_access_token jwt id secret issued now) secret later
        ≡ (if ltb later (now + 900) then ok id else throw (runtime_error "invalid access token"))
  unfolding check_access_token create_access_token
  check_access_token-create_access_token since apart = elim (Bool-cases (ltb later (now + 900))) [
    | inl young ↦
        rw (young, laws.accepts (access_claims id issued now) secret later since (ground arith))
    | inr old ↦
        let (e, q) = laws.refuses (access_claims id issued now) secret later (ground arith) in
        rw (old, q)
  ]

  -- With such a library, a refresh token passes for an access token, from its issue on for its seven days.
  pub check_access_token-create_refresh_token :
      issued ≤ later
      → later < now + 604800
      → check_access_token jwt (create_refresh_token jwt id secret issued now) secret later ≡ ok id
  unfolding check_access_token create_refresh_token
  check_access_token-create_refresh_token since h =
      rw (laws.accepts (refresh_claims id issued now) secret later since (omega arith))

-- Whatever is thrown, it is thrown as this text.
pub check_access_token-throw :
    (jwt : JwtLib) (token secret : Bytes) (now : ℕ) (e : Exception)
    → check_access_token jwt token secret now ≡ throw e
    → e ≡ runtime_error "invalid access token"
unfolding check_access_token
check_access_token-throw jwt token secret now e h = ground arith
