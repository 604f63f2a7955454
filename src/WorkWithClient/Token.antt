-- ===== src/WorkWithClient/Token.antt =====
-- The check of an access token, and what a client whose token is refused is answered.
use photogram.Prelude.{◌≡◌, refl, inl, inr, [], ◌∷◌, ◌++◌, length-append}
use photogram.Outcome.{Exception, Outcome, ok, throw, undefined, Outcome-cases}
use photogram.Text.{Bytes, codes}
use photogram.JwtToken
use photogram.JwtToken.Laws.{check_access_token-throw}
use photogram.Action.{pure, lift, ◌>>=◌, ◌>>◌, try}
use photogram.ResponseSender.{error}
use photogram.Services.{Services}
use photogram.WorkWithClient.{
  secret, Client, clear, keep, Thread, read_clock, send, send_error, reject_token,
  check_accesstoken, with_token,
}
use photogram.WorkWithClient.Answers.{Sends, Sends-then_pure}

module _ (v : Services) where
  open v use {json, jwt, now}

  -- The library writes the error object that a refused token is answered with, whose text is ASCII.
  abbrev pub ErrorDumps : Type 0
  ErrorDumps =
      (body : Bytes) × (json.dump (json.object ((codes "error", codes "invalid access token") ∷ []))
        ≡ ok body)

  -- The outcome of the check at the time that the clock shows.
  abbrev pub token_check : Bytes → Client v.db.World → Outcome Bytes
  token_check token s = JwtToken.check_access_token jwt token secret (now s.world).0

  abbrev pub after_clock : Client v.db.World → Client v.db.World
  after_clock s = record s { world = (now s.world).1 }

  pub with_token-accepted :
      (origin token : Bytes) (body : Bytes → Thread v Unit) (s : Client v.db.World) (id : Bytes)
      → token_check token s ≡ ok id
      → with_token v origin token body s ≡ (body id >> pure clear) (after_clock s)
  unfolding with_token check_accesstoken read_clock ◌>>=◌ try lift pure
  with_token-accepted origin token body s id h = rw h refl

  pub with_token-refused :
      (errors : ErrorDumps) (origin token : Bytes) (body : Bytes → Thread v Unit)
      (s : Client v.db.World) (e : Exception)
      → token_check token s ≡ throw e
      → with_token v origin token body s
        ≡ (ok keep, record (after_clock s) { sent = s.sent ++ error origin "401" errors.0 ∷ [] })
  unfolding with_token check_accesstoken reject_token send_error send read_clock ◌>>=◌ try lift pure
  with_token-refused errors origin token body s e h =
      rw (h, check_access_token-throw jwt token secret _ e h, errors.1) refl

  pub with_token-undefined :
      (origin token : Bytes) (body : Bytes → Thread v Unit) (s : Client v.db.World)
      → token_check token s ≡ undefined
      → with_token v origin token body s ≡ (undefined, after_clock s)
  unfolding with_token check_accesstoken read_clock ◌>>=◌ try lift pure
  with_token-undefined origin token body s h = rw h refl

  -- A branch behind the check sends one answer, whether the token is accepted or not.
  pub Sends-with_token :
      (errors : ErrorDumps) (origin token : Bytes) (body : Bytes → Thread v Unit)
      → ((id : Bytes) → Sends v 1 (body id))
      → Sends v 1 (with_token v origin token body)
  Sends-with_token errors origin token body kb = record {
    at = λ s. elim (Outcome-cases (token_check token s)) [
      | inl (id, e) ↦
          rw (with_token-accepted origin token body s id e)
            ((Sends-then_pure v 1 (body id) clear (kb id)).at (after_clock s))
      | inr (inl (e, h)) ↦
          rw (with_token-refused errors origin token body s e h) (length-append s.sent _)
      | inr (inr h) ↦ rw (with_token-undefined origin token body s h) refl
    ];
  }
