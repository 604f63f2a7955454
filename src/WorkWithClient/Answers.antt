-- ===== src/WorkWithClient/Answers.antt =====
-- How many answers a piece of the client's thread sends, by rules for the ways to build it.
use photogram.Prelude.{
  ℕ, ◌+◌, ◌≡◌, refl, Bool, true, false, [], ◌∷◌, arith, length, length-append, if◌then◌else◌,
}
use photogram.Outcome.{Exception, Outcome, ok, throw, undefined}
use photogram.Action.{pure, lift, continue, ◌>>=◌, ◌>>◌, handle, try}
use photogram.ResponseSender.{Response}
use photogram.Services.{Services}
use photogram.WorkWithClient.{Client, Thread, call, read_clock, send}

-- A call that returns has sent `n` answers; one that throws, or is undefined, has sent none.
abbrev pub Counted : {A : Type 0} → ℕ → Outcome A → ℕ → ℕ → Type 0
Counted n (ok a) before after = after ≡ before + n
Counted n (throw e) before after = after ≡ before
Counted n undefined before after = after ≡ before

module _ (v : Services) where
  pub record Sends {A : Type 0} (n : ℕ) (m : Thread v A) : Type 1 where
    pub at : (s : Client v.db.World) → Counted n (m s).0 (length s.sent) (length (m s).1.sent)

  Counted-zero : {A : Type 0} (r : Outcome A) (k : ℕ) → Counted 0 r k k
  Counted-zero (ok a) k = omega arith
  Counted-zero (throw e) k = refl
  Counted-zero undefined k = refl

  pub Sends-pure : {A : Type 0} (a : A) → Sends 0 (pure a)
  unfolding pure
  Sends-pure a = record { at = λ s. omega arith }

  pub Sends-lift : {A : Type 0} (r : Outcome A) → Sends 0 (lift r)
  unfolding lift
  Sends-lift r = record { at = λ s. Counted-zero r (length s.sent) }

  pub Sends-throw : {A : Type 0} (n : ℕ) (e : Exception) → Sends {A = A} n (lift (throw e))
  unfolding lift
  Sends-throw n e = record { at = λ s. refl }

  pub Sends-call : {A : Type 0} (f : v.db.World → Outcome A × v.db.World) → Sends 0 (call v f)
  unfolding call
  Sends-call f = record { at = λ s. Counted-zero (f s.world).0 (length s.sent) }

  pub Sends-read_clock : Sends 0 (read_clock v)
  unfolding read_clock
  Sends-read_clock = record { at = λ s. omega arith }

  pub Sends-send : (r : Response) → Sends 1 (send v r)
  unfolding send
  Sends-send r = record { at = λ s. length-append s.sent (r ∷ []) }

  -- What sends nothing may stand before anything.
  pub Sends-bind :
      {A B : Type 0} (n : ℕ) (m : Thread v A) (f : A → Thread v B)
      → Sends 0 m
      → ((a : A) → Sends n (f a))
      → Sends n (m >>= f)
  unfolding ◌>>=◌
  Sends-bind {A} n m f km kf = record { at = λ s. go (m s).0 (m s).1 s (km.at s) }
    where
      go :
          (r : Outcome A) (s' s : Client v.db.World)
          → Counted 0 r (length s.sent) (length s'.sent)
          → Counted n (continue r f s').0 (length s.sent) (length (continue r f s').1.sent)
      go (ok a) s' s h =
          let same : length s'.sent ≡ length s.sent = omega arith in rw (← same) ((kf a).at s')
      go (throw e) s' s h = h
      go undefined s' s h = h

  -- Nothing that may fail stands behind an answer.
  pub Sends-then_pure :
      {A B : Type 0} (n : ℕ) (m : Thread v A) (b : B) → Sends n m → Sends n (m >> pure b)
  unfolding ◌>>=◌ pure
  Sends-then_pure {A} n m b km = record { at = λ s. go (m s).0 (m s).1 s (km.at s) }
    where
      go :
          (r : Outcome A) (s' s : Client v.db.World)
          → Counted n r (length s.sent) (length s'.sent)
          → Counted n
              (continue r (λ _. pure b) s').0
              (length s.sent)
              (length (continue r (λ _. pure b) s').1.sent)
      go (ok a) s' s h = h
      go (throw e) s' s h = h
      go undefined s' s h = h

  pub Sends-try :
      {A : Type 0} (n : ℕ) (m : Thread v A) (h : Exception → Thread v A)
      → Sends n m
      → ((e : Exception) → Sends n (h e))
      → Sends n (try m h)
  unfolding try
  Sends-try {A} n m h km kh = record { at = λ s. go (m s).0 (m s).1 s (km.at s) }
    where
      go :
          (r : Outcome A) (s' s : Client v.db.World)
          → Counted n r (length s.sent) (length s'.sent)
          → Counted n (handle r h s').0 (length s.sent) (length (handle r h s').1.sent)
      go (ok a) s' s c = c
      go (throw e) s' s c = rw (← c) ((kh e).at s')
      go undefined s' s c = c

  pub Sends-if :
      {A : Type 0} (n : ℕ) (b : Bool) (m m' : Thread v A)
      → Sends n m
      → Sends n m'
      → Sends n (if b then m else m')
  Sends-if n true m m' k k' = k
  Sends-if n false m m' k k' = k'

pub ruleset sends_rules = (
  Sends-pure, Sends-lift, Sends-throw, Sends-call, Sends-read_clock, Sends-send, Sends-bind,
  Sends-then_pure, Sends-try, Sends-if,
)
