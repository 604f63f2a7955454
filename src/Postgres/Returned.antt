-- ===== src/Postgres/Returned.antt =====
-- What a call that has returned tells of its parts.
use photogram.Prelude.{◌≡◌, refl, sym, ap, ◌∙◌, false, Option, some, Option-cases, inl, inr}
use photogram.Outcome.{Exception, Outcome, ok, throw, undefined}
use photogram.Text.{Bytes}
use photogram.Action.{pure, lift, continue, ◌>>=◌, handle, try}
use photogram.Postgres.{
  Server, Session, DbAction, bind, exec_prepared0, commit, finish_work, roll_back, work,
}
use photogram.Postgres.Atomic.{is_ok}

module _ {Db : Type 0} (server : Server Db) where
  open server use {violation}

  -- The call `m` at `s` returns `a`, in the state `s'`.
  abbrev pub Returns :
      {A : Type 0} → DbAction server A → Session server → A → Session server → Type 0
  Returns m s a s' = m s ≡ (ok a, s')

  pub then-Returns :
      {A B : Type 0} (m : DbAction server A) (f : A → DbAction server B) (s s' : Session server)
      (b : B)
      → Returns (m >>= f) s b s'
      → (a : A) × (s1 : Session server) × Returns m s a s1 × Returns (f a) s1 b s'
  unfolding ◌>>=◌
  then-Returns {A} {B} m f s s' b h = go (m s).0 (m s).1 refl refl h
    where
      go :
          (r : Outcome A) (s1 : Session server)
          → (m s).0 ≡ r
          → (m s).1 ≡ s1
          → continue r f s1 ≡ (ok b, s')
          → (a : A) × (s1 : Session server) × Returns m s a s1 × Returns (f a) s1 b s'
      go (ok a) s1 e d k = (a, s1, (λ i. (e i, d i)), k)
      go (throw x) s1 e d k = cc
      go undefined s1 e d k = cc

  -- A `try` whose handler always throws.
  pub try-Returns :
      {A : Type 0} (m : DbAction server A) (h : Exception → DbAction server A)
      (s s' : Session server) (a : A)
      → ((e : Exception) (s1 : Session server) → is_ok (h e s1).0 ≡ false)
      → Returns (try m h) s a s'
      → Returns m s a s'
  unfolding try
  try-Returns {A} m h s s' a never k = go (m s).0 (m s).1 refl refl k
    where
      go :
          (r : Outcome A) (s1 : Session server)
          → (m s).0 ≡ r
          → (m s).1 ≡ s1
          → handle r h s1 ≡ (ok a, s')
          → Returns m s a s'
      go (ok b) s1 e d k = (λ i. (e i, d i)) ∙ k
      go (throw x) s1 e d k = cc (ap (λ t. is_ok t.0) k, never x s1)
      go undefined s1 e d k = cc

  -- A value that is computed before the rest, and a text that is read before it.
  pub lift-Returns :
      {A B : Type 0} (r : Outcome A) (f : A → DbAction server B) (s s' : Session server) (b : B)
      → Returns (lift r >>= f) s b s'
      → (a : A) × (r ≡ ok a) × Returns (f a) s b s'
  unfolding lift ◌>>=◌
  lift-Returns (ok a) f s s' b h = (a, refl, h)
  lift-Returns (throw e) f s s' b h = cc
  lift-Returns undefined f s s' b h = cc

  pub bind-Returns :
      {A B : Type 0} (read : Bytes → Option A) (t : Bytes) (f : A → DbAction server B)
      (s s' : Session server) (b : B)
      → Returns (bind server read t >>= f) s b s'
      → (a : A) × (read t ≡ some a) × Returns (f a) s b s'
  unfolding bind lift ◌>>=◌
  bind-Returns read t f s s' b h = elim (Option-cases (read t)) [
    | inl e ↦ cc (rw e at h)
    | inr (a, e) ↦ (a, e, rw e at h)
  ]

  pub exec_prepared0-Returns :
      (f : Db → Db) (s s' : Session server)
      → Returns (exec_prepared0 server f) s tt s'
      → s' ≡ record s { tables = f s.tables }
  unfolding exec_prepared0 lift
  exec_prepared0-Returns f s s' h = elim (Option-cases (violation (f s.tables))) [
    | inl e ↦ sym (ap (λ x. x.1) (rw e at h))
    | inr (t, e) ↦ cc (rw e at h)
  ]

  roll_back-Returns :
      {A : Type 0} (m : DbAction server A) (s s' : Session server) (a : A)
      → Returns (roll_back server m) s a s'
      → Returns m s a s'
  unfolding roll_back
  roll_back-Returns {A} m s s' a k = go (m s).0 (m s).1 refl refl k
    where
      go :
          (r : Outcome A) (s1 : Session server)
          → (m s).0 ≡ r
          → (m s).1 ≡ s1
          → finish_work server s.tables (r, s1) ≡ (ok a, s')
          → Returns m s a s'
      go (ok b) s1 e d k = (λ i. (e i, d i)) ∙ k
      go (throw x) s1 e d k = cc
      go undefined s1 e d k = cc

  commit-Returns : (s s' : Session server) → Returns (commit server) s tt s' → s ≡ s'
  unfolding commit pure lift
  commit-Returns s s' h = elim (Option-cases (server.commit_error s.tables)) [
    | inl e ↦ ap (λ x. x.1) (rw e at h)
    | inr (t, e) ↦ cc (rw e at h)
  ]

  pub work-Returns :
      {A : Type 0} (m : DbAction server A) (s s' : Session server) (a : A)
      → Returns (work server m) s a s'
      → Returns m s a s'
  unfolding work pure
  work-Returns m s s' a h =
      let (b, s1, q, k) = then-Returns m _ s s' a (roll_back-Returns _ s s' a h) in
      let (u, s2, c, p) = then-Returns (commit server) _ s1 s' a k in
      let same = commit-Returns s1 s2 c ∙ ap (λ x. x.1) p in
      let value : b ≡ a = cc (ap (λ x. x.0) p) in q ∙ (λ i. (ok (value i), same i))
