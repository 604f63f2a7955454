-- ===== src/Postgres/Atomic.antt =====
-- Calls that are all or nothing, by rules for the ways to build a call.
use photogram.Prelude.{
  ◌≡◌, refl, ◌∙◌, ◌⊎◌, inl, inr, Bool, true, false, if◌then◌else◌, List, [], ◌∷◌,
}
use photogram.Outcome.{Exception, Outcome, ok, throw, undefined}
use photogram.Text.{Bytes}
use photogram.Action.{pure, lift, continue, ◌>>=◌, handle, try}
use photogram.Postgres.{Server, Session, DbAction, prepare_all, finish_work, roll_back, work}

abbrev pub is_ok : {A : Type 0} → Outcome A → Bool
is_ok (ok a) = true
is_ok (throw e) = false
is_ok undefined = false

module _ {Db : Type 0} (server : Server Db) where
  -- The call returns, or no row is changed.
  pub record Atomic {A : Type 0} (m : DbAction server A) : Type 1 where
    pub at : (s : Session server) → (is_ok (m s).0 ≡ true) ⊎ ((m s).1.tables ≡ s.tables)

  -- The call changes no row.
  pub record Refuses {A : Type 0} (m : DbAction server A) : Type 1 where
    pub at : (s : Session server) → (m s).1.tables ≡ s.tables

  finish_work-Atomic :
      {A : Type 0} (tables : Db) (r : Outcome A) (s : Session server)
      → (is_ok (finish_work server tables (r, s)).0 ≡ true)
        ⊎ ((finish_work server tables (r, s)).1.tables ≡ tables)
  finish_work-Atomic tables (ok a) s = inl refl
  finish_work-Atomic tables (throw e) s = inr refl
  finish_work-Atomic tables undefined s = inr refl

  pub Atomic-roll_back : {A : Type 0} (m : DbAction server A) → Atomic (roll_back server m)
  unfolding roll_back
  Atomic-roll_back m = record { at = λ s. finish_work-Atomic s.tables (m s).0 (m s).1 }

  pub Atomic-work : {A : Type 0} (m : DbAction server A) → Atomic (work server m)
  unfolding work
  Atomic-work m = Atomic-roll_back _

  continue-Atomic :
      {A B : Type 0} (tables : Db) (r : Outcome A) (f : A → B) (s : Session server)
      → (is_ok r ≡ true) ⊎ (s.tables ≡ tables)
      → (is_ok (continue r (λ a. pure (f a)) s).0 ≡ true)
        ⊎ ((continue r (λ a. pure (f a)) s).1.tables ≡ tables)
  unfolding pure
  continue-Atomic tables (ok a) f s h = inl refl
  continue-Atomic tables (throw e) f s h = elim h [ inl c ↦ cc | inr d ↦ inr d ]
  continue-Atomic tables undefined f s h = elim h [ inl c ↦ cc | inr d ↦ inr d ]

  pub Atomic-then_pure :
      {A B : Type 0} (m : DbAction server A) (f : A → B) → Atomic m → Atomic (m >>= λ a. pure (f a))
  unfolding ◌>>=◌
  Atomic-then_pure m f k = record { at = λ s. continue-Atomic s.tables (m s).0 f (m s).1 (k.at s) }

  handle-Atomic :
      {A : Type 0} (tables : Db) (r : Outcome A) (h : Exception → DbAction server A)
      (s : Session server)
      → ((e : Exception) → Refuses (h e))
      → (is_ok r ≡ true) ⊎ (s.tables ≡ tables)
      → (is_ok (handle r h s).0 ≡ true) ⊎ ((handle r h s).1.tables ≡ tables)
  handle-Atomic tables (ok a) h s k p = inl refl
  handle-Atomic tables (throw e) h s k p = elim p [ inl c ↦ cc | inr d ↦ inr ((k e).at s ∙ d) ]
  handle-Atomic tables undefined h s k p = elim p [ inl c ↦ cc | inr d ↦ inr d ]

  pub Atomic-try :
      {A : Type 0} (m : DbAction server A) (h : Exception → DbAction server A)
      → Atomic m
      → ((e : Exception) → Refuses (h e))
      → Atomic (try m h)
  unfolding try
  Atomic-try m h km kh = record { at = λ s. handle-Atomic s.tables (m s).0 h (m s).1 kh (km.at s) }

  pub Refuses-lift : {A : Type 0} (r : Outcome A) → Refuses (lift r)
  unfolding lift
  Refuses-lift r = record { at = λ s. refl }

  pub Refuses-if :
      {A : Type 0} (b : Bool) (m m' : DbAction server A)
      → Refuses m
      → Refuses m'
      → Refuses (if b then m else m')
  Refuses-if true m m' k k' = k
  Refuses-if false m m' k k' = k'

  pub Refuses-prepare_all : (names : List Bytes) → Refuses (prepare_all server names)
  unfolding prepare_all pure lift
  Refuses-prepare_all [] = record { at = λ s. refl }
  Refuses-prepare_all (name ∷ names) =
      Refuses-if (server.prepares name) _ _ (Refuses-prepare_all names) (record { at = λ s. refl })

  pub Refuses-pure : {A : Type 0} (a : A) → Refuses (pure a)
  unfolding pure
  Refuses-pure a = record { at = λ s. refl }

  pub Atomic-pure : {A : Type 0} (a : A) → Atomic (pure a)
  unfolding pure
  Atomic-pure a = record { at = λ s. inl refl }

  pub Atomic-if :
      {A : Type 0} (b : Bool) (m m' : DbAction server A)
      → Atomic m
      → Atomic m'
      → Atomic (if b then m else m')
  Atomic-if true m m' k k' = k
  Atomic-if false m m' k k' = k'

  continue-after :
      {A B : Type 0} (tables : Db) (r : Outcome A) (f : A → DbAction server B) (s : Session server)
      → ((a : A) → Atomic (f a))
      → s.tables ≡ tables
      → (is_ok (continue r f s).0 ≡ true) ⊎ ((continue r f s).1.tables ≡ tables)
  continue-after tables (ok a) f s k h = elim ((k a).at s) [ inl c ↦ inl c | inr d ↦ inr (d ∙ h) ]
  continue-after tables (throw e) f s k h = inr h
  continue-after tables undefined f s k h = inr h

  -- What changes no row may come first.
  pub Atomic-after :
      {A B : Type 0} (m : DbAction server A) (f : A → DbAction server B)
      → Refuses m
      → ((a : A) → Atomic (f a))
      → Atomic (m >>= f)
  unfolding ◌>>=◌
  Atomic-after m f km kf = record {
    at = λ s. continue-after s.tables (m s).0 f (m s).1 kf (km.at s);
  }

pub ruleset atomic_rules =
    (Atomic-roll_back, Atomic-work, Atomic-then_pure, Atomic-try, Refuses-lift, Refuses-if)

pub ruleset atomic_post_rules =
    (atomic_rules, Refuses-prepare_all, Refuses-pure, Atomic-pure, Atomic-if, Atomic-after)
