-- ===== src/Postgres/Keeps.antt =====
-- What the calls on a database keep of its tables, by rules for the ways to build a call.
use photogram.Prelude.{
  ℕ, String, ◌≡◌, refl, Bool, true, false, Option, none, some, List, [], ◌∷◌, if◌then◌else◌,
}
use photogram.Outcome.{Exception, Outcome, ok, throw, undefined}
use photogram.Text.{Bytes}
use photogram.Action.{pure, lift, continue, ◌>>=◌, handle, try}
use photogram.Postgres.{
  Server, Session, DbAction, throw_if, prepare_all, bind, exec_prepared0, exec_insert,
  exec_prepared, exec_prepared1, commit, finish_work, roll_back, work,
}

module _ {Db : Type 0} (server : Server Db) (P : Db → Type 0) where
  open server use {violation, next_id}

  -- A call keeps `P`, whether it returns or throws.
  pub record Keeps {A : Type 0} (m : DbAction server A) : Type 1 where
    pub at : (s : Session server) → P s.tables → P (m s).1.tables

  pub Keeps-pure : {A : Type 0} (a : A) → Keeps (pure a)
  unfolding pure
  Keeps-pure a = record { at = λ s p. p }

  pub Keeps-lift : {A : Type 0} (r : Outcome A) → Keeps (lift r)
  unfolding lift
  Keeps-lift r = record { at = λ s p. p }

  continue-P :
      {A B : Type 0} (r : Outcome A) (f : A → DbAction server B) (s : Session server)
      → ((a : A) → Keeps (f a))
      → P s.tables
      → P (continue r f s).1.tables
  continue-P (ok a) f s k p = (k a).at s p
  continue-P (throw e) f s k p = p
  continue-P undefined f s k p = p

  pub Keeps-bind :
      {A B : Type 0} (m : DbAction server A) (f : A → DbAction server B)
      → Keeps m
      → ((a : A) → Keeps (f a))
      → Keeps (m >>= f)
  unfolding ◌>>=◌
  Keeps-bind m f km kf = record { at = λ s p. continue-P (m s).0 f (m s).1 kf (km.at s p) }

  handle-P :
      {A : Type 0} (r : Outcome A) (h : Exception → DbAction server A) (s : Session server)
      → ((e : Exception) → Keeps (h e))
      → P s.tables
      → P (handle r h s).1.tables
  handle-P (ok a) h s k p = p
  handle-P (throw e) h s k p = (k e).at s p
  handle-P undefined h s k p = p

  pub Keeps-try :
      {A : Type 0} (m : DbAction server A) (h : Exception → DbAction server A)
      → Keeps m
      → ((e : Exception) → Keeps (h e))
      → Keeps (try m h)
  unfolding try
  Keeps-try m h km kh = record { at = λ s p. handle-P (m s).0 h (m s).1 kh (km.at s p) }

  pub Keeps-if :
      {A : Type 0} (b : Bool) (m m' : DbAction server A)
      → Keeps m
      → Keeps m'
      → Keeps (if b then m else m')
  Keeps-if true m m' k k' = k
  Keeps-if false m m' k k' = k'

  pub Keeps-prepare_all : (names : List Bytes) → Keeps (prepare_all server names)
  unfolding prepare_all
  Keeps-prepare_all [] = Keeps-pure tt
  Keeps-prepare_all (name ∷ names) =
      Keeps-if (server.prepares name) _ _ (Keeps-prepare_all names) (Keeps-lift _)

  pub Keeps-bind_text :
      {A : Type 0} (read : Bytes → Option A) (t : Bytes) → Keeps (bind server read t)
  unfolding bind
  Keeps-bind_text read t = Keeps-lift _

  pub Keeps-exec_prepared : {A : Type 0} (f : Db → List A) → Keeps (exec_prepared server f)
  unfolding exec_prepared
  Keeps-exec_prepared f = record { at = λ s p. p }

  pub Keeps-exec_prepared1 : {A : Type 0} (f : Db → List A) → Keeps (exec_prepared1 server f)
  unfolding exec_prepared1
  Keeps-exec_prepared1 f = record { at = λ s p. p }

  throw_if-P :
      {A : Type 0} (o : Option String) (m : DbAction server A) (s : Session server)
      → (o ≡ none → P (m s).1.tables)
      → P s.tables
      → P (throw_if server o m s).1.tables
  unfolding lift
  throw_if-P none m s k p = k refl
  throw_if-P (some text) m s k p = p

  pub Keeps-commit : Keeps (commit server)
  unfolding commit pure
  Keeps-commit = record { at = λ s p. throw_if-P _ (pure tt) s (λ e. p) p }

  finish_work-P :
      {A : Type 0} (tables : Db) (r : Outcome A) (s : Session server)
      → P tables
      → P s.tables
      → P (finish_work server tables (r, s)).1.tables
  finish_work-P tables (ok a) s p q = q
  finish_work-P tables (throw e) s p q = p
  finish_work-P tables undefined s p q = p

  pub Keeps-roll_back : {A : Type 0} (m : DbAction server A) → Keeps m → Keeps (roll_back server m)
  unfolding roll_back
  Keeps-roll_back m k = record { at = λ s p. finish_work-P s.tables (m s).0 (m s).1 p (k.at s p) }

  pub Keeps-work : {A : Type 0} (m : DbAction server A) → Keeps m → Keeps (work server m)
  unfolding work
  Keeps-work m k =
      Keeps-roll_back _ (Keeps-bind m _ k (λ a. Keeps-bind _ _ Keeps-commit (λ u. Keeps-pure a)))

  -- What the constraints of the schema give.
  pub record IsGiven : Type 0 where
    pub given : (db : Db) → violation db ≡ none → P db

  pub Keeps-exec_prepared0 : (f : Db → Db) → IsGiven → Keeps (exec_prepared0 server f)
  unfolding exec_prepared0
  Keeps-exec_prepared0 f g = record { at = λ s p. throw_if-P _ _ s (λ e. g.given (f s.tables) e) p }

  pub Keeps-exec_insert :
      (table : Bytes) (f : ℕ → Db → Db) → IsGiven → Keeps (exec_insert server table f)
  unfolding exec_insert
  Keeps-exec_insert table f g = record {
    at = λ s p.
        let (id, ids) = next_id table s.ids in
        throw_if-P _ _ (record s { ids = ids }) (λ e. g.given (f id s.tables) e) p;
  }

pub ruleset read_rules = (
  Keeps-pure, Keeps-lift, Keeps-bind, Keeps-try, Keeps-if, Keeps-prepare_all, Keeps-bind_text,
  Keeps-exec_prepared, Keeps-exec_prepared1, Keeps-commit, Keeps-roll_back, Keeps-work,
)

pub ruleset write_rules = (read_rules, Keeps-exec_prepared0, Keeps-exec_insert)
