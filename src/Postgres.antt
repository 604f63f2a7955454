-- ===== src/Postgres.antt =====
-- What both servers use of libpqxx and PostgreSQL. The statements are in the repository, and are
-- operations on tables; what the repository does not say of the database is the parameter `Server`.
pub mod Keeps
pub mod Statements
pub mod Reading
pub mod Atomic
pub mod Returned
use photogram.Prelude.{
  ℕ, String, Bool, true, false, Option, none, some, List, [], ◌∷◌, length, if◌then◌else◌,
}
use photogram.Outcome.{Exception, foreign, Outcome, ok, throw, undefined}
use photogram.Text.{Bytes}
use photogram.Action.{Action, pure, lift, ◌>>=◌, ◌>>◌}

pub record Server (Db : Type 0) : Type 1 where
  -- whether the connection takes a statement of this name
  pub prepares : Bytes → Bool
  -- the integer that a text parameter stands for, and the text of an integer in a result
  pub read_id : Bytes → Option ℕ
  pub show_id : ℕ → Bytes
  -- the texts of the errors for a parameter that cannot be read, and for a wrong number of rows
  pub bad_input : Bytes → String
  pub unexpected_rows : ℕ → String
  -- the sequences of the ids of each table; what they have given is not given back
  pub Sequences : Type 0
  pub next_id : Bytes → Sequences → ℕ × Sequences
  -- the constraints of the schema, checked behind each statement: the error that they give
  pub violation : Db → Option String
  -- the error with which a commit fails, whose transaction is rolled back
  pub commit_error : Db → Option String

-- What is read, or the error for the text that it is read from.
abbrev pub read_or_error : {Db : Type 0} {A : Type 0} → Server Db → Bytes → Option A → Outcome A
read_or_error server t none = throw (foreign (server.bad_input t))
read_or_error server t (some a) = ok a

-- exec_prepared1 wants one row.
abbrev pub one_row : {Db : Type 0} {A : Type 0} → Server Db → List A → Outcome A
one_row server [] = throw (foreign (server.unexpected_rows 0))
one_row server (x ∷ []) = ok x
one_row server (x ∷ y ∷ rest) = throw (foreign (server.unexpected_rows (length (x ∷ y ∷ rest))))

module _ {Db : Type 0} (server : Server Db) where
  open server use {prepares, read_id, bad_input, Sequences, next_id, violation, commit_error}

  pub record Session : Type 0 where
    pub tables : Db
    pub ids : Sequences

  abbrev pub DbAction : Type 0 → Type 0
  DbAction = Action Session

  abbrev pub throw_if : {A : Type 0} → Option String → DbAction A → DbAction A
  throw_if none m = m
  throw_if (some text) m = lift (throw (foreign text))

  -- connection->prepare, of one name behind the other
  unfoldable pub prepare_all : List Bytes → DbAction Unit
  prepare_all [] = pure tt
  prepare_all (name ∷ names) =
      if prepares name
      then prepare_all names
      else lift (throw (foreign "the statement cannot be prepared"))

  -- A text bound to a parameter.
  unfoldable pub bind : {A : Type 0} → (Bytes → Option A) → Bytes → DbAction A
  bind read t = lift (read_or_error server t (read t))

  -- A statement that changes rows.
  unfoldable pub exec_prepared0 : (Db → Db) → DbAction Unit
  exec_prepared0 f s =
      throw_if (violation (f s.tables)) (λ s'. (ok tt, record s' { tables = f s'.tables })) s

  -- INSERT ... RETURNING id
  unfoldable pub exec_insert : Bytes → (ℕ → Db → Db) → DbAction ℕ
  exec_insert table f s =
      let (id, ids) = next_id table s.ids in
      throw_if (violation (f id s.tables)) (λ s'. (ok id, record s' { tables = f id s'.tables }))
        (record s { ids = ids })

  -- A statement that reads rows, and one that reads one row.
  unfoldable pub exec_prepared : {A : Type 0} → (Db → List A) → DbAction (List A)
  exec_prepared f s = (ok (f s.tables), s)

  unfoldable pub exec_prepared1 : {A : Type 0} → (Db → List A) → DbAction A
  exec_prepared1 f s = (one_row server (f s.tables), s)

  unfoldable pub commit : DbAction Unit
  commit s = throw_if (commit_error s.tables) (pure tt) s

  -- pqxx::work: what throws before the commit leaves the rows as they were, and so does a commit that fails: the commit
  -- whose outcome is in doubt, since the connection is lost in it, is left out.
  abbrev pub finish_work : {A : Type 0} → Db → Outcome A × Session → Outcome A × Session
  finish_work tables (ok a, s) = (ok a, s)
  finish_work tables (throw e, s) = (throw e, record s { tables = tables })
  finish_work tables (undefined, s) = (undefined, record s { tables = tables })

  unfoldable pub roll_back : {A : Type 0} → DbAction A → DbAction A
  roll_back m s = finish_work s.tables (m s)

  unfoldable pub work : {A : Type 0} → DbAction A → DbAction A
  work m = roll_back (m >>= λ a. commit >> pure a)
