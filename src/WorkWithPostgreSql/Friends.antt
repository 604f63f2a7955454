-- ===== src/WorkWithPostgreSql/Friends.antt =====
-- `makeFriend`, `deleteFriend` and `getStatus` of auth_server_src/WorkWithPostgreSQL.cpp against a
-- relation between users.
use photogram.Prelude.{
  ℕ, ◌≡◌, refl, sym, ap, ◌∙◌, ◌⊎◌, inl, inr, Bool, true, false, ◌&&◌, Option, none, some, List, [],
  ◌∷◌, ◌++◌, arith, if◌then◌else◌, Bool-cases, ◌==◌,
}
use mathlib.Core.Path.{fun_ext}
use photogram.Outcome.{runtime_error, Outcome, ok, throw, undefined}
use photogram.Text.{Bytes, codes}
use photogram.Json.{JsonLib}
use photogram.HashTools.{Sodium}
use photogram.Action.{pure, lift, ◌>>=◌, try}
use photogram.Rows.{any, delete_where, any-append, any-delete_self}
use photogram.Postgres.{Session, bind, exec_prepared1, commit, roll_back, work}
use photogram.Postgres.Statements.{work_two-cases}
use photogram.WorkWithPostgreSql.Tables.{
  Friend, Db, is_friend, exists_friend, insert_friend, remove_friend,
}
use photogram.WorkWithPostgreSql.{AuthServer}
use photogram.WorkWithPostgreSql.Queries.{get_status}
use photogram.WorkWithPostgreSql.Updates.{make_friend, delete_friend}

-- The abstract view: who is whose friend.
abbrev pub Relation : Type 0
Relation = ℕ → ℕ → Bool

-- One change of the relation.
pub record Change : Type 0 where
  pub user : ℕ
  pub friend : ℕ
  pub is_friend : Bool

abbrev pub change : Change → Relation → Relation
change c r a b = if c.user == a && c.friend == b then c.is_friend else r a b

abbrev pub change_all : List Change → Relation → Relation
change_all [] r = r
change_all (c ∷ cs) r = change_all cs (change c r)

abbrev pub relation_of : Db → Relation
relation_of db user friend = exists_friend user friend db

relation-insert :
    (user friend a b : ℕ) (db : Db)
    → relation_of (insert_friend user friend db) a b
      ≡ change (record { user = user; friend = friend; is_friend = true }) (relation_of db) a b
unfolding exists_friend insert_friend
relation-insert user friend a b db =
    ground
      (arith, any-append (is_friend a b) db.friends (record { user_id = user; friend_id = friend }))

any-remove_other :
    (user friend a b : ℕ) (fs : List Friend)
    → ((user == a) && (friend == b)) ≡ false
    → any (is_friend a b) (delete_where (is_friend user friend) fs) ≡ any (is_friend a b) fs
any-remove_other user friend a b [] n = refl
any-remove_other user friend a b (f ∷ fs) n = ground (arith, any-remove_other user friend a b fs n)

relation-remove :
    (user friend a b : ℕ) (db : Db)
    → relation_of (remove_friend user friend db) a b
      ≡ change (record { user = user; friend = friend; is_friend = false }) (relation_of db) a b
unfolding exists_friend remove_friend
relation-remove user friend a b db = elim (Bool-cases ((user == a) && (friend == b))) [
  | inl same ↦
      let p : user ≡ a = ground arith in
      let q : friend ≡ b = ground arith in
      rw (same, ← p, ← q) (any-delete_self (is_friend user friend) db.friends)
  | inr other ↦ rw other (any-remove_other user friend a b db.friends other)
]

-- What a client asks for: to make a friend, or to part with one.
pub record Asked : Type 0 where
  pub user_id : Bytes
  pub friend_id : Bytes
  pub makes : Bool

module _ (j : JsonLib) (auth : AuthServer) (sodium : Sodium) where
  open auth use {server}
  open server use {read_id, commit_error}

  abbrev pub write_friend : Bool → ℕ → ℕ → Db → Db
  write_friend true = insert_friend
  write_friend false = remove_friend

  abbrev pub ask : Asked → Session server → Outcome (Unit {0}) × Session server
  ask a s =
      if a.makes
      then make_friend j auth sodium a.user_id a.friend_id s
      else delete_friend j auth sodium a.user_id a.friend_id s

  abbrev Answered : Asked → Session server → Type 0
  Answered a s =
      ((s' : Session server) × (ask a s ≡ (throw (runtime_error "404"), s'))
        × (s'.tables ≡ s.tables))
      ⊎ ((user : ℕ) × (friend : ℕ) × (read_id a.user_id ≡ some user)
          × (read_id a.friend_id ≡ some friend)
          × (ask a s ≡ (ok tt, record s { tables = write_friend a.makes user friend s.tables })))

  -- A call fails, or its texts are read as ids and its row is written or removed.
  ask-cases :
      (user_id friend_id : Bytes) (makes : Bool) (s : Session server)
      → Answered (record { user_id = user_id; friend_id = friend_id; makes = makes }) s
  unfolding make_friend delete_friend try lift
  ask-cases user_id friend_id true s =
      elim (work_two-cases server read_id read_id user_id friend_id insert_friend s) [
        | inl (x, s', q, h) ↦ inl (s', rw q refl, h)
        | inr (user, friend, e, e', q) ↦ inr (user, friend, e, e', rw q refl)
      ]
  ask-cases user_id friend_id false s =
      elim (work_two-cases server read_id read_id user_id friend_id remove_friend s) [
        | inl (x, s', q, h) ↦ inl (s', rw q refl, h)
        | inr (user, friend, e, e', q) ↦ inr (user, friend, e, e', rw q refl)
      ]

  -- The change that a call reports: none where it throws.
  abbrev pub reported : Asked → Outcome (Unit {0}) → Option ℕ → Option ℕ → List Change
  reported a (ok _) (some user) (some friend) =
      record { user = user; friend = friend; is_friend = a.makes } ∷ []
  reported a (ok _) (some user) none = []
  reported a (ok _) none _ = []
  reported a (throw e) _ _ = []
  reported a undefined _ _ = []

  abbrev pub report : Asked → Session server → List Change
  report a s = reported a (ask a s).0 (read_id a.user_id) (read_id a.friend_id)

  abbrev pub ask_all : List Asked → Session server → Session server
  ask_all [] s = s
  ask_all (a ∷ rest) s = ask_all rest (ask a s).1

  abbrev pub report_all : List Asked → Session server → List Change
  report_all [] s = []
  report_all (a ∷ rest) s = report a s ++ report_all rest (ask a s).1

  write-change :
      (makes : Bool) (user friend a b : ℕ) (db : Db)
      → relation_of (write_friend makes user friend db) a b
        ≡ change (record { user = user; friend = friend; is_friend = makes }) (relation_of db) a b
  write-change true user friend a b db = relation-insert user friend a b db
  write-change false user friend a b db = relation-remove user friend a b db

  ask-change :
      (q : Asked) (s : Session server)
      → relation_of (ask q s).1.tables ≡ change_all (report q s) (relation_of s.tables)
  ask-change q s = elim (ask-cases q.user_id q.friend_id q.makes s) [
    | inl (s', e, h) ↦ rw e (ap relation_of h)
    | inr (user, friend, e, e', d) ↦
        rw (d, e, e') (fun_ext (λ a. fun_ext (λ b. write-change q.makes user friend a b s.tables)))
  ]

  change_all-append :
      (cs ds : List Change) (r : Relation)
      → change_all (cs ++ ds) r ≡ change_all ds (change_all cs r)
  change_all-append [] ds r = refl
  change_all-append (c ∷ cs) ds r = change_all-append cs ds (change c r)

  ask_all-change_all :
      (qs : List Asked) (s : Session server)
      → relation_of (ask_all qs s).tables ≡ change_all (report_all qs s) (relation_of s.tables)
  ask_all-change_all [] s = refl
  ask_all-change_all (q ∷ qs) s =
      ask_all-change_all qs (ask q s).1
      ∙ ap (change_all (report_all qs (ask q s).1)) (ask-change q s)
      ∙ sym (change_all-append (report q s) (report_all qs (ask q s).1) (relation_of s.tables))

  -- `makeFriend`, `deleteFriend` and `getStatus` behave as a relation between users: behind any sequence
  -- of requests, some of which throw, the status of two users is "friend" if the relation at the
  -- start, changed by each request that returned in turn, holds between them, and "stranger" if not. The texts of the two
  -- users read as ids, and the commit of the last call is taken.
  pub get_status-ask_all :
      (qs : List Asked) (s : Session server) (user_id friend_id : Bytes) (user friend : ℕ)
      → read_id user_id ≡ some user
      → read_id friend_id ≡ some friend
      → commit_error (ask_all qs s).tables ≡ none
      → (get_status j auth sodium user_id friend_id (ask_all qs s)).0
        ≡ ok (
            j.object (
              (
                codes "status",
                if change_all (report_all qs s) (relation_of s.tables) user friend
                    then codes "friend"
                    else codes "stranger",
              )
              ∷ []))
  unfolding get_status bind work roll_back exec_prepared1 commit pure lift ◌>>=◌
  get_status-ask_all qs s user_id friend_id user friend u f c =
      rw (u, f, c, ← ask_all-change_all qs s) refl
