-- ===== src/Postgres/Statements.antt =====
-- A transaction of one statement that writes, or of two.
use photogram.Prelude.{
  ℕ, String, ◌≡◌, refl, ◌∙◌, ◌⊎◌, inl, inr, Option, none, some, Option-cases, List, [], ◌∷◌,
  Bool-cases,
}
use photogram.Outcome.{Exception, foreign, Outcome, ok, throw}
use photogram.Text.{Bytes}
use photogram.Action.{pure, lift, ◌>>=◌, ◌>>◌}
use photogram.Postgres.{
  Server, Session, DbAction, prepare_all, bind, exec_prepared0, exec_insert, commit, roll_back,
  work,
}

module _ {Db : Type 0} (server : Server Db) where
  open server use {violation, commit_error, next_id}

  -- A text of an error of the database.
  pub data IsServerText : String → Type 0 where
    violated : {t : String} (db : Db) → violation db ≡ some t → IsServerText t
    not_committed : {t : String} (db : Db) → commit_error db ≡ some t → IsServerText t

  pub prepare_all-cases :
      (names : List Bytes) (s : Session server)
      → (prepare_all server names s ≡ (ok tt, s))
        ⊎ (prepare_all server names s ≡ (throw (foreign "the statement cannot be prepared"), s))
  unfolding prepare_all pure lift
  prepare_all-cases [] s = inl refl
  prepare_all-cases (name ∷ names) s = elim (Bool-cases (server.prepares name)) [
    | inl e ↦ rw e (prepare_all-cases names s)
    | inr e ↦ rw e (inr refl)
  ]

  -- The call throws, and has changed no row.
  abbrev pub Fails : {A : Type 0} → Session server → Outcome A × Session server → Type 0
  Fails s r = (e : Exception) × (s' : Session server) × (r ≡ (throw e, s')) × (s'.tables ≡ s.tables)

  -- The constraints of the schema hold, and a commit is taken.
  pub record IsAdmitted (db : Db) : Type 0 where
    pub holds : violation db ≡ none
    pub commits : commit_error db ≡ none

  -- Where the tables behind the statement are admitted, it is done.
  pub work_write-ok :
      (f : Db → Db) (s : Session server)
      → IsAdmitted (f s.tables)
      → work server (exec_prepared0 server f) s ≡ (ok tt, record s { tables = f s.tables })
  unfolding work roll_back exec_prepared0 commit pure lift ◌>>=◌
  work_write-ok f s h = rw (h.holds, h.commits) refl

  pub work_write-cases :
      (f : Db → Db) (s : Session server)
      → Fails s (work server (exec_prepared0 server f) s)
        ⊎ ((work server (exec_prepared0 server f) s ≡ (ok tt, record s { tables = f s.tables }))
            × IsAdmitted (f s.tables))
  unfolding work roll_back exec_prepared0 commit pure lift ◌>>=◌
  work_write-cases f s = elim (Option-cases (violation (f s.tables))) [
    | inr (t, v) ↦ inl (foreign t, s, rw v refl, refl)
    | inl v ↦ elim (Option-cases (commit_error (f s.tables))) [
      | inr (t, c) ↦ inl (foreign t, s, rw (v, c) refl, refl)
      | inl c ↦ inr (rw (v, c) refl, record { holds = v; commits = c })
    ]
  ]

  pub work_insert-cases :
      (table : Bytes) (f : ℕ → Db → Db) (s : Session server)
      → let (id, ids) = next_id table s.ids in
        Fails s (work server (exec_insert server table f) s)
        ⊎ ((work server (exec_insert server table f) s
              ≡ (ok id, record s { ids = ids; tables = f id s.tables }))
            × IsAdmitted (f id s.tables))
  unfolding work roll_back exec_insert commit pure lift ◌>>=◌
  work_insert-cases table f s =
      let (id, ids) = next_id table s.ids in
      elim (Option-cases (violation (f id s.tables))) [
        | inr (t, v) ↦ inl (foreign t, record s { ids = ids }, rw v refl, refl)
        | inl v ↦ elim (Option-cases (commit_error (f id s.tables))) [
          | inr (t, c) ↦ inl (foreign t, record s { ids = ids }, rw (v, c) refl, refl)
          | inl c ↦ inr (rw (v, c) refl, record { holds = v; commits = c })
        ]
      ]

  -- Two statements: nothing is done of them where an error is thrown.
  pub work_writes-cases :
      (f g : Db → Db) (s : Session server)
      → ((t : String) × IsServerText t
          × (work server (exec_prepared0 server f >> exec_prepared0 server g) s
              ≡ (throw (foreign t), s)))
        ⊎ (work server (exec_prepared0 server f >> exec_prepared0 server g) s
            ≡ (ok tt, record s { tables = g (f s.tables) }))
  unfolding work roll_back exec_prepared0 commit pure lift ◌>>=◌
  work_writes-cases f g s = elim (Option-cases (violation (f s.tables))) [
    | inr (t, v) ↦ inl (t, violated (f s.tables) v, rw v refl)
    | inl v ↦ elim (Option-cases (violation (g (f s.tables)))) [
      | inr (t, w) ↦ inl (t, violated (g (f s.tables)) w, rw (v, w) refl)
      | inl w ↦ elim (Option-cases (commit_error (g (f s.tables)))) [
        | inr (t, c) ↦ inl (t, not_committed (g (f s.tables)) c, rw (v, w, c) refl)
        | inl c ↦ inr (rw (v, w, c) refl)
      ]
    ]
  ]

  -- A text that is read before the statements of a transaction.
  pub work-bind-some :
      {A B : Type 0} (read : Bytes → Option A) (t : Bytes) (a : A) (m : A → DbAction server B)
      (s : Session server)
      → read t ≡ some a
      → work server (bind server read t >>= m) s ≡ work server (m a) s
  unfolding work roll_back bind lift ◌>>=◌
  work-bind-some read t a m s h = rw h refl

  pub work-bind-none :
      {A B : Type 0} (read : Bytes → Option A) (t : Bytes) (m : A → DbAction server B)
      (s : Session server)
      → read t ≡ none
      → work server (bind server read t >>= m) s ≡ (throw (foreign (server.bad_input t)), s)
  unfolding work roll_back bind lift ◌>>=◌
  work-bind-none read t m s h = rw h refl

  -- One write behind the reading of two texts.
  pub work_two-cases :
      {A B : Type 0} (read : Bytes → Option A) (read' : Bytes → Option B) (t t' : Bytes)
      (f : A → B → Db → Db) (s : Session server)
      → let m = work server (
          bind server read t >>= λ a.
          bind server read' t' >>= λ b. exec_prepared0 server (f a b)) in
        Fails s (m s)
        ⊎ ((a : A) × (b : B) × (read t ≡ some a)
            × (read' t' ≡ some b)
            × (m s ≡ (ok tt, record s { tables = f a b s.tables })))
  work_two-cases read read' t t' f s = elim (Option-cases (read t)) [
    | inl e ↦ inl (_, s, work-bind-none read t _ s e, refl)
    | inr (a, e) ↦ elim (Option-cases (read' t')) [
      | inl e' ↦ inl (_, s, work-bind-some read t a _ s e ∙ work-bind-none read' t' _ s e', refl)
      | inr (b, e') ↦
          let q =
            work-bind-some read t a
              (λ x. bind server read' t' >>= λ y. exec_prepared0 server (f x y)) s e
            ∙ work-bind-some read' t' b _ s e' in
          elim (work_write-cases (f a b) s) [
            | inl (x, s', h, k) ↦ inl (x, s', q ∙ h, k)
            | inr (h, k) ↦ inr (a, b, e, e', q ∙ h)
          ]
    ]
  ]
