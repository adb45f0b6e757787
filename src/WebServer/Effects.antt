-- ===== src/WebServer/Effects.antt =====
-- What a handler may do to the registry and to the tables: report events, and insert records.
use computer_service_system.Common.{
  ℕ, ◌+◌, ◌≤◌, List, [], ◌∷◌, ◌++◌, String, ◌≡◌, refl, sym, ap, ◌∙◌, inl, inr, arith, length,
  length-append,
}
use computer_service_system.Exec.{Result, Exec, lift, ◌>>=◌, try_catch, Result-cases}
use computer_service_system.Database.{ServiceRecord}
use computer_service_system.Database.Write.{add_service_record_statement, add_service_record}
use computer_service_system.Database.Atomic.{Transactional, run_statement-Atomic}
use computer_service_system.Logger.{Logger}
use computer_service_system.Metrics.Registry.Append.{run-append}
use computer_service_system.Metrics.Registry.History.{Event, apply, run}
use computer_service_system.WebServer.{
  Platform, Server, on_metrics, on_logger, on_database, on_database_or_throw,
}

module _ (p : Platform) (t : Transactional p.db) where
  open p.fl use {Double}
  open t use {Tables, committed, execute}

  -- The records inserted, oldest first.
  abbrev pub insert_all : List (ServiceRecord Double) → Tables → Tables
  insert_all [] tables = tables
  insert_all (r ∷ rs) tables =
      let insert = add_service_record_statement r in
      insert_all rs (execute insert.sql insert.params tables)

  -- From `s` to `s'` some events were reported, and at most `n` records inserted.
  pub record Effects (n : ℕ) (s s' : Server p) : Type 0 where
    pub events : List (Event Double)
    pub records : List (ServiceRecord Double)
    pub reported : s'.metrics ≡ run p.fl events s.metrics
    pub inserted : committed s'.database ≡ insert_all records (committed s.database)
    pub few : length records ≤ n

  abbrev pub Does : {A : Type 0} → ℕ → Exec (Server p) A → Type 0
  Does n m = (s : Server p) → Effects n s (m s).1

  insert_all-append :
      (rs rs' : List (ServiceRecord Double)) (tables : Tables)
      → insert_all (rs ++ rs') tables ≡ insert_all rs' (insert_all rs tables)
  insert_all-append [] rs' tables = refl
  insert_all-append (r ∷ rs) rs' tables = insert_all-append rs rs' _

  pub Effects-trans :
      {m n : ℕ} {s s' s'' : Server p} → Effects m s s' → Effects n s' s'' → Effects (m + n) s s''
  Effects-trans {m} {n} {s} e f = record {
    events = e.events ++ f.events;
    records = e.records ++ f.records;
    reported =
        f.reported
        ∙ ap (run p.fl f.events) e.reported
        ∙ sym (run-append p.fl e.events f.events s.metrics);
    inserted =
        f.inserted
        ∙ ap (insert_all f.records) e.inserted
        ∙ sym (insert_all-append e.records f.records (committed s.database));
    few = omega (arith, e.few, f.few, length-append {0} e.records f.records);
  }

  -- At most `n` is at most `n + k`, for a branch that does not go on.
  pub Effects-more : {m n : ℕ} {s s' : Server p} → m ≤ n → Effects m s s' → Effects n s s'
  Effects-more h e = record {
    events = e.events;
    records = e.records;
    reported = e.reported;
    inserted = e.inserted;
    few = omega (arith, e.few);
  }

  pub nothing : (s : Server p) → Effects 0 s s
  unfolding run
  nothing s = record {
    events = [];
    records = [];
    reported = refl;
    inserted = refl;
    few = omega arith;
  }

  pub bind-Does :
      {A B : Type 0} {a b : ℕ} (m : Exec (Server p) A) (f : A → Exec (Server p) B)
      → Does a m
      → ((x : A) → Does b (f x))
      → Does (a + b) (m >>= f)
  bind-Does m f first rest s = elim (Result-cases (m s).0) [
    | inl (x, e) ↦ rw e (Effects-trans (first s) (rest x (m s).1))
    | inr (what, e) ↦ rw e (Effects-more (omega arith) (first s))
  ]

  pub try_catch-Does :
      {A : Type 0} {a b : ℕ} (m : Exec (Server p) A) (h : String → Exec (Server p) A)
      → Does a m
      → ((what : String) → Does b (h what))
      → Does (a + b) (try_catch m h)
  try_catch-Does m h first rest s = elim (Result-cases (m s).0) [
    | inl (x, e) ↦ rw e (Effects-more (omega arith) (first s))
    | inr (what, e) ↦ rw e (Effects-trans (first s) (rest what (m s).1))
  ]

  pub lift-Does : {A : Type 0} (r : Result A) → Does 0 (lift {S = Server p} r)
  lift-Does r s = nothing s

  pub on_logger-Does : (f : Logger p.host.World → Logger p.host.World) → Does 0 (on_logger p f)
  unfolding run
  on_logger-Does f s = record {
    events = [];
    records = [];
    reported = refl;
    inserted = refl;
    few = omega arith;
  }

  -- A call that reports one event.
  pub on_metrics-Does : (e : Event Double) → Does 0 (on_metrics p (apply p.fl e))
  unfolding run
  on_metrics-Does e s = record {
    events = e ∷ [];
    records = [];
    reported = refl;
    inserted = refl;
    few = omega arith;
  }

  -- A call of the database that leaves the tables alone.
  pub on_database-Does :
      {A : Type 0} (f : p.db.World → A × p.db.World)
      → ((w : p.db.World) → committed (f w).1 ≡ committed w)
      → Does 0 (on_database p f)
  unfolding run
  on_database-Does f kept s = record {
    events = [];
    records = [];
    reported = refl;
    inserted = kept s.database;
    few = omega arith;
  }

  pub on_database_or_throw-Does :
      {A : Type 0} (f : Exec p.db.World A)
      → ((w : p.db.World) → committed (f w).1 ≡ committed w)
      → Does 0 (on_database_or_throw p f)
  unfolding run
  on_database_or_throw-Does f kept s = record {
    events = [];
    records = [];
    reported = refl;
    inserted = kept s.database;
    few = omega arith;
  }

  -- One record is inserted, or none.
  pub add_service_record-Does :
      (r : ServiceRecord Double) → Does 1 (on_database_or_throw p (add_service_record p.db r))
  unfolding run
  add_service_record-Does r s =
      elim (run_statement-Atomic p.db t (add_service_record_statement r) s.database) [
        | inl (answer, stored) ↦ record {
          events = [];
          records = r ∷ [];
          reported = refl;
          inserted = stored;
          few = omega arith;
        }
        | inr (answer, refused, inl kept) ↦ record {
          events = [];
          records = [];
          reported = refl;
          inserted = kept;
          few = omega arith;
        }
        | inr (answer, refused, inr (doubt, stored)) ↦ record {
          events = [];
          records = r ∷ [];
          reported = refl;
          inserted = stored;
          few = omega arith;
        }
      ]
