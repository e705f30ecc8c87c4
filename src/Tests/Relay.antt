-- ===== src/Tests/Relay.antt =====
-- A database with a stream beside it.
use s1t_python_backend_templ.Base.{refl, List, [], ◌∷◌, ◌++◌, Result, ok, err}
use s1t_python_backend_templ.Shared.Errors.{Error}
use s1t_python_backend_templ.Shared.Postgres.{Postgres, Executed, Committed, RolledBack}
use s1t_python_backend_templ.Shared.Outbox.{Stream}

module _ {T : Type 0} (pg : Postgres T) (E : Type 0) where
  abbrev Beside : Type 0
  Beside = pg.World × List E

  abbrev with_stream : {A : Type 0} → List E → Result Error A × pg.World → Result Error A × Beside
  with_stream entries (r, w) = (r, (w, entries))

  abbrev committed_of : Beside → T
  committed_of (w, entries) = pg.committed w

  abbrev working_of : Beside → T
  working_of (w, entries) = pg.working w

  pub Executed-law :
      {A : Type 0} (r : Result Error (A × T)) (w : pg.World) (entries : List E)
      (x : Result Error A × pg.World)
      → Executed pg.committed pg.working r w x
      → Executed committed_of working_of r (w, entries) (with_stream entries x)
  Executed-law r w entries (ok a, w') h = h
  Executed-law r w entries (err e, w') h = h

  pub Committed-law :
      (w : pg.World) (entries : List E) (x : Result Error (Unit {0}) × pg.World)
      → Committed pg.committed pg.working w x
      → Committed committed_of working_of (w, entries) (with_stream entries x)
  Committed-law w entries (ok a, w') h = h
  Committed-law w entries (err e, w') h = h

  pub RolledBack-law :
      (w : pg.World) (entries : List E) (x : Result Error (Unit {0}) × pg.World)
      → RolledBack pg.committed pg.working w x
      → RolledBack committed_of working_of (w, entries) (with_stream entries x)
  RolledBack-law w entries (ok a, w') h = h
  RolledBack-law w entries (err e, w') h = h

  abbrev pub beside : Postgres T
  beside = record {
    World = Beside;
    committed = committed_of;
    working = working_of;
    now = λ s. pg.now s.0;
    execute = λ q s. with_stream s.1 (pg.execute q s.0);
    commit = λ s. with_stream s.1 (pg.commit s.0);
    rollback = λ s. with_stream s.1 (pg.rollback s.0);
    execute_law = λ q s.
        Executed-law (q (pg.now s.0) (pg.working s.0)) s.0 s.1 (pg.execute q s.0)
          (pg.execute_law q s.0);
    now-execute = λ q s. pg.now-execute q s.0;
    commit_law = λ s. Committed-law s.0 s.1 (pg.commit s.0) (pg.commit_law s.0);
    rollback_law = λ s. RolledBack-law s.0 s.1 (pg.rollback s.0) (pg.rollback_law s.0);
  }

  abbrev pub valkey : Stream beside E
  valkey = record {
    stream = λ s. s.1;
    xadd = λ e s. (ok tt, (s.0, s.1 ++ e ∷ []));
    xadd_law = λ e s. refl;
    committed-xadd = λ e s. refl;
    working-xadd = λ e s. refl;
    now-xadd = λ e s. refl;
    stream-execute = λ q s. refl;
    stream-commit = λ s. refl;
    stream-rollback = λ s. refl;
  }
