-- ===== src/Shared/Postgres.antt =====
-- The Postgres server behind one SQLAlchemy session. Both are outside the repository, so they are
-- a parameter: an abstract world, with the documented behaviour of transactions as laws.
use s1t_python_backend_templ.Base.{
  ℕ, ◌≡◌, ◌⊎◌, Result, ok, err, Exec, Option, none, some, if◌then◌else◌,
}
use s1t_python_backend_templ.Shared.Errors.{Error, sql_error, port_error, is_sqlalchemy_error}

-- What one SQL statement means: from the server's `now()` and the tables that the transaction sees
-- to its result and the tables after it, or the violated constraint.
abbrev pub Statement : Type 0 → Type 0 → Type 0
Statement T A = ℕ → T → Result Error (A × T)

-- A statement ran, and the transaction sees its effect; or it failed, by the server or by its own
-- constraint. Nothing is committed by it either way.
abbrev pub Executed :
    {World T A : Type 0}
    → (committed working : World → T) → Result Error (A × T)
    → World
    → Result Error A × World
    → Type 0
Executed committed working r w (ok a, w') = (r ≡ ok (a, working w')) × (committed w' ≡ committed w)
Executed committed working r w (err e, w') =
    ((e ≡ sql_error) ⊎ (r ≡ err e)) × (committed w' ≡ committed w)

-- After COMMIT the tables are what the transaction saw. If it fails, the server may have
-- committed before the connection was lost.
abbrev pub Committed :
    {World T : Type 0}
    → (committed working : World → T) → World
    → Result Error (Unit {0}) × World
    → Type 0
Committed committed working w (ok _, w') = (committed w' ≡ working w) × (working w' ≡ working w)
Committed committed working w (err e, w') =
    (e ≡ sql_error) × ((committed w' ≡ committed w) ⊎ (committed w' ≡ working w))

abbrev pub RolledBack :
    {World T : Type 0}
    → (committed working : World → T) → World
    → Result Error (Unit {0}) × World
    → Type 0
RolledBack committed working w (ok _, w') =
    (committed w' ≡ committed w) × (working w' ≡ committed w)
RolledBack committed working w (err e, w') = (e ≡ sql_error) × (committed w' ≡ committed w)

pub record Postgres (T : Type 0) : Type 1 where
  pub World : Type 0
  -- What other sessions see, and what the next statement of this session sees.
  pub committed : World → T
  pub working : World → T
  pub now : World → ℕ
  pub execute : {A : Type 0} → Statement T A → Exec Error World A
  pub commit : Exec Error World (Unit {0})
  pub rollback : Exec Error World (Unit {0})
  pub execute_law :
      {A : Type 0} (q : Statement T A) (w : World)
      → Executed committed working (q (now w) (working w)) w (execute q w)
  -- `now()` is the start of the transaction.
  pub now-execute : {A : Type 0} (q : Statement T A) (w : World) → now (execute q w).1 ≡ now w
  pub commit_law : (w : World) → Committed committed working w (commit w)
  pub rollback_law : (w : World) → RolledBack committed working w (rollback w)

-- `except SQLAlchemyError as exc: raise PortError(...) from exc`
abbrev pub wrap_error : Error → Error
wrap_error e = if is_sqlalchemy_error e then port_error else e

abbrev pub or_port_error : {S A : Type 0} → Result Error A × S → Result Error A × S
or_port_error (ok a, s) = (ok a, s)
or_port_error (err e, s) = (err (wrap_error e), s)

-- shared/adapters/driven/postgres/uow.py
module _ {T : Type 0} (pg : Postgres T) where
  open pg use {World, commit, rollback}

  -- SqlUoW.__aexit__, by whether the body raised.
  abbrev pub aexit : Option Error → Exec Error World (Unit {0})
  aexit (some exc) w = or_port_error (rollback w)
  aexit none w = or_port_error (commit w)
