-- ===== src/Media/UnitOfWork.antt =====
-- SqlUoW (shared/adapters/driven/postgres/uow.py) around a body that follows a script.
use s1t_python_backend_templ.Base.{Result, ok, err}
use s1t_python_backend_templ.Shared.Errors.{Error}
use s1t_python_backend_templ.Shared.Postgres.{Postgres}
use s1t_python_backend_templ.Shared.Transactions.{Ran, Ended, Ended-ok, Ended-err}
use s1t_python_backend_templ.Media.Tables.{Tables}
use s1t_python_backend_templ.Media.Interfaces.{finish}
use s1t_python_backend_templ.Media.Repo.{sql_uow}

module _ {Payload A : Type 0} (pg : Postgres (Tables Payload)) where
  pub Ended-finish :
      (r : Result Error (A × Tables Payload)) (w : pg.World) (x : Result Error A × pg.World)
      → Ran pg r w x
      → Ended pg r w (finish (sql_uow pg) x)
  Ended-finish r w (ok a, w') h = Ended-ok pg r a w w' h
  Ended-finish r w (err e, w') h = Ended-err pg r e w w' h
