-- ===== src/Media/Status/Quiet.antt =====
-- Code that sends nothing to the live feed.
use s1t_python_backend_templ.Base.{
  ◌≡◌, refl, ◌∙◌, Result, ok, err, Exec, and_then, ◌>>=◌, pure, raise, lift,
}
use s1t_python_backend_templ.Shared.Errors.{Error}
use s1t_python_backend_templ.Shared.Postgres.{Postgres, Statement, or_port_error}
use s1t_python_backend_templ.Shared.Sql.{scalar_one_or_none}
use s1t_python_backend_templ.Media.Tables.{Tables}
use s1t_python_backend_templ.Media.Video.{Video}
use s1t_python_backend_templ.Media.Interfaces.{finish, with_uow}
use s1t_python_backend_templ.Media.Statements.{save_stmt, get_by_id_stmt, row_to_domain}
use s1t_python_backend_templ.Media.Repo.{sql_uow, save, get_by_id}
use s1t_python_backend_templ.Media.Feed.{Channels}
use s1t_python_backend_templ.Base.{ℕ}

module _ {Payload : Type 0} {pg : Postgres (Tables Payload)} (channels : Channels pg) where
  open pg use {World, execute, commit, rollback}
  open channels use {feed}

  pub record Quiet {A : Type 0} (m : Exec Error World A) : Type 0 where
    pub at : (w : World) → feed (m w).1 ≡ feed w

  feed-or_port_error :
      {A : Type 0} (x : Result Error A × World) → feed (or_port_error x).1 ≡ feed x.1
  feed-or_port_error (ok a, w) = refl
  feed-or_port_error (err e, w) = refl

  Quiet-execute :
      {A : Type 0} (q : Statement (Tables Payload) A) → Quiet (λ w. or_port_error (execute q w))
  Quiet-execute q = record {
    at = λ w. feed-or_port_error (execute q w) ∙ channels.feed-execute q w;
  }

  Quiet-lift : {A : Type 0} (r : Result Error A) → Quiet (lift r)
  Quiet-lift r = record { at = λ w. refl }

  feed-and_then :
      {A B : Type 0} (x : Result Error A × World) (f : A → Exec Error World B)
      → ((a : A) → Quiet (f a))
      → feed (and_then x f).1 ≡ feed x.1
  feed-and_then (ok a, w) f h = (h a).at w
  feed-and_then (err e, w) f h = refl

  Quiet-bind :
      {A B : Type 0} {m : Exec Error World A} {f : A → Exec Error World B}
      → Quiet m
      → ((a : A) → Quiet (f a))
      → Quiet (m >>= f)
  Quiet-bind {m = m} {f = f} h k = record { at = λ w. feed-and_then (m w) f k ∙ h.at w }

  pub Quiet-get_by_id : (i : ℕ) → Quiet (get_by_id pg i)
  unfolding get_by_id
  Quiet-get_by_id i = Quiet-bind (Quiet-execute (get_by_id_stmt i)) (λ rows.
      Quiet-bind (Quiet-lift (scalar_one_or_none rows)) (λ row. Quiet-lift (row_to_domain row)))

  feed-finish :
      {A : Type 0} (x : Result Error A × World) → feed (finish (sql_uow pg) x).1 ≡ feed x.1
  feed-finish (ok a, w) =
      feed-and_then (or_port_error (commit w)) (λ _. pure a) (λ _. Quiet-lift (ok a))
      ∙ feed-or_port_error (commit w)
      ∙ channels.feed-commit w
  feed-finish (err e, w) =
      feed-and_then (or_port_error (rollback w)) (λ _. raise e) (λ _. Quiet-lift (err e))
      ∙ feed-or_port_error (rollback w)
      ∙ channels.feed-rollback w

  -- Saving within the unit of work.
  pub Quiet-save : (v : Video) → Quiet (with_uow (sql_uow pg) (save pg v))
  unfolding save
  Quiet-save v = record { at = λ w. feed-finish (save pg v w) ∙ (Quiet-execute (save_stmt v)).at w }
