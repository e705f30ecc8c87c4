-- ===== src/Auth/Sql/Reading.antt =====
-- Reading accounts and keys: a lookup finds the one active row, and changes nothing.
use s1t_python_backend_templ.Base.{◌≡◌, ◌⊎◌, String, Option, Result, err, Exec, ◌>>=◌, lift}
use s1t_python_backend_templ.Shared.Errors.{Error, port_error}
use s1t_python_backend_templ.Shared.Postgres.{Postgres, Statement}
use s1t_python_backend_templ.Shared.Sql.{scalar_one_or_none}
use s1t_python_backend_templ.Shared.Transactions.{script_bind, returns}
use s1t_python_backend_templ.Auth.Domain.{UserRecord}
use s1t_python_backend_templ.Auth.Sql.{UserRow, Tables, has_email, users_by_email}
use s1t_python_backend_templ.Auth.Sql.Users.{credentials}
use s1t_python_backend_templ.Auth.Sql.Accounts.{find_first}

module _ {Payload : Type 0} (pg : Postgres (Tables Payload)) (email : String) where
  open pg use {World, committed, working, now, execute}

  lookup_script : Statement (Tables Payload) (Option UserRow)
  lookup_script = script_bind (users_by_email email) (λ rows. returns (scalar_one_or_none rows))

  lookup_body : Exec Error World (Option UserRow)
  lookup_body = execute (users_by_email email) >>= λ rows. lift (scalar_one_or_none rows)

  -- How a lookup ended, in the tables `t`: as the one row says, or by the server.
  abbrev pub LookedUp :
      Tables Payload → Result Error (Option (UserRecord × String)) × World → Type 0
  LookedUp t (r, w') =
      (committed w' ≡ t)
      × ((r ≡ credentials (find_first (has_email email) t.users)) ⊎ (r ≡ err port_error))
