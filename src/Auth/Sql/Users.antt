-- ===== src/Auth/Sql/Users.antt =====
-- SqlUserRepo and SqlApiKeyRepo: auth/ports/driven/sql_user_repo.py and sql_api_key_repo.py.
use s1t_python_backend_templ.Base.{
  ℕ, String, Bool, true, false, List, Option, none, some, Result, ok, err, Exec, ◌>>=◌, ◌>>◌, pure,
  lift, ltb,
}
use s1t_python_backend_templ.Shared.Errors.{Error}
use s1t_python_backend_templ.Shared.Sql.{scalar_one_or_none}
use s1t_python_backend_templ.Shared.Postgres.{Postgres, or_port_error}
use s1t_python_backend_templ.Shared.Sessions.{begun, closed}
use s1t_python_backend_templ.Auth.Domain.{Role, role_value, UserRecord, ApiKeyRecord}
use s1t_python_backend_templ.Auth.Interfaces.{IUserRepo, IApiKeyRepo}
use s1t_python_backend_templ.Auth.Sql.{
  UserRow, ApiKeyRow, Tables, UserRegisteredIntegration, to_user_record, to_record, each,
  insert_user, insert_outbox, created_at_of, refresh_user, users_by_email, users_by_id, users_page,
  delete_user, keys_by_hash, insert_key, active_keys, delete_key, or_register_error, Draws,
}

-- A user and the stored hash of the password.
abbrev pub credentials : Option UserRow → Result Error (Option (UserRecord × String))
credentials none = ok none
credentials (some r) = elim (to_user_record r) [
  | ok user ↦ ok (some (user, r.password_hash))
  | err e ↦ err e
]

abbrev pub record_of : Option ApiKeyRow → Result Error (Option ApiKeyRecord)
record_of none = ok none
record_of (some r) = elim (to_record r) [ ok key ↦ ok (some key) | err e ↦ err e ]

abbrev pub is_some : {A : Type 0} → Option A → Bool
is_some none = false
is_some (some a) = true

abbrev pub registered_event : Draws → Role → UserRegisteredIntegration
registered_event draws role = record {
  event_id = draws.event_id;
  occurred_at = draws.occurred_at;
  version = 1;
  event_type = "user_registered";
  user_id = draws.id;
  role = role_value role;
}

module _ {Payload : Type 0} (pg : Postgres (Tables Payload)) where
  open pg use {World, execute}

  -- The body of the transaction: the flush of both rows, and the refresh.
  unfoldable pub register_body :
      (UserRegisteredIntegration → Payload) → Draws → String → String → Role → Exec Error World ℕ
  register_body encode draws email password_hash role =
      let event = registered_event draws role in
      execute (insert_user draws.id email password_hash role)
      >> execute (insert_outbox event.event_id event.event_type (encode event))
      >> (execute (refresh_user draws.id) >>= λ rows. lift (created_at_of rows))

  unfoldable pub register :
      (UserRegisteredIntegration → Payload)
      → Draws
      → String
      → String
      → Role
      → Exec Error World UserRecord
  unfolding register_body
  register encode draws email password_hash role = do
    created_at ← λ w.
        or_register_error email (begun pg (register_body encode draws email password_hash role w))
    pure (record { id = draws.id; email = email; role = role; created_at = created_at })

  unfoldable pub find_credentials_by_email :
      String → Exec Error World (Option (UserRecord × String))
  find_credentials_by_email email = do
    row ← λ w.
        or_port_error (
          closed pg ((execute (users_by_email email) >>= λ rows. lift (scalar_one_or_none rows)) w))
    lift (credentials row)

  unfoldable pub is_active : ℕ → Exec Error World Bool
  is_active user_id = do
    row ← λ w.
        or_port_error
          (closed pg ((execute (users_by_id user_id) >>= λ rows. lift (scalar_one_or_none rows)) w))
    pure (is_some row)

  unfoldable pub list_page : Option (ℕ × ℕ) → ℕ → Exec Error World (List UserRecord)
  list_page after limit = do
    rows ← λ w. or_port_error (closed pg (execute (users_page after limit) w))
    lift (each to_user_record rows)

  unfoldable pub soft_delete_user : ℕ → Exec Error World Bool
  soft_delete_user user_id = do
    count ← λ w. or_port_error (begun pg (execute (delete_user user_id) w))
    pure (ltb 0 count)

  -- SqlUserRepo
  abbrev pub sql_user_repo : (UserRegisteredIntegration → Payload) → Draws → IUserRepo World
  sql_user_repo encode draws = record {
    register = register encode draws;
    find_credentials_by_email = find_credentials_by_email;
    is_active = is_active;
    list_page = list_page;
    soft_delete = soft_delete_user;
  }

  unfoldable pub find_active_by_hash : String → Exec Error World (Option ApiKeyRecord)
  find_active_by_hash key_hash = do
    row ← λ w.
        or_port_error (
          closed pg
            ((execute (keys_by_hash key_hash) >>= λ rows. lift (scalar_one_or_none rows)) w))
    lift (record_of row)

  unfoldable pub create : Draws → String → String → Role → Exec Error World ℕ
  create draws key_hash name role = do
    u ← λ w. or_port_error (begun pg (execute (insert_key draws.id key_hash name role) w))
    pure draws.id

  unfoldable pub list_active : Exec Error World (List ApiKeyRecord)
  list_active = do
    rows ← λ w. or_port_error (closed pg (execute active_keys w))
    lift (each to_record rows)

  unfoldable pub soft_delete_key : ℕ → Exec Error World Bool
  soft_delete_key api_key_id = do
    count ← λ w. or_port_error (begun pg (execute (delete_key api_key_id) w))
    pure (ltb 0 count)

  -- SqlApiKeyRepo
  abbrev pub sql_api_key_repo : Draws → IApiKeyRepo World
  sql_api_key_repo draws = record {
    find_active_by_hash = find_active_by_hash;
    create = create draws;
    list_active = list_active;
    soft_delete = soft_delete_key;
  }
