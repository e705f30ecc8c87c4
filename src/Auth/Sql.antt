-- ===== src/Auth/Sql.antt =====
-- The auth context on SQL: auth/ports/driven (orm_models.py, integration_events.py,
-- sql_user_repo.py, sql_api_key_repo.py) over a Postgres server, with the constraints of
-- migrations/auth.
pub mod Users
pub mod Registration
pub mod Accounts
pub mod Reading
pub mod Listing
use s1t_python_backend_templ.Base.{
  ℕ, ◌||◌, ◌&&◌, String, Bool, true, false, List, [], ◌∷◌, ◌++◌, Option, none, some, Result, ok,
  err, Exec, ◌>>=◌, ◌>>◌, pure, lift, any, take, map, ltb, ◌==◌, ◌is◌, if◌then◌else◌, and_then,
}
use s1t_python_backend_templ.Shared.Errors.{
  Error, email_taken, port_error, sql_error, integrity_error, value_error,
}
use s1t_python_backend_templ.Shared.Sql.{
  select_where, order_by, update_where, rowcount, scalar_one_or_none,
}
use s1t_python_backend_templ.Shared.Pagination.{before, keyset_older_than}
use s1t_python_backend_templ.Shared.Postgres.{Postgres, Statement, wrap_error, or_port_error}
use s1t_python_backend_templ.Shared.Sessions.{begun, closed}
use s1t_python_backend_templ.Media.Tables.{OutboxRow}
use s1t_python_backend_templ.Auth.Domain.{Role, role_value, role_of, UserRecord, ApiKeyRecord}
use s1t_python_backend_templ.Auth.Interfaces.{IUserRepo, IApiKeyRepo}

pub record UserRow : Type 0 where
  pub id : ℕ
  pub email : String
  pub password_hash : String
  pub role : String
  pub created_at : ℕ
  pub updated_at : ℕ
  pub deleted_at : Option ℕ

pub record ApiKeyRow : Type 0 where
  pub id : ℕ
  pub key_hash : String
  pub name : String
  pub role : String
  pub created_at : ℕ
  pub updated_at : ℕ
  pub deleted_at : Option ℕ

-- `Payload` is what msgspec.json.encode makes of an event.
pub record Tables (Payload : Type 0) : Type 0 where
  pub users : List UserRow
  pub api_keys : List ApiKeyRow
  pub outbox_messages : List (OutboxRow Payload)

-- UserRegisteredIntegration, with the envelope of shared/generics/integration_event.py.
pub record UserRegisteredIntegration : Type 0 where
  pub event_id : ℕ
  pub occurred_at : ℕ
  pub version : ℕ
  pub event_type : String
  pub user_id : ℕ
  pub role : String

abbrev pub is_null : Option ℕ → Bool
is_null none = true
is_null (some t) = false

abbrev pub has_email : String → UserRow → Bool
has_email email r = r.email is email && is_null r.deleted_at

abbrev pub has_user_id : ℕ → UserRow → Bool
has_user_id i r = r.id == i && is_null r.deleted_at

abbrev pub position : UserRow → ℕ × ℕ
position r = (r.created_at, r.id)

abbrev pub newer : UserRow → UserRow → Bool
newer r r' = before (position r') (position r)

abbrev pub on_page : Option (ℕ × ℕ) → UserRow → Bool
on_page none r = is_null r.deleted_at
on_page (some after) r = is_null r.deleted_at && keyset_older_than (position r) after

abbrev pub has_hash : String → ApiKeyRow → Bool
has_hash key_hash r = r.key_hash is key_hash && is_null r.deleted_at

abbrev pub has_key_id : ℕ → ApiKeyRow → Bool
has_key_id i r = r.id == i && is_null r.deleted_at

abbrev pub newer_key : ApiKeyRow → ApiKeyRow → Bool
newer_key r r' = ltb r'.created_at r.created_at

-- `Role(row.role)` may raise ValueError.
unfoldable pub to_user_record : UserRow → Result Error UserRecord
unfolding role_of
to_user_record r = elim (role_of r.role) [
  | none ↦ err value_error
  | some role ↦ ok (record { id = r.id; email = r.email; role = role; created_at = r.created_at })
]

unfoldable pub to_record : ApiKeyRow → Result Error ApiKeyRecord
unfolding role_of
to_record r = elim (role_of r.role) [
  | none ↦ err value_error
  | some role ↦ ok (record { id = r.id; name = r.name; role = role; created_at = r.created_at })
]

-- [f(r) for r in rows]
abbrev pub each : {A B : Type 0} → (A → Result Error B) → List A → Result Error (List B)
each f [] = ok []
each f (x ∷ xs) =
    let rest = each f xs in
    elim (f x) [ ok y ↦ elim rest [ ok ys ↦ ok (y ∷ ys) | err e ↦ err e ] | err e ↦ err e ]

abbrev pub user_row : ℕ → String → String → Role → ℕ → UserRow
user_row i email password_hash role now = record {
  id = i;
  email = email;
  password_hash = password_hash;
  role = role_value role;
  created_at = now;
  updated_at = now;
  deleted_at = none;
}

abbrev pub key_row : ℕ → String → String → Role → ℕ → ApiKeyRow
key_row i key_hash name role now = record {
  id = i;
  key_hash = key_hash;
  name = name;
  role = role_value role;
  created_at = now;
  updated_at = now;
  deleted_at = none;
}

-- A row that is gone cannot be refreshed: an InvalidRequestError.
abbrev pub created_at_of : List UserRow → Result Error ℕ
created_at_of [] = err sql_error
created_at_of (r ∷ rs) = ok r.created_at

module _ {Payload : Type 0} where
  -- The primary key, and one active account per e-mail.
  unfoldable pub insert_user : ℕ → String → String → Role → Statement (Tables Payload) (Unit {0})
  insert_user i email password_hash role now t =
      if any (λ (r : UserRow). r.id == i) t.users || any (has_email email) t.users
      then err integrity_error
      else ok (tt, record t { users = user_row i email password_hash role now ∷ t.users })

  unfoldable pub insert_outbox : ℕ → String → Payload → Statement (Tables Payload) (Unit {0})
  insert_outbox i event_type payload now t =
      if any (λ (r : OutboxRow Payload). r.id == i) t.outbox_messages
      then err integrity_error
      else ok (
        tt,
        record t {
          outbox_messages =
              t.outbox_messages
              ++ record {
                id = i;
                event_type = event_type;
                payload = payload;
                created_at = now;
                sent_at = none;
              }
                ∷ [];
        },
      )

  -- session.refresh(row, ["created_at"])
  unfoldable pub refresh_user : ℕ → Statement (Tables Payload) (List UserRow)
  refresh_user i now t = ok (select_where (λ (r : UserRow). r.id == i) t.users, t)

  unfoldable pub users_by_email : String → Statement (Tables Payload) (List UserRow)
  users_by_email email now t = ok (select_where (has_email email) t.users, t)

  unfoldable pub users_by_id : ℕ → Statement (Tables Payload) (List UserRow)
  users_by_id i now t = ok (select_where (has_user_id i) t.users, t)

  unfoldable pub users_page : Option (ℕ × ℕ) → ℕ → Statement (Tables Payload) (List UserRow)
  users_page after limit now t =
      ok (take limit (order_by newer (select_where (on_page after) t.users)), t)

  unfoldable pub delete_user : ℕ → Statement (Tables Payload) ℕ
  delete_user i now t = ok (
    rowcount (has_user_id i) t.users,
    record t {
      users =
          update_where (has_user_id i) (λ r. record r { deleted_at = some now; updated_at = now })
            t.users;
    },
  )

  unfoldable pub keys_by_hash : String → Statement (Tables Payload) (List ApiKeyRow)
  keys_by_hash key_hash now t = ok (select_where (has_hash key_hash) t.api_keys, t)

  -- The primary key, and one active key per hash.
  unfoldable pub insert_key : ℕ → String → String → Role → Statement (Tables Payload) (Unit {0})
  insert_key i key_hash name role now t =
      if any (λ (r : ApiKeyRow). r.id == i) t.api_keys || any (has_hash key_hash) t.api_keys
      then err integrity_error
      else ok (tt, record t { api_keys = key_row i key_hash name role now ∷ t.api_keys })

  unfoldable pub active_keys : Statement (Tables Payload) (List ApiKeyRow)
  active_keys now t =
      ok (order_by newer_key (select_where (λ (r : ApiKeyRow). is_null r.deleted_at) t.api_keys), t)

  unfoldable pub delete_key : ℕ → Statement (Tables Payload) ℕ
  delete_key i now t = ok (
    rowcount (has_key_id i) t.api_keys,
    record t {
      api_keys =
          update_where (has_key_id i) (λ r. record r { deleted_at = some now; updated_at = now })
            t.api_keys;
    },
  )

-- `except IntegrityError` before `except SQLAlchemyError`
abbrev pub register_error : String → Error → Error
register_error email integrity_error = email_taken email
register_error email e = wrap_error e

abbrev pub or_register_error : {S A : Type 0} → String → Result Error A × S → Result Error A × S
or_register_error email (ok a, s) = (ok a, s)
or_register_error email (err e, s) = (err (register_error email e), s)

-- What a call draws from `uuid4()` and from the clock.
pub record Draws : Type 0 where
  pub id : ℕ
  pub event_id : ℕ
  pub occurred_at : ℕ
