-- ===== src/Tests/AccountWitnesses.antt =====
-- The theorems on the accounts at concrete inputs.
use s1t_python_backend_templ.Base.{
  ◌≡◌, refl, take, none, arith, List, Bool, [], ◌∷◌, ok, err, true, false,
}
use s1t_python_backend_templ.Shared.Errors.{integrity_error}
use s1t_python_backend_templ.Shared.Transactions.{script_bind}
use s1t_python_backend_templ.Auth.Domain.{user, admin}
use s1t_python_backend_templ.Auth.Sql.{
  UserRow, Tables, UserRegisteredIntegration, Draws, has_user_id, user_row, position, newer,
  is_null, insert_user, delete_user,
}
use s1t_python_backend_templ.Shared.Sql.{update_where, order_by, select_where}
use s1t_python_backend_templ.Auth.Sql.Users.{register}
use s1t_python_backend_templ.Auth.Sql.Registration.{RegistrationEnded, register-RegistrationEnded}
use s1t_python_backend_templ.Auth.Sql.Accounts.{deleted_at, insert-delete}
use s1t_python_backend_templ.Auth.Sql.Listing
use s1t_python_backend_templ.Auth.Sql.Listing.{users_page-walk}
use s1t_python_backend_templ.Shared.Pagination.Walk.{walk, total}
use s1t_python_backend_templ.Tests.Server.{Server, server}

abbrev AuthTables : Type 0
AuthTables = Tables UserRegisteredIntegration

abbrev event_of : UserRegisteredIntegration → UserRegisteredIntegration
event_of e = e

abbrev no_tables : AuthTables
no_tables = record { users = []; api_keys = []; outbox_messages = [] }

abbrev with_ada : AuthTables
with_ada = record {
  users = user_row 1 "ada" "hash" user 10 ∷ [];
  api_keys = [];
  outbox_messages = [];
}

abbrev session_of : List Bool → Server AuthTables
session_of faults = record {
  committed = with_ada;
  working = with_ada;
  now = 100;
  faults = faults;
  feed = [];
}

abbrev drawn : Draws
drawn = record { id = 7; event_id = 70; occurred_at = 99 }

register-RegistrationEnded_example :
    RegistrationEnded (server AuthTables) event_of drawn "bob" "hash2" user 100 with_ada (
      register
        (server AuthTables)
        event_of
        drawn
        "bob"
        "hash2"
        user
        (session_of (false ∷ true ∷ [])))
register-RegistrationEnded_example =
    register-RegistrationEnded (server AuthTables) event_of drawn "bob" "hash2" user
      (session_of (false ∷ true ∷ [])) refl (record { user = refl; message = refl })

insert-delete_example :
    (insert_user 2 "ada" "hash2" admin 20 with_ada ≡ err integrity_error)
    × (script_bind (delete_user 1) (λ _. insert_user 2 "ada" "hash2" admin) 20 with_ada
        ≡ ok (
          tt,
          record with_ada {
            users =
                user_row 2 "ada" "hash2" admin 20
                ∷ update_where (has_user_id 1) (deleted_at 20) (with_ada.users);
          },
        ))
insert-delete_example = insert-delete with_ada 1 2 "ada" "hash2" admin 20 (refl, tt) refl refl

abbrev two_accounts : AuthTables
two_accounts = record {
  users = user_row 1 "ada" "hash" user 10 ∷ user_row 2 "bob" "hash2" user 10 ∷ [];
  api_keys = [];
  outbox_messages = [];
}

users_page-walk_example :
    walk position (Listing.page_of 100 two_accounts) (1 ∷ 1 ∷ []) none
    ≡ take
        (total (1 ∷ 1 ∷ []))
        (order_by newer (select_where (λ (r : UserRow). is_null r.deleted_at) two_accounts.users))
users_page-walk_example =
    users_page-walk 100 two_accounts (1 ∷ 1 ∷ []) ((refl, tt), (tt, tt)) (omega arith)
