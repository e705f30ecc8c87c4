-- ===== src/Auth/Facade.antt =====
-- auth/ports/driving: the facade (auth_facade.py) and the models that it returns.
use s1t_python_backend_templ.Base.{
  ℕ, ◌==◌, String, List, [], ◌∷◌, Option, none, some, Exec, ◌>>=◌, pure, map, length, if◌then◌else◌,
}
use s1t_python_backend_templ.Shared.Errors.{Error}
use s1t_python_backend_templ.Shared.Texts.{Texts}
use s1t_python_backend_templ.Shared.Pagination.{Page, encode_cursor}
use s1t_python_backend_templ.Auth.Domain.{
  Role, admin, role_value, Principal, TokenPair, ApiKeyRecord, UserRecord, Strings,
}
use s1t_python_backend_templ.Auth.Interfaces.{
  IJwtService, IPasswordHasher, IDenylist, IUserRepo, IApiKeyRepo, ITokenResolver,
}
use s1t_python_backend_templ.Auth.UseCases.{
  authenticate_uc, issue_tokens_uc, revoke_token_uc, refresh_tokens_uc, deactivate_user_uc,
  list_users_uc, register_user_uc, login_user_uc, generate_api_key_uc, list_api_keys_uc,
  revoke_api_key_uc,
}

pub record UserResponse : Type 0 where
  pub id : ℕ
  pub email : String
  pub role : String
  pub created_at : ℕ

pub record ApiKeyResponse : Type 0 where
  pub id : ℕ
  pub name : String
  pub role : String
  pub created_at : ℕ

pub record TokenPairResponse : Type 0 where
  pub access_token : String
  pub refresh_token : String
  pub token_type : String
  pub expires_in : ℕ

unfoldable pub user_response : UserRecord → UserResponse
user_response u = record {
  id = u.id;
  email = u.email;
  role = role_value u.role;
  created_at = u.created_at;
}

unfoldable pub api_key_response : ApiKeyRecord → ApiKeyResponse
api_key_response r = record {
  id = r.id;
  name = r.name;
  role = role_value r.role;
  created_at = r.created_at;
}

unfoldable pub token_pair_response : TokenPair → TokenPairResponse
token_pair_response pair = record {
  access_token = pair.access;
  refresh_token = pair.refresh;
  token_type = "Bearer";
  expires_in = pair.expires_in;
}

abbrev pub last_of : {A : Type 0} → A → List A → A
last_of a [] = a
last_of a (b ∷ bs) = last_of b bs

abbrev pub next_cursor : Texts → ℕ → List UserRecord → Option String
next_cursor texts limit [] = none
next_cursor texts limit (u ∷ us) =
    let last = last_of u us in
    if length (u ∷ us) == limit then some (encode_cursor texts last.created_at last.id) else none

-- What AuthFacade's use cases are built of.
pub record AuthParts (W : Type 0) : Type 0 where
  pub strings : Strings
  pub texts : Texts
  pub jwt : IJwtService
  pub hasher : IPasswordHasher
  pub denylist : IDenylist W
  pub users : IUserRepo W
  pub api_keys : IApiKeyRepo W
  pub resolver : ITokenResolver W

module _ {W : Type 0} (p : AuthParts W) where
  unfoldable pub authenticate : ℕ → String → Exec Error W (Option Principal)
  unfolding authenticate_uc
  authenticate = authenticate_uc p.resolver

  unfoldable pub issue_tokens : ℕ → String × String → Role → Exec Error W TokenPair
  unfolding issue_tokens_uc
  issue_tokens = issue_tokens_uc p.jwt

  unfoldable pub refresh_tokens :
      ℕ → ℕ → ℕ → String × String → String → Exec Error W (Option TokenPair)
  unfolding refresh_tokens_uc
  refresh_tokens = refresh_tokens_uc p.strings p.users p.jwt p.denylist

  unfoldable pub revoke_token : ℕ → ℕ → String → Exec Error W (Unit {0})
  unfolding revoke_token_uc
  revoke_token = revoke_token_uc p.jwt p.denylist

  unfoldable pub generate_api_key : String → String → Exec Error W (ℕ × String)
  unfolding generate_api_key_uc
  generate_api_key drawn name = generate_api_key_uc p.strings p.api_keys drawn name admin

  unfoldable pub list_api_keys : Exec Error W (List ApiKeyRecord)
  unfolding list_api_keys_uc
  list_api_keys = list_api_keys_uc p.strings p.api_keys

  unfoldable pub revoke_api_key : ℕ → Exec Error W (Unit {0})
  unfolding revoke_api_key_uc
  revoke_api_key = revoke_api_key_uc p.strings p.api_keys

  unfoldable pub register : String → String → Exec Error W UserResponse
  unfolding register_user_uc user_response
  register email password = do
    u ← register_user_uc p.strings p.users p.hasher email password
    pure (user_response u)

  unfoldable pub login : ℕ → String × String → String → String → Exec Error W (Option TokenPair)
  unfolding login_user_uc
  login = login_user_uc p.strings p.users p.hasher p.jwt

  unfoldable pub list_users : Option (ℕ × ℕ) → ℕ → Exec Error W (Page UserResponse)
  unfolding list_users_uc user_response
  list_users after limit = do
    us ← list_users_uc p.strings p.users after limit
    pure (record { items = map user_response us; next_cursor = next_cursor p.texts limit us })

  unfoldable pub deactivate_user : ℕ → Exec Error W (Unit {0})
  unfolding deactivate_user_uc
  deactivate_user = deactivate_user_uc p.strings p.users
