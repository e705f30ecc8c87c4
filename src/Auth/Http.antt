-- ===== src/Auth/Http.antt =====
-- auth/adapters/driving/api: the controllers of tokens, users and API keys, from the request to the
-- answer, over the facade. The guards of the routes are in Middleware.
use s1t_python_backend_templ.Base.{ℕ, String, List, Option, none, some, Result, ok, err, map}
use s1t_python_backend_templ.Shared.Errors.{Error, value_error}
use s1t_python_backend_templ.Shared.Pagination.{Page, decode_cursor}
use s1t_python_backend_templ.Auth.Domain.{Principal, TokenPair, admin, role_value}
use s1t_python_backend_templ.Auth.Facade
use s1t_python_backend_templ.Auth.Facade.{
  AuthParts, UserResponse, ApiKeyResponse, TokenPairResponse, token_pair_response, api_key_response,
}

-- A handler returns with the status of its route, or raises.
pub data Answer (A : Type 0) : Type 0 where
  responded : ℕ → A → Answer A
  not_authorized : String → Answer A
  validation_failed : String → Answer A
  raised : Error → Answer A

pub record CreatedApiKeyResponse : Type 0 where
  pub id : ℕ
  pub name : String
  pub api_key : String
  pub role : String

pub record MeResponse : Type 0 where
  pub subject : Option String
  pub role : String

abbrev pub answer_with : {W A B : Type 0} → ℕ → (A → B) → Result Error A × W → Answer B × W
answer_with status f (ok a, w) = (responded status (f a), w)
answer_with status f (err e, w) = (raised e, w)

-- `if pair is None: raise NotAuthorizedException(...)`
abbrev pub pair_or :
    {W : Type 0} → String → Result Error (Option TokenPair) × W → Answer TokenPairResponse × W
pair_or detail (ok none, w) = (not_authorized detail, w)
pair_or detail (ok (some pair), w) = (responded 200 (token_pair_response pair), w)
pair_or detail (err e, w) = (raised e, w)

-- UserController.me
unfoldable pub me : Principal → Answer MeResponse
me p = responded 200 (record { subject = p.subject; role = role_value p.role })

module _ {W : Type 0} (p : AuthParts W) where
  -- TokenController.issue
  unfoldable pub issue : ℕ → String × String → W → Answer TokenPairResponse × W
  unfolding Facade.issue_tokens token_pair_response
  issue now jtis w = answer_with 200 token_pair_response (Facade.issue_tokens p now jtis admin w)

  -- TokenController.refresh
  unfoldable pub refresh : ℕ → ℕ → ℕ → String × String → String → W → Answer TokenPairResponse × W
  unfolding Facade.refresh_tokens token_pair_response
  refresh verified_at now issued_at jtis refresh_token w =
      pair_or "invalid or expired refresh token"
        (Facade.refresh_tokens p verified_at now issued_at jtis refresh_token w)

  -- TokenController.revoke
  unfoldable pub revoke : ℕ → ℕ → String → W → Answer (Unit {0}) × W
  unfolding Facade.revoke_token
  revoke verified_at now token w =
      answer_with 204 (λ u. u) (Facade.revoke_token p verified_at now token w)

  -- UserController.register
  unfoldable pub register_user : String → String → W → Answer UserResponse × W
  unfolding Facade.register
  register_user email password w = answer_with 201 (λ u. u) (Facade.register p email password w)

  -- UserController.login
  unfoldable pub login_user :
      ℕ → String × String → String → String → W → Answer TokenPairResponse × W
  unfolding Facade.login token_pair_response
  login_user now jtis email password w =
      pair_or "invalid credentials" (Facade.login p now jtis email password w)

  -- `except ValueError` around decode_cursor
  abbrev pub users_after : ℕ → Result Error (ℕ × ℕ) → W → Answer (Page UserResponse) × W
  users_after limit (ok after) w =
      answer_with 200 (λ u. u) (Facade.list_users p (some after) limit w)
  users_after limit (err value_error) w = (validation_failed "invalid cursor", w)
  users_after limit (err e) w = (raised e, w)

  -- UserController.list_users
  unfoldable pub users_listed : Option String → ℕ → W → Answer (Page UserResponse) × W
  unfolding Facade.list_users decode_cursor
  users_listed none limit w = answer_with 200 (λ u. u) (Facade.list_users p none limit w)
  users_listed (some cursor) limit w = users_after limit (decode_cursor p.texts cursor) w

  -- UserController.deactivate
  unfoldable pub deactivate : ℕ → W → Answer (Unit {0}) × W
  unfolding Facade.deactivate_user
  deactivate user_id w = answer_with 204 (λ u. u) (Facade.deactivate_user p user_id w)

  -- ApiKeyController.create
  unfoldable pub create : String → String → W → Answer CreatedApiKeyResponse × W
  unfolding Facade.generate_api_key
  create drawn name w =
      answer_with 201
        (λ key. record { id = key.0; name = name; api_key = key.1; role = role_value admin })
        (Facade.generate_api_key p drawn name w)

  -- ApiKeyController.list_keys
  unfoldable pub list_keys : W → Answer (List ApiKeyResponse) × W
  unfolding Facade.list_api_keys api_key_response
  list_keys w = answer_with 200 (map api_key_response) (Facade.list_api_keys p w)

  -- ApiKeyController.revoke
  unfoldable pub revoke_key : ℕ → W → Answer (Unit {0}) × W
  unfolding Facade.revoke_api_key
  revoke_key api_key_id w = answer_with 204 (λ u. u) (Facade.revoke_api_key p api_key_id w)
