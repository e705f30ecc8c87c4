-- ===== src/Auth/Interfaces.antt =====
-- auth/app/interfaces: the driven ports of the auth context.
use s1t_python_backend_templ.Base.{ℕ, String, Bool, List, Option, Exec}
use s1t_python_backend_templ.Shared.Errors.{Error}
use s1t_python_backend_templ.Auth.Domain.{
  Role, Principal, TokenType, TokenPair, VerifiedToken, ApiKeyRecord, UserRecord,
}

-- The value of a claim: a text, a datetime in microseconds, an int, or something else.
pub data ClaimValue : Type 0 where
  text : String → ClaimValue
  datetime number : ℕ → ClaimValue
  anything_else : ClaimValue

abbrev pub Claims : Type 0
Claims = List (String × ClaimValue)

pub record IJwtCodec : Type 0 where
  pub encode : Claims → Option String
  pub decode : String → Option Claims

-- `verify` is given the instant that it reads from the clock; `issue_pair` also the two `uuid4`s.
pub record IJwtService : Type 0 where
  pub issue_pair : ℕ → String × String → Role → Option String → Option TokenPair
  pub verify : ℕ → String → Option TokenType → Option VerifiedToken

pub record IPasswordHasher : Type 0 where
  pub hash : String → String
  pub verify : String → String → Bool
  pub dummy_hash : String

module _ (W : Type 0) where
  -- `add` with the `ttl_seconds`, where a negative one is 0.
  pub record IDenylist : Type 0 where
    pub add : String → ℕ → Exec Error W (Unit {0})
    pub contains : String → Exec Error W Bool

  pub record IUserRepo : Type 0 where
    pub register : String → String → Role → Exec Error W UserRecord
    pub find_credentials_by_email : String → Exec Error W (Option (UserRecord × String))
    pub is_active : ℕ → Exec Error W Bool
    pub list_page : Option (ℕ × ℕ) → ℕ → Exec Error W (List UserRecord)
    pub soft_delete : ℕ → Exec Error W Bool

  pub record IApiKeyRepo : Type 0 where
    pub find_active_by_hash : String → Exec Error W (Option ApiKeyRecord)
    pub create : String → String → Role → Exec Error W ℕ
    pub list_active : Exec Error W (List ApiKeyRecord)
    pub soft_delete : ℕ → Exec Error W Bool

  -- Resolvers read the clock: the instant comes first.
  pub record ITokenResolver : Type 0 where
    pub resolve : ℕ → String → Exec Error W (Option Principal)
