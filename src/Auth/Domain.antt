-- ===== src/Auth/Domain.antt =====
-- auth/domain and shared/domain/auth: roles, principals, tokens, API keys and user records.
use Prim.Native.String.{◌++◌}
use s1t_python_backend_templ.Base.{
  ℕ, String, Bool, true, false, Option, none, some, ◌is◌, if◌then◌else◌,
}

pub data Role : Type 0 where
  unknown user admin : Role

-- `role.value`
abbrev pub role_value : Role → String
role_value unknown = "unknown"
role_value user = "user"
role_value admin = "admin"

-- `Role(text)`; `none` for the ValueError.
unfoldable pub role_of : String → Option Role
role_of s =
    if s is "unknown"
    then some unknown
    else if s is "user"
    then some user
    else if s is "admin"
    then some admin
    else none

abbrev pub same_role : Role → Role → Bool
same_role unknown unknown = true
same_role user user = true
same_role admin admin = true
same_role _ _ = false

pub record Principal : Type 0 where
  pub role : Role
  pub token_id : String
  pub subject : Option String

pub data TokenType : Type 0 where
  access refresh : TokenType

abbrev pub type_value : TokenType → String
type_value access = "access"
type_value refresh = "refresh"

pub record TokenPair : Type 0 where
  pub access : String
  pub refresh : String
  pub expires_in : ℕ

-- `expires_at` is an instant in microseconds.
pub record VerifiedToken : Type 0 where
  pub role : Role
  pub jti : String
  pub expires_at : ℕ
  pub subject : Option String

pub record ApiKeyRecord : Type 0 where
  pub id : ℕ
  pub name : String
  pub role : Role
  pub created_at : ℕ

pub record GeneratedApiKey : Type 0 where
  pub plaintext : String
  pub key_hash : String

pub record UserRecord : Type 0 where
  pub id : ℕ
  pub email : String
  pub role : Role
  pub created_at : ℕ

-- The text functions of Python's library that the context calls.
pub record Strings : Type 0 where
  pub sha256_hexdigest : String → String
  pub strip : String → String
  pub lower : String → String
  pub startswith : String → String → Bool
  pub count_dots : String → ℕ
  pub len : String → ℕ
  -- `hex[:8]` of a UUID, and the first eight characters of a text.
  pub hex8 : ℕ → String
  pub first8 : String → String
  -- str(user_id) and UUID(text)
  pub uuid_text : ℕ → String
  pub uuid : String → Option ℕ

module _ (strings : Strings) where
  -- hash_api_key
  unfoldable pub hash_api_key : String → String
  hash_api_key key = strings.sha256_hexdigest key

  -- generate_api_key, for the random text that it draws.
  unfoldable pub generate_api_key : String → GeneratedApiKey
  unfolding hash_api_key
  generate_api_key drawn = record {
    plaintext = "ak_" ++ drawn;
    key_hash = hash_api_key ("ak_" ++ drawn);
  }

  -- normalize_email
  unfoldable pub normalize_email : String → String
  normalize_email email = strings.lower (strings.strip email)
