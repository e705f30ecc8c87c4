-- ===== src/Auth/Jwt.antt =====
-- JwtService of auth/ports/driven/jwt_service.py over the codec of joserfc, a parameter.
pub mod Issued
use Prim.Native.Nat.{◌/◌}
use s1t_python_backend_templ.Base.{
  ℕ, ◌+◌, ◌*◌, String, Bool, true, false, List, [], ◌∷◌, Option, none, some, ◌is◌, leb,
  if◌then◌else◌,
}
use s1t_python_backend_templ.Auth.Domain.{
  Role, role_value, role_of, TokenType, access, refresh, type_value, TokenPair, VerifiedToken,
}
use s1t_python_backend_templ.Auth.Interfaces.{
  ClaimValue, text, datetime, number, anything_else, Claims, IJwtCodec, IJwtService,
}

-- claims.get(name)
abbrev pub get_claim : String → Claims → Option ClaimValue
get_claim name [] = none
get_claim name ((n, c) ∷ cs) = let rest = get_claim name cs in if n is name then some c else rest

-- The text, if it is one: isinstance(value, str).
abbrev pub str_claim : Option ClaimValue → Option String
str_claim (some (text s)) = some s
str_claim _ = none

abbrev pub int_claim : Option ClaimValue → Option ℕ
int_claim (some (number n)) = some n
int_claim _ = none

-- claims.get(...) == value
abbrev pub is_text : Option ClaimValue → String → Bool
is_text (some (text s)) value = s is value
is_text _ value = false

abbrev pub is_type : Option ClaimValue → Option TokenType → Bool
is_type claim none = true
is_type claim (some t) = is_text claim (type_value t)

abbrev pub bind_option : {A B : Type 0} → Option A → (A → Option B) → Option B
bind_option none f = none
bind_option (some a) f = f a

abbrev pub when : {A : Type 0} → Bool → Option A → Option A
when true o = o
when false o = none

-- `sub if isinstance(sub, str) and sub != role.value else None`
abbrev pub subject_of : Option String → Role → Option String
subject_of none role = none
subject_of (some sub) role = if sub is role_value role then none else some sub

-- `subject if subject is not None else role.value`
abbrev pub sub_of : Role → Option String → String
sub_of role none = role_value role
sub_of role (some s) = s

abbrev pub microseconds : ℕ → ℕ
microseconds s = s * 1000000

-- The token that the claims spell, from `role_value = claims.get("role")` on, but for its expiry.
abbrev pub with_role : String → ℕ → Option String → Option Role → Option VerifiedToken
with_role jti exp sub none = none
with_role jti exp sub (some role) = some (record {
  role = role;
  jti = jti;
  expires_at = microseconds exp;
  subject = subject_of sub role;
})

unfoldable pub spelled : Claims → Option VerifiedToken
unfolding role_of
spelled cs = bind_option (str_claim (get_claim "role" cs)) (λ role.
    bind_option (str_claim (get_claim "jti" cs)) (λ jti.
      bind_option (int_claim (get_claim "exp" cs))
        (λ exp. with_role jti exp (str_claim (get_claim "sub" cs)) (role_of role))))

-- `if expires_at <= self._clock.now(): return None`
abbrev pub unexpired : ℕ → VerifiedToken → Option VerifiedToken
unexpired now v = if leb v.expires_at now then none else some v

pub record JwtService : Type 0 where
  pub codec : IJwtCodec
  pub issuer : String
  pub access_ttl : ℕ
  pub refresh_ttl : ℕ

module _ (s : JwtService) where
  open s use {codec, issuer, access_ttl, refresh_ttl}

  -- JwtService._claims, for the jti that it draws.
  unfoldable pub claims : Role → TokenType → ℕ → ℕ → Option String → String → Claims
  claims role token_type ttl now subject jti =
      ("iss", text issuer)
      ∷ ("sub", text (sub_of role subject))
      ∷ ("role", text (role_value role))
      ∷ ("type", text (type_value token_type))
      ∷ ("jti", text jti)
      ∷ ("iat", datetime now)
      ∷ ("exp", datetime (now + microseconds ttl))
      ∷ []

  -- JwtService.issue_pair
  unfoldable pub issue_pair : ℕ → String × String → Role → Option String → Option TokenPair
  unfolding claims
  issue_pair now (jti, jti2) role subject =
      bind_option (codec.encode (claims role access access_ttl now subject jti)) (λ a.
        bind_option (codec.encode (claims role refresh refresh_ttl now subject jti2))
          (λ r. some (record { access = a; refresh = r; expires_in = access_ttl })))

  abbrev pub verify_claims : ℕ → Option TokenType → Claims → Option VerifiedToken
  verify_claims now expected_type cs = when (is_text (get_claim "iss" cs) issuer) (
      when (is_type (get_claim "type" cs) expected_type) (bind_option (spelled cs) (unexpired now)))

  -- JwtService.verify
  unfoldable pub verify : ℕ → String → Option TokenType → Option VerifiedToken
  unfolding spelled
  verify now token expected_type =
      bind_option (codec.decode token) (verify_claims now expected_type)

  abbrev pub jwt_service : IJwtService
  jwt_service = record { issue_pair = issue_pair; verify = verify }
