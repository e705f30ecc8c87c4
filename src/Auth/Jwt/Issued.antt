-- ===== src/Auth/Jwt/Issued.antt =====
-- What the tokens of a pair verify to.
use Prim.Native.Nat.{◌/◌}
use s1t_python_backend_templ.Base.{ℕ, ◌+◌, ◌≡◌, String, [], ◌∷◌, Option, none, some}
use s1t_python_backend_templ.Auth.Domain.{Role, TokenType, access, refresh, VerifiedToken}
use s1t_python_backend_templ.Auth.Interfaces.{text, datetime, number, anything_else, Claims}
use s1t_python_backend_templ.Auth.Jwt.{
  JwtService, verify, unexpired, microseconds, subject_of, sub_of,
}

-- joserfc writes a datetime as an int of whole seconds.
abbrev pub as_decoded : Claims → Claims
as_decoded [] = []
as_decoded ((n, datetime t) ∷ cs) = (n, number (t / 1000000)) ∷ as_decoded cs
as_decoded ((n, text s) ∷ cs) = (n, text s) ∷ as_decoded cs
as_decoded ((n, number k) ∷ cs) = (n, number k) ∷ as_decoded cs
as_decoded ((n, anything_else) ∷ cs) = (n, anything_else) ∷ as_decoded cs

abbrev pub other_type : TokenType → TokenType
other_type access = refresh
other_type refresh = access

-- The token of a type that was issued at `now` with this life.
abbrev pub issued : Role → ℕ → ℕ → Option String → String → VerifiedToken
issued role ttl now subject jti = record {
  role = role;
  jti = jti;
  expires_at = microseconds ((now + microseconds ttl) / 1000000);
  subject = subject_of (some (sub_of role subject)) role;
}

module _ (s : JwtService) where
  -- Verified as its own type it is the token issued, unless it has expired; as the other, nothing.
  abbrev pub VerifiesAs : TokenType → ℕ → String → VerifiedToken → Type 0
  VerifiesAs t at token v =
      (verify s at token (some t) ≡ unexpired at v)
      × (verify s at token none ≡ unexpired at v)
      × (verify s at token (some (other_type t)) ≡ none)
