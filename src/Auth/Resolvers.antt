-- ===== src/Auth/Resolvers.antt =====
-- The token resolvers of auth/ports/driven, and their composition in auth/provider.py.
use s1t_python_backend_templ.Base.{
  ℕ, String, Bool, true, false, List, [], ◌∷◌, Option, none, some, Exec, ◌>>=◌, pure, ◌==◌, ◌is◌,
  if◌then◌else◌,
}
use s1t_python_backend_templ.Shared.Errors.{Error}
use s1t_python_backend_templ.Auth.Domain.{
  admin, Principal, access, VerifiedToken, ApiKeyRecord, Strings, hash_api_key,
}
use s1t_python_backend_templ.Auth.Interfaces.{IJwtService, IDenylist, IApiKeyRepo, ITokenResolver}

abbrev pub unless_denied : Bool → VerifiedToken → Option Principal
unless_denied true v = none
unless_denied false v = some (record { role = v.role; token_id = v.jti; subject = v.subject })

module _ (strings : Strings) where
  abbrev pub principal_of : Option ApiKeyRecord → Option Principal
  principal_of none = none
  principal_of (some r) =
      some (record { role = r.role; token_id = strings.hex8 r.id; subject = none })

  abbrev pub admin_if : Bool → String → Option Principal
  admin_if false token = none
  admin_if true token = some (record {
    role = admin;
    token_id = strings.first8 (strings.sha256_hexdigest token);
    subject = none;
  })

  -- StaticTokenResolver.resolve, for the configured `admin_token`.
  unfoldable pub resolve_static : Option String → String → Option Principal
  resolve_static none token = none
  resolve_static (some admin_value) token =
      if admin_value is "" then none else admin_if (token is admin_value) token

module _ {W : Type 0} (strings : Strings) where
  abbrev pub resolve_verified : IDenylist W → Option VerifiedToken → Exec Error W (Option Principal)
  resolve_verified denylist none = pure none
  resolve_verified denylist (some v) = do
    denied ← denylist.contains v.jti
    pure (unless_denied denied v)

  abbrev pub shaped : Bool → Exec Error W (Option Principal) → Exec Error W (Option Principal)
  shaped true m = m
  shaped false m = pure none

  -- JwtTokenResolver.resolve
  unfoldable pub resolve_jwt :
      IJwtService → IDenylist W → ℕ → String → Exec Error W (Option Principal)
  resolve_jwt jwt denylist now token =
      shaped (strings.count_dots token == 2)
        (resolve_verified denylist (jwt.verify now token (some access)))

  -- ApiKeyResolver.resolve
  unfoldable pub resolve_api_key : IApiKeyRepo W → String → Exec Error W (Option Principal)
  unfolding hash_api_key
  resolve_api_key repo token = shaped (strings.startswith token "ak_") do
    found ← repo.find_active_by_hash (hash_api_key strings token)
    pure (principal_of strings found)

  abbrev pub or_else :
      Option Principal → Exec Error W (Option Principal) → Exec Error W (Option Principal)
  or_else none rest = rest
  or_else (some p) rest = pure (some p)

  abbrev pub first_of : List (Exec Error W (Option Principal)) → Exec Error W (Option Principal)
  first_of [] = pure none
  first_of (m ∷ ms) = do principal ← m; or_else principal (first_of ms)

  -- CompositeTokenResolver.resolve with the resolvers of `AuthProvider.token_resolver`.
  unfoldable pub resolve :
      IJwtService
      → IDenylist W
      → IApiKeyRepo W
      → Option String
      → ℕ
      → String
      → Exec Error W (Option Principal)
  unfolding resolve_jwt resolve_api_key resolve_static
  resolve jwt denylist repo admin_token now token = first_of (
      resolve_jwt jwt denylist now token
      ∷ resolve_api_key repo token
      ∷ pure (resolve_static strings admin_token token)
      ∷ [])

  abbrev pub token_resolver :
      IJwtService → IDenylist W → IApiKeyRepo W → Option String → ITokenResolver W
  token_resolver jwt denylist repo admin_token = record {
    resolve = resolve jwt denylist repo admin_token;
  }
