-- ===== src/Auth/Login.antt =====
-- What a login gives: login_user_uc.py with the JWT service.
use s1t_python_backend_templ.Base.{ℕ, ◌≡◌, String, true, Option, some, Result, ok, Exec}
use s1t_python_backend_templ.Shared.Errors.{Error}
use s1t_python_backend_templ.Auth.Domain.{access, refresh, TokenPair, UserRecord, Strings}
use s1t_python_backend_templ.Auth.Interfaces.{IPasswordHasher, IUserRepo, Claims}
use s1t_python_backend_templ.Auth.Jwt.{JwtService, jwt_service, issue_pair}
use s1t_python_backend_templ.Auth.Jwt.Issued.{as_decoded, issued, VerifiesAs}
use s1t_python_backend_templ.Auth.UseCases.{login_user_uc}

module _ {W : Type 0} (strings : Strings) (users : IUserRepo W) (hasher : IPasswordHasher)
    (s : JwtService) where
  abbrev pub login : ℕ → String × String → String → String → Exec Error W (Option TokenPair)
  login = login_user_uc strings users hasher (jwt_service s)

  -- An account was found, the password fits its hash, and the pair was issued for it.
  abbrev pub Issued :
      ℕ
      → String × String
      → String
      → Result Error (Option (UserRecord × String))
      → TokenPair
      → Type 0
  Issued now jtis password found pair =
      (u : UserRecord) × ((hash : String) × ((found ≡ ok (some (u, hash)))
          × ((hasher.verify password hash ≡ true)
              × (issue_pair s now jtis u.role (some (strings.uuid_text u.id)) ≡ some pair))))

  module _
      (codec_law : (cs : Claims) (token : String)
        → s.codec.encode cs ≡ some token
        → s.codec.decode token ≡ some (as_decoded cs)) where
    -- The token of an account: it verifies as this type to the account's role and id.
    abbrev pub LoggedIn :
        ℕ
        → ℕ
        → String × String
        → String
        → Result Error (Option (UserRecord × String))
        → TokenPair
        → Type 0
    LoggedIn now at jtis password found pair =
        (u : UserRecord) × ((hash : String) × ((found ≡ ok (some (u, hash)))
            × ((hasher.verify password hash ≡ true)
                × VerifiesAs s access at pair.access
                    (issued u.role s.access_ttl now (some (strings.uuid_text u.id)) jtis.0)
                × VerifiesAs s refresh at pair.refresh
                    (issued u.role s.refresh_ttl now (some (strings.uuid_text u.id)) jtis.1))))
