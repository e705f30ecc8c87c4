-- ===== src/Tests/AuthWitnesses.antt =====
-- The theorems of the auth context at concrete inputs.
use s1t_python_backend_templ.Base.{
  refl, arith, [], ◌∷◌, none, some, ok, Option, String, Exec, ◌is◌, if◌then◌else◌,
}
use s1t_python_backend_templ.Shared.Errors.{Error}
use s1t_python_backend_templ.Auth.Domain.{
  user, Principal, access, refresh, TokenPair, VerifiedToken,
}
use s1t_python_backend_templ.Auth.Jwt.{issue_pair, verify}
use s1t_python_backend_templ.Auth.Denylist.{add, contains, valkey_denylist}
use s1t_python_backend_templ.Auth.UseCases.{revoke_token_uc, refresh_tokens_uc}
use s1t_python_backend_templ.Auth.Resolvers.{resolve_jwt}
use s1t_python_backend_templ.Auth.Revocation.Later.{Refused, revoke_token_uc-Refused}
use s1t_python_backend_templ.Auth.Revocation.Rotation.{refresh_at, refresh_tokens_uc-once}
use s1t_python_backend_templ.Auth.Middleware.{
  Connection, extract_token, authenticate_request, require_role,
}
use s1t_python_backend_templ.Auth.Access.{
  Backed, Extracted, authenticate_request-passes, extract_token-Extracted,
}
use s1t_python_backend_templ.Tests.Tokens.{jwt, Memory, valkey, strings, users, at_start}

abbrev pair : TokenPair
pair = record { access = "a.b.c"; refresh = "d.e.f"; expires_in = 2 }

abbrev accessed : VerifiedToken
accessed = record { role = user; jti = "jti-a"; expires_at = 3000000; subject = some "1" }

abbrev refreshed : VerifiedToken
refreshed = record { role = user; jti = "jti-r"; expires_at = 10000000; subject = some "1" }

abbrev after_revoke : Memory
after_revoke =
    (revoke_token_uc (record { issue_pair = issue_pair jwt; verify = verify jwt })
      (valkey_denylist valkey) 1600000 1600000 "a.b.c" at_start).1

revoke_token_uc-Refused_example :
    Refused valkey jwt strings
      (resolve_jwt strings
        (record { issue_pair = issue_pair jwt; verify = verify jwt })
        (valkey_denylist valkey)
        2999999
        "a.b.c"
        after_revoke).0
unfolding verify revoke_token_uc add
revoke_token_uc-Refused_example =
    revoke_token_uc-Refused valkey jwt strings accessed 1600000 1600000 2999999 "a.b.c" at_start
      after_revoke after_revoke refl (omega arith) refl (omega arith) (omega arith) (omega arith)

abbrev after_refresh : Memory
after_refresh =
    (refresh_at valkey jwt strings users 1600000 1600000 1500000 ("jti-a", "jti-r") "d.e.f"
      at_start).1

refresh_tokens_uc-once_example :
    Refused valkey jwt strings
      (refresh_at valkey jwt strings users 1700000 1700000 1500000
        ("jti-a", "jti-r")
        "d.e.f"
        after_refresh).0
unfolding verify issue_pair refresh_tokens_uc contains add
refresh_tokens_uc-once_example =
    refresh_tokens_uc-once valkey jwt strings users refreshed 1600000 1600000 1500000
      ("jti-a", "jti-r") "d.e.f" at_start pair after_refresh 1700000 1700000 1500000
      ("jti-a", "jti-r") after_refresh refl (omega arith) refl (omega arith) (omega arith)
      (omega arith)

abbrev someone : Principal
someone = record { role = user; token_id = "jti-a"; subject = none }

abbrev lookup : String → Exec Error Memory (Option Principal)
lookup token m = (ok (if token is "a.b.c" then some someone else none), m)

abbrev bearer : String → Option String
bearer header = if header is "Bearer a.b.c" then some "a.b.c" else none

abbrev request : Connection
request = record { authorization = some "Bearer a.b.c"; path = "/videos"; admin_cookie = none }

authenticate_request-passes_example :
    Backed strings bearer lookup
      (user ∷ [])
      (extract_token strings bearer request)
      at_start
      someone
      at_start
unfolding extract_token authenticate_request require_role
authenticate_request-passes_example =
    authenticate_request-passes strings bearer lookup (user ∷ []) request at_start someone at_start
      refl refl

extract_token-Extracted_example :
    Extracted strings bearer request (extract_token strings bearer request)
extract_token-Extracted_example = extract_token-Extracted strings bearer request
