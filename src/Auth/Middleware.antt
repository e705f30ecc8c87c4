-- ===== src/Auth/Middleware.antt =====
-- auth/adapters/auth_middleware.py and the guard of auth/ports/driving/guards.py.
use s1t_python_backend_templ.Base.{
  ℕ, ◌+◌, String, Bool, false, ◌&&◌, ◌||◌, not, List, [], ◌∷◌, Option, none, some, Result, ok, err,
  Exec, leb, ◌is◌, if◌then◌else◌,
}
use s1t_python_backend_templ.Shared.Errors.{Error, port_error}
use s1t_python_backend_templ.Auth.Domain.{Role, unknown, same_role, Principal, Strings}

-- What the middleware reads of a connection.
pub record Connection : Type 0 where
  pub authorization : Option String
  pub path : String
  pub admin_cookie : Option String

abbrev pub max_token_len : ℕ
max_token_len = 4096

abbrev pub anon : Principal
anon = record { role = unknown; token_id = "anonymous"; subject = none }

module _ (strings : Strings) (bearer_match : String → Option String) where
  -- A nonempty text of at most the maximal length.
  abbrev pub usable : String → Bool
  usable token = not (token is "") && leb (strings.len token) max_token_len

  -- The stripped group 1 of `_BEARER_RE`, given its match.
  abbrev pub bearer_token : Option String → Option String
  bearer_token none = none
  bearer_token (some group) =
      let token = strings.strip group in if usable token then some token else none

  -- From the `authorization` header.
  abbrev pub header_token : Option String → Option String
  header_token none = none
  header_token (some header) =
      if not (header is "") && leb (strings.len header) (max_token_len + 16)
      then bearer_token (bearer_match header)
      else none

  abbrev pub nonempty : String → Option String
  nonempty token = if token is "" then none else some token

  abbrev pub cookie_token : Option String → Option String
  cookie_token none = none
  cookie_token (some cookie) = if usable cookie then nonempty (strings.strip cookie) else none

  abbrev pub is_admin_path : String → Bool
  is_admin_path path = strings.startswith path "/admin" || strings.startswith path "/api/v1/admin"

  abbrev pub or_cookie : Connection → Option String → Option String
  or_cookie c (some token) = some token
  or_cookie c none = if is_admin_path c.path then cookie_token c.admin_cookie else none

  -- _extract_token
  unfoldable pub extract_token : Connection → Option String
  extract_token c = or_cookie c (header_token c.authorization)

  module _ {W : Type 0} (authenticate : String → Exec Error W (Option Principal)) where
    -- The `except PortError` and what follows.
    abbrev pub or_anon : Result Error (Option Principal) × W → Result Error Principal × W
    or_anon (ok none, w) = (ok anon, w)
    or_anon (ok (some p), w) = (ok p, w)
    or_anon (err port_error, w) = (ok anon, w)
    or_anon (err e, w) = (err e, w)

    abbrev pub authenticate_token : Option String → Exec Error W Principal
    authenticate_token none w = (ok anon, w)
    authenticate_token (some token) w = or_anon (authenticate token w)

    -- AuthMiddleware.authenticate_request: the `user` of its result.
    unfoldable pub authenticate_request : Connection → Exec Error W Principal
    unfolding extract_token
    authenticate_request c = authenticate_token (extract_token c)

pub data Verdict : Type 0 where
  not_authorized permission_denied passes : Verdict

abbrev pub one_of : Role → List Role → Bool
one_of r [] = false
one_of r (q ∷ qs) = same_role r q || one_of r qs

-- The guard that `require_role` returns.
unfoldable pub require_role : List Role → Option Principal → Verdict
require_role roles none = not_authorized
require_role roles (some p) =
    if same_role p.role unknown
    then not_authorized
    else if one_of p.role roles
    then passes
    else permission_denied
