-- ===== src/Shared/Problems/Statuses.antt =====
-- The status of the problem that answers an exception, by what kind of exception it is.
use s1t_python_backend_templ.Base.{ℕ, ◌≡◌, Bool, true, false, Option, none, some, if◌then◌else◌}
use s1t_python_backend_templ.Shared.Errors.{
  Error, jwt_disabled, is_domain_error, is_not_found_error, is_app_error, is_port_error,
}
use s1t_python_backend_templ.Shared.Problems.{Problem, Detail, message, fixed}

abbrev pub is_jwt_disabled : Error → Bool
is_jwt_disabled jwt_disabled = true
is_jwt_disabled _ = false

-- The status by the tests of the exception's class.
abbrev pub status_of : Error → ℕ
status_of e =
    if is_domain_error e
    then 409
    else if is_not_found_error e
    then 404
    else if is_jwt_disabled e
    then 503
    else if is_app_error e
    then 422
    else if is_port_error e
    then 503
    else 500

-- The text of an exception is shown for errors of the domain and the application alone.
abbrev pub detail_of : Error → Detail
detail_of e =
    if is_domain_error e
    then message e
    else if is_app_error e
    then message e
    else if is_port_error e
    then fixed "Service temporarily unavailable"
    else fixed "Internal server error"

-- An answer of production.
abbrev pub Answers : Error → Option Problem → Type 0
Answers e none = ⊥
Answers e (some p) = (p.status_code ≡ status_of e) × (p.detail ≡ detail_of e)
