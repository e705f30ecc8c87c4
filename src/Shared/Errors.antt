-- ===== src/Shared/Errors.antt =====
-- The exceptions of the backend (shared/generics/errors.py and the errors of each context), with
-- those of the libraries that it catches. Texts such as `str(exc)` carry no behaviour.
use s1t_python_backend_templ.Base.{ℕ, String, Bool, true, false}

pub data Error : Type 0 where
  -- media_example/domain/errors.py
  empty_source_key : Error
  invalid_transition : String → String → Error
  -- media_example/app/errors.py
  video_not_found : ℕ → Error
  idempotency_key_reused : String → Error
  -- auth/domain/user.py, auth/app/errors.py
  email_taken : String → Error
  jwt_disabled : Error
  api_key_not_found : ℕ → Error
  user_not_found : ℕ → Error
  -- shared/generics/errors.py
  port_error : Error
  -- sqlalchemy.exc: a failure of the server or the connection, a violated constraint
  sql_error integrity_error multiple_results : Error
  -- redis.exceptions, the built-in ValueError, any other exception
  redis_error value_error unexpected : Error

-- isinstance(exc, DomainError)
abbrev pub is_domain_error : Error → Bool
is_domain_error empty_source_key = true
is_domain_error (invalid_transition frm to) = true
is_domain_error (email_taken email) = true
is_domain_error _ = false

-- isinstance(exc, NotFoundError)
abbrev pub is_not_found_error : Error → Bool
is_not_found_error (video_not_found i) = true
is_not_found_error (api_key_not_found i) = true
is_not_found_error (user_not_found i) = true
is_not_found_error _ = false

-- isinstance(exc, AppError): NotFoundError is a subclass.
abbrev pub is_app_error : Error → Bool
is_app_error (idempotency_key_reused k) = true
is_app_error jwt_disabled = true
is_app_error e = is_not_found_error e

-- isinstance(exc, PortError)
abbrev pub is_port_error : Error → Bool
is_port_error port_error = true
is_port_error _ = false

-- isinstance(exc, SQLAlchemyError)
abbrev pub is_sqlalchemy_error : Error → Bool
is_sqlalchemy_error sql_error = true
is_sqlalchemy_error integrity_error = true
is_sqlalchemy_error multiple_results = true
is_sqlalchemy_error _ = false
