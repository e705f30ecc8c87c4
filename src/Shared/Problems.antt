-- ===== src/Shared/Problems.antt =====
-- shared/adapters/problem_details.py and EXCEPTION_TO_PROBLEM of root/composition/app.py: the
-- problem that answers an exception. Litestar takes the handler of the first class of the
-- exception's method resolution order that has one.
pub mod Statuses
use s1t_python_backend_templ.Base.{
  ℕ, String, Bool, true, false, List, [], ◌∷◌, Option, none, some, if◌then◌else◌,
}
use Prim.Native.String.{◌++◌}
use s1t_python_backend_templ.Shared.Errors.{
  Error, empty_source_key, invalid_transition, video_not_found, idempotency_key_reused, email_taken,
  jwt_disabled, api_key_not_found, user_not_found, port_error, sql_error, integrity_error,
  multiple_results, redis_error, value_error, unexpected,
}

-- The classes that handlers are registered for, and the others.
pub data Class : Type 0 where
  domain_class app_class jwt_disabled_class not_found_class port_class : Class
  exception_class : Class
  unregistered : String → Class

-- type(exc).__mro__, down to Exception
unfoldable pub classes_of : Error → List Class
classes_of empty_source_key = unregistered "EmptySourceKey" ∷ domain_class ∷ exception_class ∷ []
classes_of (invalid_transition frm to) =
    unregistered "InvalidTransition" ∷ domain_class ∷ exception_class ∷ []
classes_of (video_not_found i) =
    unregistered "VideoNotFound" ∷ not_found_class ∷ app_class ∷ exception_class ∷ []
classes_of (idempotency_key_reused k) =
    unregistered "IdempotencyKeyReused" ∷ app_class ∷ exception_class ∷ []
classes_of (email_taken email) =
    unregistered "EmailTakenError" ∷ domain_class ∷ exception_class ∷ []
classes_of jwt_disabled = jwt_disabled_class ∷ app_class ∷ exception_class ∷ []
classes_of (api_key_not_found i) =
    unregistered "ApiKeyNotFound" ∷ not_found_class ∷ app_class ∷ exception_class ∷ []
classes_of (user_not_found i) =
    unregistered "UserNotFound" ∷ not_found_class ∷ app_class ∷ exception_class ∷ []
classes_of port_error = port_class ∷ exception_class ∷ []
classes_of sql_error = unregistered "SQLAlchemyError" ∷ exception_class ∷ []
classes_of integrity_error = unregistered "IntegrityError" ∷ exception_class ∷ []
classes_of multiple_results = unregistered "MultipleResultsFound" ∷ exception_class ∷ []
classes_of redis_error = unregistered "RedisError" ∷ exception_class ∷ []
classes_of value_error = unregistered "ValueError" ∷ exception_class ∷ []
classes_of unexpected = exception_class ∷ []

-- What the client is told: `str(exc)`, or a fixed text.
pub data Detail : Type 0 where
  message : Error → Detail
  fixed : String → Detail

-- The `type_` is the slug of the class, or fixed.
pub data ProblemType : Type 0 where
  slug_of : Error → ProblemType
  urn : String → ProblemType

pub record Problem : Type 0 where
  pub status_code : ℕ
  pub title : String
  pub detail : Detail
  pub type_of : ProblemType

abbrev pub domain_to_problem : Error → Problem
domain_to_problem exc = record {
  status_code = 409;
  title = "Conflict";
  detail = message exc;
  type_of = slug_of exc;
}

abbrev pub app_to_problem : Error → Problem
app_to_problem exc = record {
  status_code = 422;
  title = "Unprocessable Entity";
  detail = message exc;
  type_of = slug_of exc;
}

abbrev pub jwt_disabled_to_problem : Error → Problem
jwt_disabled_to_problem exc = record {
  status_code = 503;
  title = "JWT Not Configured";
  detail = message exc;
  type_of = urn "jwt-disabled";
}

abbrev pub not_found_to_problem : Error → Problem
not_found_to_problem exc = record {
  status_code = 404;
  title = "Not Found";
  detail = message exc;
  type_of = slug_of exc;
}

abbrev pub port_to_problem : Error → Problem
port_to_problem exc = record {
  status_code = 503;
  title = "Service Unavailable";
  detail = fixed "Service temporarily unavailable";
  type_of = urn "service-unavailable";
}

abbrev pub unexpected_to_problem : Error → Problem
unexpected_to_problem exc = record {
  status_code = 500;
  title = "Internal Server Error";
  detail = fixed "Internal server error";
  type_of = urn "internal";
}

-- EXCEPTION_TO_PROBLEM, with the catch-all of production.
abbrev pub handler_of : Bool → Class → Option (Error → Problem)
handler_of is_dev domain_class = some domain_to_problem
handler_of is_dev app_class = some app_to_problem
handler_of is_dev jwt_disabled_class = some jwt_disabled_to_problem
handler_of is_dev not_found_class = some not_found_to_problem
handler_of is_dev port_class = some port_to_problem
handler_of true exception_class = none
handler_of false exception_class = some unexpected_to_problem
handler_of is_dev (unregistered name) = none

abbrev pub first_handler : Bool → List Class → Option (Error → Problem)
first_handler is_dev [] = none
first_handler is_dev (c ∷ cs) =
    let rest = first_handler is_dev cs in
    elim (handler_of is_dev c) [ some h ↦ some h | none ↦ rest ]

-- The problem that answers an exception; `none` is the debug page of development.
unfoldable pub answer : Bool → Error → Option Problem
unfolding classes_of
answer is_dev exc = elim (first_handler is_dev (classes_of exc)) [
  | some h ↦ some (h exc)
  | none ↦ none
]
