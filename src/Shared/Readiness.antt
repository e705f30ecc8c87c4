-- ===== src/Shared/Readiness.antt =====
-- shared/adapters/driven/readiness.py and the readiness endpoint of
-- admin/adapters/driving/api/health_controller.py. How each probe ended is an argument: an
-- exception stands for a failure and for a timeout.
use s1t_python_backend_templ.Base.{
  ℕ, ◌≡◌, refl, Bool, true, false, ◌&&◌, String, List, [], ◌∷◌, Result, err, ◌is◌, if◌then◌else◌,
}
use s1t_python_backend_templ.Shared.Errors.{Error}

abbrev pub Checks : Type 0
Checks = List (String × String)

pub record ReadinessReport : Type 0 where
  pub ok : Bool
  pub checks : Checks

-- `except Exception: return "down"`
abbrev pub probed : Result Error (Unit {0}) → String
probed (Result.ok u) = "up"
probed (err e) = "down"

abbrev pub all_up : Checks → Bool
all_up [] = true
all_up ((name, v) ∷ checks) = (v is "up") && all_up checks

-- ReadinessProbe.check
unfoldable pub check : Result Error (Unit {0}) → Result Error (Unit {0}) → ReadinessReport
check postgres valkey =
    let checks : Checks = ("postgres", probed postgres) ∷ ("valkey", probed valkey) ∷ [] in
    record { ok = all_up checks; checks = checks }

-- HealthController.ready: the status and the checks of the answer.
unfoldable pub ready :
    Result Error (Unit {0}) → Result Error (Unit {0}) → Result Error (Unit {0}) → ℕ × Checks
unfolding check
ready log_dir postgres valkey =
    let report = check postgres valkey in
    let checks : Checks = ("log_dir", probed log_dir) ∷ report.checks in
    let answer : ℕ × Checks = (200, checks) in
    if report.ok && (probed log_dir is "up") then answer else (503, checks)

abbrev pub is_ok : Result Error (Unit {0}) → Bool
is_ok (Result.ok u) = true
is_ok (err e) = false

abbrev pub up_or_down : Bool → String
up_or_down true = "up"
up_or_down false = "down"

-- The service is ready exactly if all three probes succeed, and each check of the answer tells how
-- its own probe ended, whatever the others did.
pub ready_lem :
    (log_dir postgres valkey : Result Error (Unit {0}))
    → ◌≡◌ {A = ℕ × Checks} (ready log_dir postgres valkey) (
      (if is_ok log_dir && is_ok postgres && is_ok valkey then 200 else 503),
      ("log_dir", up_or_down (is_ok log_dir))
          ∷ ("postgres", up_or_down (is_ok postgres))
          ∷ ("valkey", up_or_down (is_ok valkey))
          ∷ [],
    )
unfolding ready
ready_lem (Result.ok a) (Result.ok b) (Result.ok c) = refl
ready_lem (Result.ok a) (Result.ok b) (err c) = refl
ready_lem (Result.ok a) (err b) (Result.ok c) = refl
ready_lem (Result.ok a) (err b) (err c) = refl
ready_lem (err a) (Result.ok b) (Result.ok c) = refl
ready_lem (err a) (Result.ok b) (err c) = refl
ready_lem (err a) (err b) (Result.ok c) = refl
ready_lem (err a) (err b) (err c) = refl
