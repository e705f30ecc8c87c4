-- ===== src/Processing/Domain.antt =====
-- media_processing/domain: the kinds of jobs and when a join is complete; and the errors of
-- event_microservice/src/shared/generics/errors.py.
use s1t_python_backend_templ.Base.{ℕ, String, Bool, List, [], ◌∷◌, leb}

pub data JobKind : Type 0 where
  transcode plagiarism stt : JobKind

-- `kind.value`
abbrev pub kind_value : JobKind → String
kind_value transcode = "transcode"
kind_value plagiarism = "plagiarism"
kind_value stt = "stt"

-- `for kind in JobKind`, in the order of declaration.
abbrev pub job_kinds : List JobKind
job_kinds = transcode ∷ plagiarism ∷ stt ∷ []

-- JoinPolicy.is_complete
unfoldable pub is_complete : ℕ → ℕ → Bool
is_complete done_count fan_out = leb fan_out done_count

-- PortError and the exceptions of the libraries; msgspec's on a malformed payload.
pub data WorkerError : Type 0 where
  port_error : WorkerError
  malformed : WorkerError
  other : WorkerError

-- The video_status events that the service publishes.
pub data StatusEvent : Type 0 where
  processing_started processed processing_failed : ℕ → StatusEvent
