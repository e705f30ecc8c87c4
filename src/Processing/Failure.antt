-- ===== src/Processing/Failure.antt =====
-- What happens to a video whose job failed.
use s1t_python_backend_templ.Base.{
  ℕ, ◌≡◌, ◌⊎◌, Bool, true, false, Option, none, some, Result, ok, err, ltb, if◌then◌else◌,
}
use s1t_python_backend_templ.Processing.Domain.{WorkerError, port_error, processing_failed}
use s1t_python_backend_templ.Processing.Ports.{no_kinds, Shown, set_join, add_event, Backends}
use s1t_python_backend_templ.Processing.Entrypoints.{Job}

-- `processing_failed` is on the stream, or not; the join is cleared, or not.
abbrev pub reported : ℕ → Bool → Bool → Shown → Shown
reported i published cleared v =
    let v' = if published then add_event (processing_failed i) v else v in
    if cleared then set_join i no_kinds v' else v'

-- `after_process` reports a job that raised for the last time.
abbrev pub is_terminal : Bool → Option Job → Bool
is_terminal false job = false
is_terminal true none = false
is_terminal true (some job) = if ltb job.attempts job.retries then false else true

abbrev pub video_of : Option Job → ℕ
video_of none = 0
video_of (some job) = job.video_id

module _ {W : Type 0} (b : Backends W) where
  open b use {view}

  -- The failure was reported as far as the backends worked; if the call returned, the join is
  -- cleared.
  abbrev pub Reported : ℕ → W → Result WorkerError (Unit {0}) × W → Type 0
  Reported i w (ok u, w') = (p : Bool) × (view w' ≡ reported i p true (view w))
  Reported i w (err e, w') =
      (e ≡ port_error) × ((p : Bool) × ((c : Bool) × (view w' ≡ reported i p c (view w))))

  -- What the hook did: nothing, or the report of a terminal failure.
  abbrev pub Hooked : Bool → Option Job → W → Result WorkerError (Unit {0}) × W → Type 0
  Hooked raised job w x =
      (x.0 ≡ ok tt)
      × ((is_terminal raised job ≡ false × (x.1 ≡ w))
          ⊎ (is_terminal raised job ≡ true
              × ((p : Bool) × ((c : Bool) × (view x.1 ≡ reported (video_of job) p c (view w))))))
