-- ===== src/Processing/Entrypoints.antt =====
-- The driving side of the worker service: adapters/driving/uploaded_consumer.py and saq_jobs.py,
-- and `after_process` of root/entrypoints/saq_worker.py.
use s1t_python_backend_templ.Base.{
  ℕ, Bool, true, false, Option, none, some, Result, ok, err, Exec, ◌>>◌, pure, raise, ltb,
}
use s1t_python_backend_templ.Processing.Domain.{JobKind, WorkerError, malformed}
use s1t_python_backend_templ.Processing.Ports.{Backends}
use s1t_python_backend_templ.Processing.UseCases.{
  complete_job_uc, on_job_failed_uc, on_video_uploaded_uc,
}

-- VideoUploadedSchema, as far as the service reads it.
pub record VideoUploadedSchema : Type 0 where
  pub event_id : ℕ
  pub video_id : ℕ

-- What SAQ hands `after_process`: the job, and whether it raised.
pub record Job : Type 0 where
  pub video_id : ℕ
  pub attempts : ℕ
  pub retries : ℕ

module _ {W : Type 0} (b : Backends W) where
  -- MediaProcessingFacade, with `_fan_out=len(JobKind)`.
  abbrev pub on_uploaded : ℕ → ℕ → Exec WorkerError W (Unit {0})
  on_uploaded = on_video_uploaded_uc b.queue b.publisher b.inbox

  abbrev pub complete_job : ℕ → JobKind → Exec WorkerError W (Unit {0})
  complete_job = complete_job_uc b.store 3 b.publisher

  abbrev pub on_job_failed : ℕ → Exec WorkerError W (Unit {0})
  on_job_failed = on_job_failed_uc b.store b.publisher

  abbrev pub handle_decoded : Option VideoUploadedSchema → Exec WorkerError W (Unit {0})
  handle_decoded none = raise malformed
  handle_decoded (some event) = on_uploaded event.video_id event.event_id

  -- handle_uploaded: `decoded` is what msgspec makes of the payload, or none.
  unfoldable pub handle_uploaded : Option VideoUploadedSchema → Exec WorkerError W (Unit {0})
  unfolding on_video_uploaded_uc
  handle_uploaded decoded = handle_decoded decoded

  abbrev pub acked : Result WorkerError (Unit {0}) × W → Result WorkerError Bool × W
  acked (err malformed, w) = (ok true, w)
  acked (ok u, w) = (ok true, w)
  acked (err e, w) = (err e, w)

  -- on_video_uploaded: returns if the message was acked; what it raises leaves it un-acked.
  unfoldable pub on_video_uploaded : Option VideoUploadedSchema → Exec WorkerError W Bool
  unfolding handle_uploaded
  on_video_uploaded decoded w = acked (handle_uploaded decoded w)

  -- `except Exception`: logged, not raised.
  abbrev pub suppress_all : Result WorkerError (Unit {0}) × W → Result WorkerError (Unit {0}) × W
  suppress_all (r, w) = (ok tt, w)

  abbrev pub report_terminal : Bool → Job → Exec WorkerError W (Unit {0})
  report_terminal true job w = (ok tt, w)
  report_terminal false job w = suppress_all (on_job_failed job.video_id w)

  -- after_process, for `ctx.get("exception")` and `ctx.get("job")`.
  unfoldable pub after_process : Bool → Option Job → Exec WorkerError W (Unit {0})
  unfolding on_job_failed_uc
  after_process false job = pure tt
  after_process true none = pure tt
  after_process true (some job) = report_terminal (ltb job.attempts job.retries) job

  -- The SAQ jobs stt, plagiarism and transcode: the work itself, then the join. What the work
  -- raises reaches SAQ.
  unfoldable pub run_job :
      Exec WorkerError W (Unit {0}) → ℕ → JobKind → Exec WorkerError W (Unit {0})
  unfolding complete_job_uc
  run_job work video_id kind = work >> complete_job video_id kind
