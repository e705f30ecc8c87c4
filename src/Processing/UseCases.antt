-- ===== src/Processing/UseCases.antt =====
-- The use cases of media_processing/app, over the ports.
use s1t_python_backend_templ.Base.{
  ℕ, Bool, true, false, List, [], ◌∷◌, Result, ok, err, Exec, ◌>>=◌, ◌>>◌, pure,
}
use s1t_python_backend_templ.Processing.Domain.{
  JobKind, job_kinds, is_complete, WorkerError, port_error,
}
use s1t_python_backend_templ.Processing.Ports.{IJobQueue, IJoinStore, IEventPublisher, IInboxStore}

module _ {W : Type 0} where
  abbrev pub finish_join :
      IJoinStore W → IEventPublisher W → ℕ → Bool → Exec WorkerError W (Unit {0})
  finish_join store publisher video_id false = pure tt
  finish_join store publisher video_id true =
      publisher.publish_processed video_id >> store.clear video_id

  -- CompleteJobUC.__call__
  unfoldable pub complete_job_uc :
      IJoinStore W → ℕ → IEventPublisher W → ℕ → JobKind → Exec WorkerError W (Unit {0})
  unfolding is_complete
  complete_job_uc store fan_out publisher video_id kind = do
    done ← store.add video_id kind
    finish_join store publisher video_id (is_complete done fan_out)

  -- `try: ... except PortError: log`
  abbrev pub suppress_port_error :
      Result WorkerError (Unit {0}) × W → Result WorkerError (Unit {0}) × W
  suppress_port_error (err port_error, w) = (ok tt, w)
  suppress_port_error (ok u, w) = (ok u, w)
  suppress_port_error (err e, w) = (err e, w)

  -- OnJobFailedUC.__call__
  unfoldable pub on_job_failed_uc :
      IJoinStore W → IEventPublisher W → ℕ → Exec WorkerError W (Unit {0})
  on_job_failed_uc store publisher video_id =
      (λ w. suppress_port_error (publisher.publish_failed video_id w)) >> store.clear video_id

  -- for kind in JobKind: await self._queue.enqueue(video_id, kind)
  abbrev pub enqueue_all : IJobQueue W → ℕ → List JobKind → Exec WorkerError W (Unit {0})
  enqueue_all queue video_id [] = pure tt
  enqueue_all queue video_id (k ∷ ks) = queue.enqueue video_id k >> enqueue_all queue video_id ks

  abbrev pub unless_seen : Bool → Exec WorkerError W (Unit {0}) → Exec WorkerError W (Unit {0})
  unless_seen true m = pure tt
  unless_seen false m = m

  -- OnVideoUploadedUC.__call__
  unfoldable pub on_video_uploaded_uc :
      IJobQueue W → IEventPublisher W → IInboxStore W → ℕ → ℕ → Exec WorkerError W (Unit {0})
  on_video_uploaded_uc queue publisher inbox video_id event_id = do
    seen ← inbox.seen event_id
    unless_seen seen do
      enqueue_all queue video_id job_kinds
      publisher.publish_started video_id
      inbox.mark_processed event_id
