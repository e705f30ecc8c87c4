-- ===== src/Media/UseCases.antt =====
-- The use cases of media_example/app (upload_video_uc.py, status_ucs.py, delete_video_uc.py,
-- video_queries.py), over the ports of the context.
use s1t_python_backend_templ.Base.{
  ℕ, String, Bool, true, false, not, List, [], ◌∷◌, Option, none, some, Result, Exec, ◌>>=◌, ◌>>◌,
  pure, raise, raise_if, lift, ◌is◌, if◌then◌else◌,
}
use s1t_python_backend_templ.Shared.Errors.{
  Error, port_error, video_not_found, idempotency_key_reused,
}
use s1t_python_backend_templ.Shared.Json.{Json}
use s1t_python_backend_templ.Shared.Texts.{Texts}
use s1t_python_backend_templ.Media.Video.{
  Video, VideoUploaded, value, upload, mark_processing, mark_done, mark_failed, collect_events,
}
use s1t_python_backend_templ.Media.Interfaces.{
  IVideoRepo, IOutboxRepo, IIdempotencyStore, StoredUpload, IUoW, IFeedPublisher, with_uow,
}
use s1t_python_backend_templ.Media.Fingerprint.{fingerprint}

pub record UploadVideoCommand : Type 0 where
  pub source_key : String
  pub document : Json
  pub idempotency_key : Option String

pub record UploadResult : Type 0 where
  pub video : Video
  pub replayed : Bool

module _ {W : Type 0} where
  abbrev pub found : ℕ → Option Video → Exec Error W Video
  found i none = raise (video_not_found i)
  found i (some v) = pure v

  -- for event in events: await self._outbox.add(event)
  abbrev pub add_all : IOutboxRepo W → List VideoUploaded → Exec Error W (Unit {0})
  add_all outbox [] = pure tt
  add_all outbox (e ∷ es) = outbox.add e >> add_all outbox es

  module _ (repo : IVideoRepo W) (uow : IUoW W) where
    module _ (feed : IFeedPublisher W) where
      -- What the three status use cases do after the read, around `move`.
      unfoldable pub apply_status :
          (Video → Result Error Video) → ℕ → Option Video → Exec Error W (Unit {0})
      apply_status move video_id read = do
        video ← found video_id read
        moved ← lift (move video)
        with_uow uow (repo.save moved)
        feed.publish video_id (value moved.status)

      -- MarkProcessingUC.__call__
      unfoldable pub mark_processing_uc : ℕ → Exec Error W (Unit {0})
      unfolding apply_status mark_processing
      mark_processing_uc video_id = do
        read ← repo.get_by_id video_id
        apply_status mark_processing video_id read

      -- MarkDoneUC.__call__
      unfoldable pub mark_done_uc : ℕ → Exec Error W (Unit {0})
      unfolding apply_status mark_done
      mark_done_uc video_id = do
        read ← repo.get_by_id video_id
        apply_status mark_done video_id read

      -- MarkFailedUC.__call__
      unfoldable pub mark_failed_uc : ℕ → Exec Error W (Unit {0})
      unfolding apply_status mark_failed
      mark_failed_uc video_id = do
        read ← repo.get_by_id video_id
        apply_status mark_failed video_id read

    -- DeleteVideoUC.__call__
    unfoldable pub delete_video_uc : ℕ → Exec Error W (Unit {0})
    delete_video_uc video_id =
        with_uow uow
          do deleted ← repo.soft_delete video_id; raise_if (not deleted) (video_not_found video_id)

    module _ (outbox : IOutboxRepo W) (idempotency : IIdempotencyStore W) (texts : Texts) where
      -- What the key fingerprints to; "" without a key.
      abbrev pub command_fingerprint : UploadVideoCommand → String
      command_fingerprint command = elim command.idempotency_key [
        | none ↦ ""
        | some key ↦ fingerprint texts command.source_key command.document
      ]

      abbrev pub claim_if_keyed : Option String → String → Video → Exec Error W Bool
      claim_if_keyed none print video = pure true
      claim_if_keyed (some key) print video = idempotency.claim key print video

      -- if claimed: save the video and stage its events
      abbrev pub save_if : Bool → Video → Exec Error W (Unit {0})
      save_if false video = pure tt
      save_if true video = repo.save video >> add_all outbox (collect_events video).0

      -- The body of `async with self._uow:`.
      unfoldable pub register : Option String → String → Video → Exec Error W Bool
      unfolding collect_events
      register key print video = do
        claimed ← claim_if_keyed key print video
        save_if claimed video
        pure claimed

      abbrev pub replay_stored : String → String → Option StoredUpload → Exec Error W UploadResult
      replay_stored key print none = raise port_error
      replay_stored key print (some s) =
          if s.fingerprint is print
          then pure (record { video = s.video; replayed = true })
          else raise (idempotency_key_reused key)

      -- From `if claimed or key is None` on.
      abbrev pub conclude : Option String → String → Video → Bool → Exec Error W UploadResult
      conclude key print video true =
          pure (record { video = (collect_events video).1; replayed = false })
      conclude none print video false = pure (record { video = video; replayed = false })
      conclude (some key) print video false = do
        read ← idempotency.find key
        replay_stored key print read

      -- UploadVideoUC.__call__, with the id and the instant that it draws.
      unfoldable pub upload_video_uc : ℕ → ℕ → UploadVideoCommand → Exec Error W UploadResult
      unfolding upload fingerprint register collect_events
      upload_video_uc fresh_id now command = do
        video ← lift (upload fresh_id now command.source_key (some now) (some command.document))
        let print = command_fingerprint command
        claimed ← with_uow uow (register command.idempotency_key print video)
        conclude command.idempotency_key print video claimed

  -- ListVideosQuery.__call__
  unfoldable pub list_videos_query : IVideoRepo W → Option (ℕ × ℕ) → ℕ → Exec Error W (List Video)
  list_videos_query repo after limit = repo.list_page after limit
