-- ===== src/Media/Facade.antt =====
-- The driving port: media_example/ports/driving/media_facade.py and video_dto.py, with the use
-- cases wired to the SQL ports as `build_facade` of media_example/provider.py does.
use s1t_python_backend_templ.Base.{
  ℕ, ◌==◌, String, Bool, List, [], ◌∷◌, Option, none, some, Exec, ◌>>=◌, pure, map, length,
  if◌then◌else◌,
}
use s1t_python_backend_templ.Shared.Errors.{Error}
use s1t_python_backend_templ.Shared.Json.{Json}
use s1t_python_backend_templ.Shared.Texts.{Texts}
use s1t_python_backend_templ.Shared.Postgres.{Postgres}
use s1t_python_backend_templ.Shared.Pagination.{Page, encode_cursor}
use s1t_python_backend_templ.Media.Video.{Video, value}
use s1t_python_backend_templ.Media.Tables.{Tables}
use s1t_python_backend_templ.Media.Repo.{
  VideoUploadedIntegration, Draws, sql_video_repo, sql_outbox_repo, sql_idempotency_store, sql_uow,
}
use s1t_python_backend_templ.Media.Feed.{Channels, channels_feed_publisher}
use s1t_python_backend_templ.Media.UseCases.{
  UploadVideoCommand, UploadResult, upload_video_uc, mark_processing_uc, mark_done_uc,
  mark_failed_uc, delete_video_uc, list_videos_query,
}

pub record VideoModel : Type 0 where
  pub id : ℕ
  pub source_key : String
  pub status : String
  pub uploaded_at : ℕ
  pub document : Json

pub record UploadVideoRequest : Type 0 where
  pub source_key : String
  pub document : Json

pub record UploadedVideo : Type 0 where
  pub video : VideoModel
  pub replayed : Bool

unfoldable pub to_model : Video → VideoModel
to_model v = record {
  id = v.id;
  source_key = v.source_key;
  status = value v.status;
  uploaded_at = v.uploaded_at;
  document = v.document;
}

-- `videos[-1]`
abbrev pub last_of : {A : Type 0} → A → List A → A
last_of a [] = a
last_of a (b ∷ bs) = last_of b bs

-- The cursor of the last item of a full page.
abbrev pub next_cursor : Texts → ℕ → List Video → Option String
next_cursor texts limit [] = none
next_cursor texts limit (v ∷ vs) =
    let last = last_of v vs in
    if length (v ∷ vs) == limit then some (encode_cursor texts last.uploaded_at last.id) else none

module _ {Payload : Type 0} (pg : Postgres (Tables Payload)) (texts : Texts) where
  -- `build_facade`
  abbrev pub upload_uc :
      (VideoUploadedIntegration → Payload)
      → ℕ
      → Draws
      → ℕ
      → ℕ
      → UploadVideoCommand
      → Exec Error pg.World UploadResult
  upload_uc encode ttl_seconds draws =
      upload_video_uc (sql_video_repo pg) (sql_uow pg) (sql_outbox_repo pg encode draws)
        (sql_idempotency_store pg texts ttl_seconds draws) texts

  abbrev pub delete_uc : ℕ → Exec Error pg.World (Unit {0})
  delete_uc = delete_video_uc (sql_video_repo pg) (sql_uow pg)

  -- MediaFacade.upload
  unfoldable pub upload :
      (VideoUploadedIntegration → Payload)
      → ℕ
      → Draws
      → ℕ
      → ℕ
      → UploadVideoRequest
      → Option String
      → Exec Error pg.World UploadedVideo
  unfolding upload_video_uc to_model
  upload encode ttl_seconds draws fresh_id now request idempotency_key = do
    let command : UploadVideoCommand = record {
      source_key = request.source_key;
      document = request.document;
      idempotency_key = idempotency_key;
    }
    result ← upload_uc encode ttl_seconds draws fresh_id now command
    pure (record { video = to_model result.video; replayed = result.replayed })

  -- MediaFacade.list_page
  unfoldable pub list_page : Option (ℕ × ℕ) → ℕ → Exec Error pg.World (Page VideoModel)
  unfolding list_videos_query to_model
  list_page after limit = do
    videos ← list_videos_query (sql_video_repo pg) after limit
    pure (record { items = map to_model videos; next_cursor = next_cursor texts limit videos })

module _ {Payload : Type 0} (pg : Postgres (Tables Payload)) (channels : Channels pg) where
  abbrev pub mark_processing : ℕ → Exec Error pg.World (Unit {0})
  mark_processing =
      mark_processing_uc (sql_video_repo pg) (sql_uow pg) (channels_feed_publisher channels)

  abbrev pub mark_done : ℕ → Exec Error pg.World (Unit {0})
  mark_done = mark_done_uc (sql_video_repo pg) (sql_uow pg) (channels_feed_publisher channels)

  abbrev pub mark_failed : ℕ → Exec Error pg.World (Unit {0})
  mark_failed = mark_failed_uc (sql_video_repo pg) (sql_uow pg) (channels_feed_publisher channels)
