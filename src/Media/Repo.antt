-- ===== src/Media/Repo.antt =====
-- The driven ports on SQL: media_example/ports/driven (sql_video_repo.py, sql_outbox_repo.py,
-- sql_idempotency_store.py) over a Postgres server.
use s1t_python_backend_templ.Base.{
  ℕ, ◌+◌, ◌*◌, String, Bool, true, false, List, Option, none, some, Result, ok, err, Exec, ◌>>=◌,
  pure, lift, ltb,
}
use s1t_python_backend_templ.Shared.Errors.{Error, value_error}
use s1t_python_backend_templ.Shared.Texts.{Texts}
use s1t_python_backend_templ.Shared.Sql.{scalar_one_or_none}
use s1t_python_backend_templ.Shared.Postgres.{Postgres, Statement, or_port_error, aexit}
use s1t_python_backend_templ.Media.Video.{Video, VideoUploaded, value, video_status, reconstitute}
use s1t_python_backend_templ.Media.Tables.{IdempotencyRow, Snapshot, Tables}
use s1t_python_backend_templ.Media.Interfaces.{
  IVideoRepo, IOutboxRepo, IIdempotencyStore, StoredUpload, IUoW,
}
use s1t_python_backend_templ.Media.Statements.{
  row_to_domain, rows_to_domain, to_domain, save_stmt, get_by_id_stmt, list_page_stmt,
  soft_delete_stmt, claim_stmt, find_stmt, add_stmt,
}

-- VideoUploadedIntegration, with the envelope of shared/generics/integration_event.py.
pub record VideoUploadedIntegration : Type 0 where
  pub event_id : ℕ
  pub occurred_at : ℕ
  pub version : ℕ
  pub event_type : String
  pub video_id : ℕ
  pub source_key : String
  pub uploaded_at : ℕ

-- `_snapshot`
unfoldable pub snapshot : Texts → Video → Snapshot
snapshot texts v = record {
  id = texts.uuid_text v.id;
  source_key = v.source_key;
  status = value v.status;
  uploaded_at = texts.isoformat v.uploaded_at;
  document = v.document;
}

abbrev pub or_value_error : {A : Type 0} → Option A → Result Error A
or_value_error none = err value_error
or_value_error (some a) = ok a

-- `_restore`
unfoldable pub restore : Texts → Snapshot → Result Error Video
unfolding video_status reconstitute
restore texts s = elim (or_value_error (texts.uuid s.id)) [
  | err e ↦ err e
  | ok i ↦ elim (video_status s.status) [
    | err e ↦ err e
    | ok status ↦ elim (or_value_error (texts.fromisoformat s.uploaded_at)) [
      | err e ↦ err e
      | ok t ↦ ok (reconstitute i s.source_key status t (some s.document))
    ]
  ]
]

abbrev pub stored : Texts → Option IdempotencyRow → Result Error (Option StoredUpload)
stored texts none = ok none
stored texts (some r) = elim (restore texts r.response) [
  | ok v ↦ ok (some (record { fingerprint = r.fingerprint; video = v }))
  | err e ↦ err e
]

abbrev pub seconds : ℕ → ℕ
seconds n = n * 1000000

abbrev pub is_some : {A : Type 0} → Option A → Bool
is_some none = false
is_some (some a) = true

-- What a call draws from `uuid4()` and from the clock for the rows that it stages.
pub record Draws : Type 0 where
  pub event_id : ℕ
  pub occurred_at : ℕ
  pub claimed_at : ℕ

module _ {Payload : Type 0} (pg : Postgres (Tables Payload)) where
  open pg use {World, execute}

  -- `await self._session.execute(stmt)` under `except SQLAlchemyError`.
  abbrev pub run : {A : Type 0} → Statement (Tables Payload) A → Exec Error World A
  run q w = or_port_error (execute q w)

  unfoldable pub save : Video → Exec Error World (Unit {0})
  unfolding save_stmt
  save v = run (save_stmt v)

  unfoldable pub get_by_id : ℕ → Exec Error World (Option Video)
  unfolding get_by_id_stmt to_domain
  get_by_id i = do
    rows ← run (get_by_id_stmt i)
    row ← lift (scalar_one_or_none rows)
    lift (row_to_domain row)

  unfoldable pub list_page : Option (ℕ × ℕ) → ℕ → Exec Error World (List Video)
  unfolding list_page_stmt to_domain
  list_page after limit = do rows ← run (list_page_stmt after limit); lift (rows_to_domain rows)

  unfoldable pub soft_delete : ℕ → Exec Error World Bool
  unfolding soft_delete_stmt
  soft_delete i = do count ← run (soft_delete_stmt i); pure (ltb 0 count)

  -- SqlVideoRepo
  abbrev pub sql_video_repo : IVideoRepo World
  sql_video_repo = record {
    save = save;
    get_by_id = get_by_id;
    list_page = list_page;
    soft_delete = soft_delete;
  }

  unfoldable pub add :
      (VideoUploadedIntegration → Payload) → Draws → VideoUploaded → Exec Error World (Unit {0})
  unfolding add_stmt
  add encode draws event =
      let integration : VideoUploadedIntegration = record {
        event_id = draws.event_id;
        occurred_at = draws.occurred_at;
        version = 1;
        event_type = "video_uploaded";
        video_id = event.video_id;
        source_key = event.source_key;
        uploaded_at = event.uploaded_at;
      } in
      run (add_stmt integration.event_id integration.event_type (encode integration))

  -- SqlOutboxRepo
  abbrev pub sql_outbox_repo : (VideoUploadedIntegration → Payload) → Draws → IOutboxRepo World
  sql_outbox_repo encode draws = record { add = add encode draws }

  module _ (texts : Texts) where
    unfoldable pub claim : ℕ → Draws → String → String → Video → Exec Error World Bool
    unfolding claim_stmt snapshot
    claim ttl_seconds draws key fingerprint v = do
      keys ←
          run
            (claim_stmt key fingerprint (snapshot texts v) (draws.claimed_at + seconds ttl_seconds))
      row ← lift (scalar_one_or_none keys)
      pure (is_some row)

    unfoldable pub find : String → Exec Error World (Option StoredUpload)
    unfolding find_stmt restore
    find key = do
      rows ← run (find_stmt key)
      row ← lift (scalar_one_or_none rows)
      lift (stored texts row)

    -- SqlIdempotencyStore
    abbrev pub sql_idempotency_store : ℕ → Draws → IIdempotencyStore World
    sql_idempotency_store ttl_seconds draws = record {
      claim = claim ttl_seconds draws;
      find = find;
    }

  -- SqlUoW
  abbrev pub sql_uow : IUoW World
  sql_uow = record { aexit = aexit pg }
