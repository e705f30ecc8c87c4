-- ===== src/Media/Tables.antt =====
-- The rows of the media schema: media_example/ports/driven/orm_models.py, with the columns of
-- the mixins in shared/adapters/driven/postgres (mixins.py, outbox.py, idempotency.py).
use s1t_python_backend_templ.Base.{ℕ, String, List, Option}
use s1t_python_backend_templ.Shared.Json.{Json}

pub record VideoRow : Type 0 where
  pub id : ℕ
  pub source_key : String
  pub status : String
  pub uploaded_at : ℕ
  pub document : Json
  pub created_at : ℕ
  pub updated_at : ℕ
  pub deleted_at : Option ℕ

-- `Payload` is what the `payload` column holds.
pub record OutboxRow (Payload : Type 0) : Type 0 where
  pub id : ℕ
  pub event_type : String
  pub payload : Payload
  pub created_at : ℕ
  pub sent_at : Option ℕ

-- The dict that `_snapshot` builds.
pub record Snapshot : Type 0 where
  pub id : String
  pub source_key : String
  pub status : String
  pub uploaded_at : String
  pub document : Json

pub record IdempotencyRow : Type 0 where
  pub key : String
  pub fingerprint : String
  pub response : Snapshot
  pub created_at : ℕ
  pub expires_at : ℕ

pub record Tables (Payload : Type 0) : Type 0 where
  pub videos : List VideoRow
  pub outbox_messages : List (OutboxRow Payload)
  pub idempotency_keys : List IdempotencyRow
