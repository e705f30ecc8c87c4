-- ===== src/Tests/Samples.antt =====
-- Test data: texts over the identity, sample tables and sessions.
use s1t_python_backend_templ.Base.{ℕ, Bool, String, List, [], ◌∷◌, none, some}
use s1t_python_backend_templ.Shared.Json.{object, empty, field, text}
use s1t_python_backend_templ.Media.Tables.{Tables, VideoRow}
use s1t_python_backend_templ.Media.Repo.{VideoUploadedIntegration, Draws}
use s1t_python_backend_templ.Media.UseCases.{UploadVideoCommand}
use s1t_python_backend_templ.Tests.Server.{Server}

abbrev pub MediaTables : Type 0
MediaTables = Tables VideoUploadedIntegration

abbrev pub encode : VideoUploadedIntegration → VideoUploadedIntegration
encode event = event

abbrev pub draws : Draws
draws = record { event_id = 900; occurred_at = 50; claimed_at = 51 }

abbrev pub row_of : ℕ → String → ℕ → VideoRow
row_of i status at = record {
  id = i;
  source_key = "s3://bucket/a.mp4";
  status = status;
  uploaded_at = at;
  document = object empty;
  created_at = at;
  updated_at = at;
  deleted_at = none;
}

abbrev pub tables : MediaTables
tables = record {
  videos = row_of 1 "pending" 10 ∷ row_of 2 "processing" 20 ∷ row_of 3 "done" 30 ∷ [];
  outbox_messages = [];
  idempotency_keys = [];
}

abbrev pub session : List Bool → Server MediaTables
session faults = record {
  committed = tables;
  working = tables;
  now = 100;
  faults = faults;
  feed = [];
}

abbrev pub command : UploadVideoCommand
command = record {
  source_key = "s3://bucket/new.mp4";
  document = object (field "content_type" (text "video/mp4") empty);
  idempotency_key = some "retry-1";
}
