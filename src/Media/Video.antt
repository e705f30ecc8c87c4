-- ===== src/Media/Video.antt =====
-- The aggregate: media_example/domain (video_agg.py, video_status_vo.py, events.py). UUIDs are
-- natural numbers, and instants are microseconds. `uuid4()` and `datetime.now()` are arguments.
pub mod Lifecycle
use s1t_python_backend_templ.Base.{
  ℕ, String, Bool, true, false, List, [], ◌∷◌, Option, none, some, Result, ok, err, any, ◌is◌,
  if◌then◌else◌,
}
use s1t_python_backend_templ.Shared.Errors.{
  Error, empty_source_key, invalid_transition, value_error,
}
use s1t_python_backend_templ.Shared.Json.{Json, object, empty}

pub data VideoStatus : Type 0 where
  pending processing done failed : VideoStatus

-- `status.value`
abbrev pub value : VideoStatus → String
value pending = "pending"
value processing = "processing"
value done = "done"
value failed = "failed"

-- `VideoStatus(text)`
unfoldable pub video_status : String → Result Error VideoStatus
video_status s =
    if s is "pending"
    then ok pending
    else if s is "processing"
    then ok processing
    else if s is "done"
    then ok done
    else if s is "failed"
    then ok failed
    else err value_error

pub record VideoUploaded : Type 0 where
  pub video_id : ℕ
  pub source_key : String
  pub uploaded_at : ℕ

pub record Video : Type 0 where
  pub id : ℕ
  pub source_key : String
  pub status : VideoStatus
  pub uploaded_at : ℕ
  pub document : Json
  pub events : List VideoUploaded

-- `_ALLOWED[status]`
abbrev pub allowed : VideoStatus → List VideoStatus
allowed pending = processing ∷ failed ∷ []
allowed processing = done ∷ failed ∷ []
allowed done = []
allowed failed = []

abbrev pub same_status : VideoStatus → VideoStatus → Bool
same_status pending pending = true
same_status processing processing = true
same_status done done = true
same_status failed failed = true
same_status _ _ = false

abbrev pub or_now : Option ℕ → ℕ → ℕ
or_now (some t) now = t
or_now none now = now

abbrev pub or_empty : Option Json → Json
or_empty (some d) = d
or_empty none = object empty

-- Video.upload
unfoldable pub upload : ℕ → ℕ → String → Option ℕ → Option Json → Result Error Video
upload fresh_id now source_key uploaded_at document =
    if source_key is ""
    then err empty_source_key
    else let ts = or_now uploaded_at now in
      ok (record {
        id = fresh_id;
        source_key = source_key;
        status = pending;
        uploaded_at = ts;
        document = or_empty document;
        events = record { video_id = fresh_id; source_key = source_key; uploaded_at = ts } ∷ [];
      })

-- Video.reconstitute
unfoldable pub reconstitute : ℕ → String → VideoStatus → ℕ → Option Json → Video
reconstitute i source_key status uploaded_at document = record {
  id = i;
  source_key = source_key;
  status = status;
  uploaded_at = uploaded_at;
  document = or_empty document;
  events = [];
}

-- Video._transition
unfoldable pub transition : VideoStatus → Video → Result Error Video
transition to v =
    if any (same_status to) (allowed v.status)
    then ok (record v { status = to })
    else err (invalid_transition (value v.status) (value to))

unfoldable pub mark_processing : Video → Result Error Video
unfolding transition
mark_processing = transition processing

unfoldable pub mark_done : Video → Result Error Video
unfolding transition
mark_done = transition done

unfoldable pub mark_failed : Video → Result Error Video
unfolding transition
mark_failed = transition failed

-- Video.collect_events: the events, and the video without them.
unfoldable pub collect_events : Video → List VideoUploaded × Video
collect_events v = (v.events, record v { events = [] })
