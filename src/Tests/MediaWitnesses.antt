-- ===== src/Tests/MediaWitnesses.antt =====
-- The theorems of the media context at concrete inputs.
use s1t_python_backend_templ.Base.{
  ℕ, take, none, arith, ◌≡◌, ◌≤◌, ltb, refl, true, false, [], ◌∷◌, some, ok, ◌+◌,
}
use s1t_python_backend_templ.Shared.Pagination.{encode_cursor, decode_cursor}
use s1t_python_backend_templ.Shared.Pagination.Cursor.{decode_cursor-encode_cursor}
use s1t_python_backend_templ.Media.Video.{
  done, failed, transition, mark_processing, mark_failed, Video,
}
use s1t_python_backend_templ.Media.Video.Lifecycle.{
  Transitioned, transition-Transitioned, Marks, unmarked, to_processing, to_failed, Marks_bounded,
  SameVideo,
}
use s1t_python_backend_templ.Media.Upload.Atomic.{
  UploadEnded, upload_all_or_nothing, command_print, new_video, new_event,
}
use s1t_python_backend_templ.Media.Facade
use s1t_python_backend_templ.Media.Feed.{FeedLimiter, feed_limiter, try_acquire}
use s1t_python_backend_templ.Media.Feed.Limit.{
  Feeds, at_start, admitted, refused, Counted, try_acquire-Counted,
}
use s1t_python_backend_templ.Media.Repo.{sql_video_repo, sql_uow}
use s1t_python_backend_templ.Media.UseCases.{delete_video_uc}
use s1t_python_backend_templ.Media.Listing
use s1t_python_backend_templ.Media.Listing.{list_page-walk}
use s1t_python_backend_templ.Media.Statements
use s1t_python_backend_templ.Shared.Sql.{order_by, select_where}
use s1t_python_backend_templ.Shared.Pagination.Walk.{walk, total}
use s1t_python_backend_templ.Media.Deletion.{Deletion, delete_video_uc-Deletion}
use s1t_python_backend_templ.Media.Sweeper.{Purged, purge_once, purge_once-Purged}
use s1t_python_backend_templ.Media.Tables.{IdempotencyRow}
use s1t_python_backend_templ.Shared.Json.{object, empty}
use s1t_python_backend_templ.Tests.Server.{Server, server}
use s1t_python_backend_templ.Tests.Samples.{MediaTables, encode, draws, tables, session, command}
use s1t_python_backend_templ.Tests.SampleTexts.{texts}

abbrev sample : Video
sample = new_video (server MediaTables) texts encode 60 draws 7 40 command

-- The last statement of the transaction fails.
upload_all_or_nothing_example :
    UploadEnded
      (server MediaTables)
      texts
      encode
      60
      draws
      (some "retry-1")
      (command_print (server MediaTables) texts encode 60 draws command)
      sample
      (new_event (server MediaTables) texts encode 60 draws 7 40 command)
      100
      tables
      (Facade.upload_uc
        (server MediaTables)
        texts
        encode
        60
        draws
        7
        40
        command
        (session (false ∷ false ∷ true ∷ [])))
upload_all_or_nothing_example =
    upload_all_or_nothing (server MediaTables) texts encode 60 draws 7 40 command
      (session (false ∷ false ∷ true ∷ [])) refl (refl, refl)

decode_cursor-encode_cursor_example : decode_cursor texts (encode_cursor texts 3 5) ≡ ok (3, 5)
decode_cursor-encode_cursor_example = decode_cursor-encode_cursor texts 3 5

transition-Transitioned_example : Transitioned sample done (transition done sample)
transition-Transitioned_example = transition-Transitioned done sample

abbrev cancelled : Marks sample (record sample { status = failed }) 2
unfolding mark_processing mark_failed
cancelled = to_failed (to_processing unmarked refl) refl

Marks_bounded_example : (2 + 0 ≤ 2) × (2 ≤ 2) × SameVideo sample (record sample { status = failed })
Marks_bounded_example = Marks_bounded cancelled

abbrev busy : FeedLimiter
busy = record { max_connections = 1; active = 1 }

-- One feed is admitted, and the second refused.
full : Feeds 1 busy 1
unfolding try_acquire feed_limiter
full = refused (admitted at_start refl) refl

try_acquire-Counted_example : Counted 1 busy 1 × ((try_acquire busy).0 ≡ ltb 1 1)
try_acquire-Counted_example = try_acquire-Counted full

-- COMMIT fails.
delete_video_uc-Deletion_example : Deletion (server MediaTables) 2 100 tables (
    delete_video_uc
      (sql_video_repo (server MediaTables))
      (sql_uow (server MediaTables))
      2
      (session (false ∷ true ∷ [])))
delete_video_uc-Deletion_example =
    delete_video_uc-Deletion (server MediaTables) 2 (session (false ∷ true ∷ [])) refl

abbrev claimed_until : ℕ → IdempotencyRow
claimed_until at = record {
  key = "retry-0";
  fingerprint = "";
  response = record {
    id = "x";
    source_key = "s3://bucket/a.mp4";
    status = "pending";
    uploaded_at = "x";
    document = object empty;
  };
  created_at = 0;
  expires_at = at;
}

abbrev aged : Server MediaTables
aged = record (session []) {
  committed = record tables { idempotency_keys = claimed_until 90 ∷ claimed_until 110 ∷ [] };
  working = record tables { idempotency_keys = claimed_until 90 ∷ claimed_until 110 ∷ [] };
}

-- At 100 one of two keys has expired.
purge_once-Purged_example :
    Purged
      (server MediaTables)
      100
      (record tables { idempotency_keys = claimed_until 90 ∷ claimed_until 110 ∷ [] })
      (purge_once (server MediaTables) aged)
purge_once-Purged_example = purge_once-Purged (server MediaTables) aged refl

list_page-walk_example :
    walk Statements.position (Listing.page_of 100 tables) (2 ∷ 1 ∷ []) none
    ≡ take
        (total (2 ∷ 1 ∷ []))
        (order_by Statements.newer (select_where Statements.is_active tables.videos))
list_page-walk_example =
    list_page-walk 100 tables (2 ∷ 1 ∷ []) ((refl, (refl, tt)), ((refl, tt), (tt, tt)))
      (omega arith)
