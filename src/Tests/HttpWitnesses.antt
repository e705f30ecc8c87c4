-- ===== src/Tests/HttpWitnesses.antt =====
-- The theorems on answers and readiness at concrete inputs.
use s1t_python_backend_templ.Base.{ℕ, ◌≡◌, refl, true, false, ◌&&◌, [], ◌∷◌, ok, err, if◌then◌else◌}
use s1t_python_backend_templ.Shared.Errors.{redis_error}
use s1t_python_backend_templ.Shared.Readiness.{Checks, ready, ready_lem, is_ok, up_or_down}
use s1t_python_backend_templ.Media.Http.{
  DeletionAnswered, delete_video, delete_video-DeletionAnswered,
}
use s1t_python_backend_templ.Tests.Server.{server}
use s1t_python_backend_templ.Tests.Samples.{MediaTables, tables, session}
use s1t_python_backend_templ.Tests.SampleTexts.{texts}

ready_lem_example : ◌≡◌ {A = ℕ × Checks} (ready (ok tt) (err redis_error) (ok tt)) (
  (if is_ok (ok tt) && is_ok (err redis_error) && is_ok (ok tt) then 200 else 503),
  ("log_dir", up_or_down (is_ok (ok tt)))
      ∷ ("postgres", up_or_down (is_ok (err redis_error)))
      ∷ ("valkey", up_or_down (is_ok (ok tt)))
      ∷ [],
)
ready_lem_example = ready_lem (ok tt) (err redis_error) (ok tt)

delete_video-DeletionAnswered_example :
    DeletionAnswered
      (server MediaTables)
      texts
      2
      100
      tables
      (delete_video (server MediaTables) texts 2 (session (false ∷ true ∷ [])))
delete_video-DeletionAnswered_example =
    delete_video-DeletionAnswered (server MediaTables) texts 2 (session (false ∷ true ∷ [])) refl
