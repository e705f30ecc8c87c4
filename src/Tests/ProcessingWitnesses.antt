-- ===== src/Tests/ProcessingWitnesses.antt =====
-- The theorems of the worker service at concrete inputs.
use s1t_python_backend_templ.Base.{ℕ, ◌≤◌, ◌*◌, ◌+◌, refl, true, false, List, [], ◌∷◌}
use s1t_python_backend_templ.Processing.Domain.{JobKind, transcode, plagiarism, stt}
use s1t_python_backend_templ.Processing.UseCases.{complete_job_uc}
use s1t_python_backend_templ.Processing.Entrypoints.{on_uploaded}
use s1t_python_backend_templ.Processing.Join.{Published, count, calls_for}
use s1t_python_backend_templ.Processing.Join.Runs.{
  Completions, none_left, next, complete_job-publishes,
}
use s1t_python_backend_templ.Processing.Fanout.{FannedOut, on_uploaded-FannedOut}
use s1t_python_backend_templ.Tests.Worker.{Worker, worker, start}

abbrev calls : List (ℕ × JobKind)
calls = (4, stt) ∷ (9, stt) ∷ (4, transcode) ∷ (4, stt) ∷ (4, plagiarism) ∷ []

abbrev step : ℕ → JobKind → Worker → Worker
step i k w = (complete_job_uc worker.store 3 worker.publisher i k w).1

abbrev last : Worker
last = step 4 plagiarism (step 4 stt (step 4 transcode (step 9 stt (step 4 stt (start [])))))

run : Completions worker calls (start []) last
unfolding complete_job_uc
run = next refl (next refl (next refl (next refl (next refl none_left))))

-- One kind comes twice, and another video in between.
complete_job-publishes_example :
    Published 4 (worker.view (start [])) calls
    × (3 * count 4 (worker.view last) ≤ 3 * count 4 (worker.view (start [])) + calls_for 4 calls)
unfolding complete_job_uc
complete_job-publishes_example = complete_job-publishes worker 4 calls (start []) last refl run

-- The second job cannot be submitted.
on_uploaded-FannedOut_example :
    FannedOut worker 4 77
      (start (false ∷ false ∷ true ∷ []))
      (on_uploaded worker 4 77 (start (false ∷ false ∷ true ∷ [])))
on_uploaded-FannedOut_example =
    on_uploaded-FannedOut worker 4 77 (start (false ∷ false ∷ true ∷ []))

abbrev delivered : Worker
delivered = (on_uploaded worker 4 77 (start [])).1
