-- ===== src/Media/Status/Outcome.antt =====
-- What a status use case has committed and broadcast, by how it ended.
use s1t_python_backend_templ.Base.{ℕ, ◌≡◌, ◌⊎◌, List, [], ◌∷◌, ◌++◌, Result, ok, err, ◌>>=◌}
use s1t_python_backend_templ.Shared.Errors.{Error, port_error}
use s1t_python_backend_templ.Shared.Postgres.{Postgres}
use s1t_python_backend_templ.Media.Video.{Video, VideoStatus, value}
use s1t_python_backend_templ.Media.Tables.{Tables}
use s1t_python_backend_templ.Media.Interfaces.{with_uow}
use s1t_python_backend_templ.Media.Repo.{sql_uow, save}
use s1t_python_backend_templ.Media.Feed.{Channels, FeedEvent, publish}
use s1t_python_backend_templ.Media.Facade
use s1t_python_backend_templ.Media.Status.Reading.{with_status}

module _ {Payload : Type 0} (pg : Postgres (Tables Payload)) (channels : Channels pg) where
  open pg use {World, committed, working, now}
  open channels use {feed}

  -- A use case that returns has committed the new status, and then tried to broadcast it; one that
  -- raises has broadcast nothing and committed nothing, unless COMMIT itself failed.
  abbrev pub StatusEnded :
      ℕ
      → VideoStatus
      → ℕ
      → Tables Payload
      → List FeedEvent
      → Result Error (Unit {0}) × World
      → Type 0
  StatusEnded i to at t sent (ok _, w') =
      (committed w' ≡ with_status i to at t)
      × ((feed w' ≡ sent ++ (i, value to) ∷ []) ⊎ (feed w' ≡ sent))
  StatusEnded i to at t sent (err e, w') =
      ((committed w' ≡ t) ⊎ ((e ≡ port_error) × (committed w' ≡ with_status i to at t)))
      × (feed w' ≡ sent)

  module _ (i : ℕ) (to : VideoStatus) (w0 : World) where
    abbrev EndedSo : Result Error (Unit {0}) × World → Type 0
    EndedSo = StatusEnded i to (now w0) (committed w0) (feed w0)

    abbrev StatusSaved : VideoStatus → Video → World → Type 0
    StatusSaved s m w =
        EndedSo ((with_uow (sql_uow pg) (save pg m) >>= λ _. publish channels i (value s)) w)
