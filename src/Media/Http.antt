-- ===== src/Media/Http.antt =====
-- media_example/adapters/driving/video_controller.py: listing, deleting and cancelling, from the
-- request to the status of the answer, over the facade and the database.
use s1t_python_backend_templ.Base.{
  ℕ, ◌≡◌, ◌⊎◌, inl, inr, refl, true, false, any, String, Option, none, some, Result, ok, err,
}
use s1t_python_backend_templ.Shared.Errors.{Error, value_error}
use s1t_python_backend_templ.Shared.Problems.{Problem, answer}
use s1t_python_backend_templ.Shared.Texts.{Texts}
use s1t_python_backend_templ.Shared.Postgres.{Postgres}
use s1t_python_backend_templ.Media.Tables.{Tables}
use s1t_python_backend_templ.Media.Deletion.{
  Deletion, with_deleted, active_row, delete_video_uc-Deletion,
}
use s1t_python_backend_templ.Media.Feed.{Channels}
use s1t_python_backend_templ.Media.Facade
use s1t_python_backend_templ.Media.Facade.{VideoModel}
use s1t_python_backend_templ.Shared.Pagination.{Page, decode_cursor}

-- The status that a client of production sees: `none` would be a debug page.
abbrev pub status_seen : Option Problem → Option ℕ
status_seen none = none
status_seen (some p) = some p.status_code

module _ {Payload : Type 0} (pg : Postgres (Tables Payload)) (texts : Texts) where
  open pg use {World, committed, working, now}

  abbrev pub answered : Result Error (Unit {0}) × World → Option ℕ × World
  answered (ok u, w) = (some 204, w)
  answered (err e, w) = (status_seen (answer false e), w)

  -- VideoController.delete_video
  unfoldable pub delete_video : ℕ → World → Option ℕ × World
  delete_video video_id w = answered (Facade.delete_uc pg texts video_id w)

  -- What the status of a deletion says of the tables `t`.
  pub data DeletionAnswered (i at : ℕ) (t : Tables Payload) (x : Option ℕ × World) : Type 0 where
    no_content :
        x.0 ≡ some 204
        → committed x.1 ≡ with_deleted pg i at t
        → any (active_row i) t.videos ≡ true
        → DeletionAnswered i at t x
    not_found :
        x.0 ≡ some 404
        → committed x.1 ≡ t
        → any (active_row i) t.videos ≡ false
        → DeletionAnswered i at t x
    unavailable :
        x.0 ≡ some 503
        → (committed x.1 ≡ t) ⊎ (committed x.1 ≡ with_deleted pg i at t)
        → DeletionAnswered i at t x

  answered-DeletionAnswered :
      (i at : ℕ) (t : Tables Payload) (x : Result Error (Unit {0}) × World)
      → Deletion pg i at t x
      → DeletionAnswered i at t (answered x)
  unfolding answer
  answered-DeletionAnswered i at t (ok u, w') (there, c, gone) = no_content refl c there
  answered-DeletionAnswered i at t (err e, w') (inl (p, c)) = unavailable (rw p refl) (inr c)
  answered-DeletionAnswered i at t (err e, w') (inr (c, inl p)) = unavailable (rw p refl) (inl c)
  answered-DeletionAnswered i at t (err e, w') (inr (c, inr (p, gone))) =
      not_found (rw p refl) c gone

  -- From a fresh session, a deletion over HTTP is answered 204, 404 or 503. After 204 exactly the
  -- active row of the video is deleted; 404 is answered only if there was none, and nothing is
  -- committed; after 503 nothing is committed or, if COMMIT failed, the deletion.
  pub delete_video-DeletionAnswered :
      (i : ℕ) (w : World)
      → working w ≡ committed w
      → DeletionAnswered i (now w) (committed w) (delete_video i w)
  unfolding delete_video
  delete_video-DeletionAnswered i w fresh =
      answered-DeletionAnswered i (now w) (committed w) (Facade.delete_uc pg texts i w)
        (delete_video_uc-Deletion pg i w fresh)

  -- What a listing is answered with.
  pub data VideosAnswer : Type 0 where
    page : Page VideoModel → VideosAnswer
    invalid_cursor : VideosAnswer
    failure : Option ℕ → VideosAnswer

  abbrev pub paged : Result Error (Page VideoModel) × World → VideosAnswer × World
  paged (ok p, w) = (page p, w)
  paged (err e, w) = (failure (status_seen (answer false e)), w)

  -- `except ValueError` around decode_cursor
  abbrev pub list_after : ℕ → Result Error (ℕ × ℕ) → World → VideosAnswer × World
  list_after limit (ok after) w = paged (Facade.list_page pg texts (some after) limit w)
  list_after limit (err value_error) w = (invalid_cursor, w)
  list_after limit (err e) w = (failure (status_seen (answer false e)), w)

  -- VideoController.list_videos
  unfoldable pub list_videos : Option String → ℕ → World → VideosAnswer × World
  unfolding decode_cursor Facade.list_page answer
  list_videos none limit w = paged (Facade.list_page pg texts none limit w)
  list_videos (some cursor) limit w = list_after limit (decode_cursor texts cursor) w

module _ {Payload : Type 0} (pg : Postgres (Tables Payload)) (channels : Channels pg) where
  -- VideoController.cancel_video, answered 200 if it returns.
  unfoldable pub cancel_video : ℕ → pg.World → Option ℕ × pg.World
  unfolding answer
  cancel_video video_id w = elim (Facade.mark_failed pg channels video_id w).0 [
    | ok u ↦ (some 200, (Facade.mark_failed pg channels video_id w).1)
    | err e ↦ (status_seen (answer false e), (Facade.mark_failed pg channels video_id w).1)
  ]
