-- ===== src/Media/Interfaces.antt =====
-- The driven ports: media_example/app/interfaces. A method may raise, and it changes the world
-- behind the session, `W`.
use s1t_python_backend_templ.Base.{
  ℕ, String, Bool, List, Option, none, some, Exec, Result, ok, err, ◌>>◌, pure, raise,
}
use s1t_python_backend_templ.Shared.Errors.{Error}
use s1t_python_backend_templ.Media.Video.{Video, VideoUploaded}

pub record IVideoRepo (W : Type 0) : Type 0 where
  pub save : Video → Exec Error W (Unit {0})
  pub get_by_id : ℕ → Exec Error W (Option Video)
  pub list_page : Option (ℕ × ℕ) → ℕ → Exec Error W (List Video)
  pub soft_delete : ℕ → Exec Error W Bool

pub record IOutboxRepo (W : Type 0) : Type 0 where
  pub add : VideoUploaded → Exec Error W (Unit {0})

pub record StoredUpload : Type 0 where
  pub fingerprint : String
  pub video : Video

pub record IIdempotencyStore (W : Type 0) : Type 0 where
  pub claim : String → String → Video → Exec Error W Bool
  pub find : String → Exec Error W (Option StoredUpload)

-- `__aexit__`, given what the body raised; `__aenter__` only returns the unit of work.
pub record IUoW (W : Type 0) : Type 0 where
  pub aexit : Option Error → Exec Error W (Unit {0})

pub record IFeedPublisher (W : Type 0) : Type 0 where
  pub publish : ℕ → String → Exec Error W (Unit {0})

module _ {W : Type 0} (uow : IUoW W) {A : Type 0} where
  -- An error of the finalizer replaces that of the body, which is not suppressed.
  abbrev pub finish : Result Error A × W → Result Error A × W
  finish (ok a, w) = (uow.aexit none >> pure a) w
  finish (err e, w) = (uow.aexit (some e) >> raise e) w

  -- `async with self._uow:` around a body.
  abbrev pub with_uow : Exec Error W A → Exec Error W A
  with_uow body w = finish (body w)
