-- ===== src/Media/Upload/Effect.antt =====
-- What a committed upload leaves in the tables, in closed form.
use s1t_python_backend_templ.Base.{
  ℕ, ◌+◌, ◌≡◌, refl, inl, inr, Bool-cases, String, Bool, true, false, List, [], ◌∷◌, ◌++◌, Option,
  none, some, ok, any, ◌==◌, if◌then◌else◌,
}
use s1t_python_backend_templ.Shared.Texts.{Texts}
use s1t_python_backend_templ.Media.Video.{Video, VideoUploaded, value, collect_events}
use s1t_python_backend_templ.Media.Tables.{VideoRow, OutboxRow, IdempotencyRow, Tables}
use s1t_python_backend_templ.Media.Statements.{save_stmt, claim_stmt, add_stmt, has_id, has_key}
use s1t_python_backend_templ.Media.Repo.{VideoUploadedIntegration, Draws, snapshot, seconds}
use s1t_python_backend_templ.Media.Upload.Script.{integration, register_script}

module _ {Payload : Type 0} where
  abbrev pub key_taken : Option String → Tables Payload → Bool
  key_taken none t = false
  key_taken (some key) t = any (has_key key) t.idempotency_keys

  -- No row has the identifiers that the upload drew.
  abbrev pub AreUnused : Draws → ℕ → Tables Payload → Type 0
  AreUnused draws video_id t =
      (any (has_id video_id) t.videos ≡ false)
      × (any (λ (r : OutboxRow Payload). r.id == draws.event_id) t.outbox_messages ≡ false)

module _ {Payload : Type 0} (texts : Texts) (encode : VideoUploadedIntegration → Payload)
    (ttl_seconds : ℕ) (draws : Draws) where
  abbrev pub video_row : Video → ℕ → VideoRow
  video_row v now = record {
    id = v.id;
    source_key = v.source_key;
    status = value v.status;
    uploaded_at = v.uploaded_at;
    document = v.document;
    created_at = now;
    updated_at = now;
    deleted_at = none;
  }

  abbrev pub outbox_row : VideoUploaded → ℕ → OutboxRow Payload
  outbox_row e now = record {
    id = draws.event_id;
    event_type = "video_uploaded";
    payload = encode (integration texts encode ttl_seconds draws e);
    created_at = now;
    sent_at = none;
  }

  abbrev pub add_key :
      Option String → String → Video → ℕ → List IdempotencyRow → List IdempotencyRow
  add_key none print v now keys = keys
  add_key (some key) print v now keys =
      record {
        key = key;
        fingerprint = print;
        response = snapshot texts v;
        created_at = now;
        expires_at = draws.claimed_at + seconds ttl_seconds;
      }
      ∷ keys

  -- One new video, one unsent outbox message, and the claim of the key if there is one.
  abbrev pub uploaded :
      Option String → String → Video → VideoUploaded → ℕ → Tables Payload → Tables Payload
  uploaded key print v e now t = record {
    videos = video_row v now ∷ t.videos;
    outbox_messages = t.outbox_messages ++ outbox_row e now ∷ [];
    idempotency_keys = add_key key print v now t.idempotency_keys;
  }

  pub register_script-eq :
      (key : Option String) (print : String) (v : Video) (e : VideoUploaded) (now : ℕ)
      (t : Tables Payload)
      → v.events ≡ e ∷ []
      → AreUnused draws v.id t
      → register_script texts encode ttl_seconds draws key print v now t
        ≡ (if key_taken key t then ok (false, t) else ok (true, uploaded key print v e now t))
  unfolding register_script save_stmt claim_stmt add_stmt collect_events
  register_script-eq none print v e now t h (fresh, fresh') = rw (h, fresh, fresh') refl
  register_script-eq (some key) print v e now t h (fresh, fresh') =
      elim (Bool-cases (any (has_key key) t.idempotency_keys)) [
        | inl taken ↦ rw taken refl
        | inr free ↦ rw (free, h, fresh, fresh') refl
      ]
