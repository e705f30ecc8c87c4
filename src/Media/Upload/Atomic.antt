-- ===== src/Media/Upload/Atomic.antt =====
-- An upload commits the video, its outbox message and the claim of its key together, or nothing.
use s1t_python_backend_templ.Base.{
  subst, ℕ, ◌≡◌, refl, ◌∙◌, ap, ◌⊎◌, inl, inr, Bool-cases, Bool, true, false, String, [], ◌∷◌,
  Option, none, some, Result, ok, err, and_then, arith, if◌then◌else◌, ◌is◌,
}
use s1t_python_backend_templ.Shared.Errors.{Error, port_error}
use s1t_python_backend_templ.Shared.Texts.{Texts}
use s1t_python_backend_templ.Shared.Postgres.{Postgres, Statement}
use s1t_python_backend_templ.Shared.Sql.{scalar_one_or_none}
use s1t_python_backend_templ.Shared.Transactions.{
  Ran, Ended, Follows, Follows-bind, Follows-execute, Follows-lift, script_bind, returns,
}
use s1t_python_backend_templ.Media.Video.{Video, VideoUploaded, pending}
use s1t_python_backend_templ.Media.Tables.{Tables}
use s1t_python_backend_templ.Media.Interfaces.{finish, StoredUpload}
use s1t_python_backend_templ.Media.UnitOfWork.{Ended-finish}
use s1t_python_backend_templ.Media.Statements.{find_stmt}
use s1t_python_backend_templ.Media.Repo.{
  VideoUploadedIntegration, Draws, sql_uow, find, stored, sql_video_repo, sql_outbox_repo,
  sql_idempotency_store,
}
use s1t_python_backend_templ.Media.UseCases.{
  UploadVideoCommand, UploadResult, register, upload_video_uc, conclude, replay_stored,
  command_fingerprint,
}
use s1t_python_backend_templ.Media.Facade.{upload_uc}
use s1t_python_backend_templ.Media.Upload.Script.{register_script, Follows-register}
use s1t_python_backend_templ.Media.Upload.Effect.{
  uploaded, key_taken, AreUnused, register_script-eq,
}

module _ {Payload : Type 0} (pg : Postgres (Tables Payload)) (texts : Texts)
    (encode : VideoUploadedIntegration → Payload) (ttl_seconds : ℕ) (draws : Draws) where
  open pg use {World, committed, working, now, execute}

  find_script : String → Statement (Tables Payload) (Option StoredUpload)
  find_script key =
      script_bind (find_stmt key) (λ rows.
        script_bind (returns (scalar_one_or_none rows)) (λ row. returns (stored texts row)))

  Follows-find : (key : String) → Follows pg (find_script key) (find pg texts key)
  unfolding find_script find
  Follows-find key = Follows-bind pg (Follows-execute pg (find_stmt key)) (λ rows.
      Follows-bind pg (Follows-lift pg (scalar_one_or_none rows))
        (λ row. Follows-lift pg (stored texts row)))

  committed-Ran :
      {A : Type 0} (r : Result Error (A × Tables Payload)) (w : World) (x : Result Error A × World)
      → Ran pg r w x
      → committed x.1 ≡ committed w
  committed-Ran r w (ok a, w') h = h.1
  committed-Ran r w (err e, w') h = h.1

  -- Reading the stored upload commits nothing.
  committed-find : (key : String) (w : World) → committed (find pg texts key w).1 ≡ committed w
  committed-find key w = committed-Ran _ w (find pg texts key w) ((Follows-find key).at w)

  -- What an upload of `v` under `key` has committed, by how it ended, from the tables `t`.
  abbrev pub UploadEnded :
      Option String
      → String
      → Video
      → VideoUploaded
      → ℕ
      → Tables Payload
      → Result Error UploadResult × World
      → Type 0
  UploadEnded key print v e at t (ok result, w') =
      ((result.replayed ≡ false)
        × (committed w' ≡ uploaded texts encode ttl_seconds draws key print v e at t))
      ⊎ ((result.replayed ≡ true) × (key_taken key t ≡ true) × (committed w' ≡ t))
  UploadEnded key print v e at t (err exc, w') =
      (committed w' ≡ t)
      ⊎ ((exc ≡ port_error)
          × (committed w' ≡ uploaded texts encode ttl_seconds draws key print v e at t))

  claimed_cases :
      {S : Type 0} {a b : S} (taken claimed : Bool) (c : S)
      → ◌≡◌ {A = Result Error (Bool × S)}
          (if taken then ok (false, a) else ok (true, b))
          (ok (claimed, c))
      → (claimed ≡ false → (taken ≡ true) × (c ≡ a)) × (claimed ≡ true → c ≡ b)
  claimed_cases true claimed c h = ground arith
  claimed_cases false claimed c h = ground arith

  abbrev pub new_event : ℕ → ℕ → UploadVideoCommand → VideoUploaded
  new_event fresh_id at command = record {
    video_id = fresh_id;
    source_key = command.source_key;
    uploaded_at = at;
  }

  abbrev pub new_video : ℕ → ℕ → UploadVideoCommand → Video
  new_video fresh_id at command = record {
    id = fresh_id;
    source_key = command.source_key;
    status = pending;
    uploaded_at = at;
    document = command.document;
    events = new_event fresh_id at command ∷ [];
  }

  abbrev pub command_print : UploadVideoCommand → String
  command_print =
      command_fingerprint (sql_video_repo pg) (sql_uow pg) (sql_outbox_repo pg encode draws)
        (sql_idempotency_store pg texts ttl_seconds draws) texts

  module _ (key : String) (print : String) (v : Video) (e : VideoUploaded) (at : ℕ) where
    replay_stored-UploadEnded :
        (t : Tables Payload) (o : Option StoredUpload) (w : World)
        → key_taken (some key) t ≡ true
        → committed w ≡ t
        → UploadEnded (some key) print v e at t (
            replay_stored
              (sql_video_repo pg)
              (sql_uow pg)
              (sql_outbox_repo pg encode draws)
              (sql_idempotency_store pg texts ttl_seconds draws)
              texts
              key
              print
              o
              w)
    replay_stored-UploadEnded t none w taken c = inl c
    replay_stored-UploadEnded t (some s) w taken c = elim (Bool-cases (s.fingerprint is print)) [
      | inl same ↦ rw same (inr (refl, taken, c))
      | inr other ↦ rw other (inl c)
    ]

    replay-UploadEnded :
        (t : Tables Payload) (x : Result Error (Option StoredUpload) × World)
        → key_taken (some key) t ≡ true
        → committed x.1 ≡ t
        → UploadEnded (some key) print v e at t (
            and_then x (
              replay_stored
                (sql_video_repo pg)
                (sql_uow pg)
                (sql_outbox_repo pg encode draws)
                (sql_idempotency_store pg texts ttl_seconds draws)
                texts
                key
                print))
    replay-UploadEnded t (ok o, w) taken c = replay_stored-UploadEnded t o w taken c
    replay-UploadEnded t (err exc, w) taken c = inl c

  module _ (print : String) (v : Video) (e : VideoUploaded) (at : ℕ) (t : Tables Payload) where
    abbrev registered : Option String → Result Error (Bool × Tables Payload)
    registered key =
        if key_taken key t
        then ok (false, t)
        else ok (true, uploaded texts encode ttl_seconds draws key print v e at t)

    conclude-UploadEnded :
        (key : Option String) (claimed : Bool) (w : World)
        → registered key ≡ ok (claimed, committed w)
        → UploadEnded key print v e at t (
            conclude
              (sql_video_repo pg)
              (sql_uow pg)
              (sql_outbox_repo pg encode draws)
              (sql_idempotency_store pg texts ttl_seconds draws)
              texts
              key
              print
              v
              claimed
              w)
    conclude-UploadEnded key true w h =
        inl (refl, (claimed_cases (key_taken key t) true (committed w) h).1 refl)
    conclude-UploadEnded none false w h = cc
    conclude-UploadEnded (some key) false w h =
        let (taken, c) = (claimed_cases (key_taken (some key) t) false (committed w) h).0 refl in
        replay-UploadEnded key print v e at t (find pg texts key w) taken (committed-find key w ∙ c)

    transaction-UploadEnded :
        (key : Option String) (w : World) (x : Result Error Bool × World)
        → committed w ≡ t
        → Ended pg (registered key) w x
        → UploadEnded key print v e at t (
            and_then x (
              conclude
                (sql_video_repo pg)
                (sql_uow pg)
                (sql_outbox_repo pg encode draws)
                (sql_idempotency_store pg texts ttl_seconds draws)
                texts
                key
                print
                v))
    transaction-UploadEnded key w (ok claimed, w') c h = conclude-UploadEnded key claimed w' h.0
    transaction-UploadEnded key w (err exc, w') c (inl (p, (true, h))) =
        inr (p, (claimed_cases (key_taken key t) true (committed w') h).1 refl)
    transaction-UploadEnded key w (err exc, w') c (inl (p, (false, h))) =
        inl (((claimed_cases (key_taken key t) false (committed w') h).0 refl).1)
    transaction-UploadEnded key w (err exc, w') c (inr (p, d)) = inl (d ∙ c)

  Ended-register :
      (key : Option String) (print : String) (v : Video) (e : VideoUploaded) (w : World)
      → v.events ≡ e ∷ []
      → working w ≡ committed w
      → AreUnused draws v.id (committed w)
      → Ended pg (registered print v e (now w) (committed w) key) w (
          finish (sql_uow pg) (
            register
              (sql_video_repo pg)
              (sql_uow pg)
              (sql_outbox_repo pg encode draws)
              (sql_idempotency_store pg texts ttl_seconds draws)
              texts
              key
              print
              v
              w))
  Ended-register key print v e w one fresh unused =
      let script = register_script texts encode ttl_seconds draws key print v in
      let body =
        register (sql_video_repo pg) (sql_uow pg) (sql_outbox_repo pg encode draws)
          (sql_idempotency_store pg texts ttl_seconds draws) texts key print v in
      subst (λ r. Ended pg r w (finish (sql_uow pg) (body w)))
        (ap (script (now w)) fresh
          ∙ register_script-eq texts encode ttl_seconds draws key print v e (now w) (committed w)
              one unused)
        (Ended-finish pg (script (now w) (working w)) w (body w)
          ((Follows-register texts encode ttl_seconds draws pg key print v).at w))

  -- From a fresh session, with identifiers that no row has: a new upload has committed its video,
  -- one unsent outbox message and the claim of its key; a replayed one found the key taken and has
  -- committed nothing. A failed one has committed nothing, except that a COMMIT whose failure is
  -- reported as PortError may have taken effect, and then in full.
  pub upload_all_or_nothing :
      (fresh_id at : ℕ) (command : UploadVideoCommand) (w : World)
      → working w ≡ committed w
      → AreUnused draws fresh_id (committed w)
      → UploadEnded command.idempotency_key
          (command_print command)
          (new_video fresh_id at command)
          (new_event fresh_id at command)
          (now w)
          (committed w)
          (upload_uc pg texts encode ttl_seconds draws fresh_id at command w)
  unfolding upload_video_uc
  upload_all_or_nothing fresh_id at command w fresh unused =
      elim (Bool-cases (command.source_key is "")) [
        | inl blank ↦ rw (blank) (inl refl)
        | inr present ↦ rw (present) (
            let v = new_video fresh_id at command in
            let e = new_event fresh_id at command in
            transaction-UploadEnded (command_print command) v e (now w) (committed w)
              command.idempotency_key w _ refl
              (Ended-register command.idempotency_key (command_print command) v e w refl fresh
                unused))
      ]
