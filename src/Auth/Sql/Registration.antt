-- ===== src/Auth/Sql/Registration.antt =====
-- Registering an account: the user and its outbox message commit together, or neither does.
use s1t_python_backend_templ.Base.{
  subst, ℕ, ◌≡◌, refl, ◌⊎◌, inl, inr, Bool, true, false, Bool-cases, String, [], ◌∷◌, ◌++◌, none,
  Result, ok, err, and_then, pure, any, ◌==◌, ==_refl, if◌then◌else◌,
}
use s1t_python_backend_templ.Shared.Errors.{Error, email_taken, port_error, integrity_error}
use s1t_python_backend_templ.Shared.Postgres.{Postgres, Statement}
use s1t_python_backend_templ.Shared.Transactions.{script_bind, returns}
use s1t_python_backend_templ.Shared.Sessions.{
  begun, Runs, RanIn, Runs-execute, Runs-bind, Runs-lift, Done, Done-begun,
}
use s1t_python_backend_templ.Media.Tables.{OutboxRow}
use s1t_python_backend_templ.Auth.Domain.{Role, UserRecord}
use s1t_python_backend_templ.Auth.Sql.{
  UserRow, Tables, UserRegisteredIntegration, has_email, user_row, insert_user, insert_outbox,
  created_at_of, refresh_user, or_register_error, Draws,
}
use s1t_python_backend_templ.Auth.Sql.Users.{registered_event, register_body, register}

module _ {Payload : Type 0} (pg : Postgres (Tables Payload))
    (encode : UserRegisteredIntegration → Payload) (draws : Draws) (email password_hash : String)
    (role : Role) where
  open pg use {World, committed, working, now}

  -- `uuid4()` drew identifiers that no row has.
  pub record AreUnused (t : Tables Payload) : Type 0 where
    pub user : any (λ (r : UserRow). r.id == draws.id) t.users ≡ false
    pub message : any (λ (r : OutboxRow Payload). r.id == draws.event_id) t.outbox_messages ≡ false

  abbrev pub with_user : ℕ → Tables Payload → Tables Payload
  with_user at t = record t {
    users = user_row draws.id email password_hash role at ∷ t.users;
    outbox_messages =
        t.outbox_messages
        ++ record {
          id = draws.event_id;
          event_type = "user_registered";
          payload = encode (registered_event draws role);
          created_at = at;
          sent_at = none;
        }
          ∷ [];
  }

  register_script : Statement (Tables Payload) ℕ
  register_script =
      let event = registered_event draws role in
      script_bind
        (script_bind (insert_user draws.id email password_hash role)
          (λ _. insert_outbox event.event_id event.event_type (encode event)))
        (λ _. script_bind (refresh_user draws.id) (λ rows. returns (created_at_of rows)))

  Runs-register : Runs pg register_script (register_body pg encode draws email password_hash role)
  unfolding register_script register_body
  Runs-register =
      Runs-bind pg
        (Runs-bind pg (Runs-execute pg (insert_user draws.id email password_hash role)) (λ _.
          Runs-execute pg (
            insert_outbox draws.event_id "user_registered" (encode (registered_event draws role)))))
        (λ _.
          Runs-bind pg (Runs-execute pg (refresh_user draws.id))
            (λ rows. Runs-lift pg (created_at_of rows)))

  script_result : ℕ → Tables Payload → Bool → Result Error (ℕ × Tables Payload)
  script_result at t b = if b then err integrity_error else ok (at, with_user at t)

  register_script-eq :
      (at : ℕ) (t : Tables Payload)
      → AreUnused t
      → register_script at t ≡ script_result at t (any (has_email email) t.users)
  unfolding register_script script_result insert_user insert_outbox refresh_user
  register_script-eq at t unused = elim (Bool-cases (any (has_email email) t.users)) [
    | inl there ↦ rw (unused.user, there) refl
    | inr free ↦ rw (unused.user, free, unused.message, ==_refl draws.id) refl
  ]

  abbrev pub account : ℕ → UserRecord
  account at = record { id = draws.id; email = email; role = role; created_at = at }

  -- How a registration ended, from the tables `t` at `at`.
  abbrev pub RegistrationEnded : ℕ → Tables Payload → Result Error UserRecord × World → Type 0
  RegistrationEnded at t (ok user, w') =
      (user ≡ account at)
      × (committed w' ≡ with_user at t)
      × (any (has_email email) t.users ≡ false)
  RegistrationEnded at t (err e, w') =
      ((e ≡ port_error) × ((committed w' ≡ t) ⊎ (committed w' ≡ with_user at t)))
      ⊎ ((e ≡ email_taken email) × (committed w' ≡ t) × (any (has_email email) t.users ≡ true))

  -- What `register` makes of how its transaction ended.
  abbrev as_account : Result Error ℕ × World → Result Error UserRecord × World
  as_account y = and_then (or_register_error email y) (λ at. pure (account at))

  ended :
      (at : ℕ) (w : World) (b : Bool) (y : Result Error ℕ × World)
      → any (has_email email) (committed w).users ≡ b
      → Done pg (script_result at (committed w) b) w y
      → RegistrationEnded at (committed w) (as_account y)
  unfolding script_result
  ended at w true (ok a, w') there h = absurd (cc)
  ended at w true (err e, w') there (inl (s, inl c)) = inl (rw s refl, inl c)
  ended at w true (err e, w') there (inl (s, inr (a, h))) = absurd (cc)
  ended at w true (err e, w') there (inr (h, c)) =
      let same : e ≡ integrity_error = cc in inr (rw same refl, c, there)
  ended at w false (ok a, w') free h = let when : a ≡ at = cc in (rw when refl, cc, free)
  ended at w false (err e, w') free (inl (s, inl c)) = inl (rw s refl, inl c)
  ended at w false (err e, w') free (inl (s, inr (a, h))) = inl (rw s refl, inr (cc))
  ended at w false (err e, w') free (inr (h, c)) = absurd (cc)

  -- A registration in a fresh session commits the account and its outbox message together and
  -- returns the account, if no active account has the e-mail. With one it raises EmailTakenError
  -- and commits nothing. A PortError commits nothing, unless COMMIT itself failed: then both or
  -- neither are there.
  pub register-RegistrationEnded :
      (w : World)
      → working w ≡ committed w
      → AreUnused (committed w)
      → RegistrationEnded
          (now w)
          (committed w)
          (register pg encode draws email password_hash role w)
  unfolding register
  register-RegistrationEnded w fresh unused =
      let t = committed w in
      let body = register_body pg encode draws email password_hash role w in
      let ran : RanIn pg (register_script (now w) t) w body =
        subst (λ t. RanIn pg (register_script (now w) t) w body) fresh (Runs-register.at w) in
      let script : RanIn pg (script_result (now w) t (any (has_email email) t.users)) w body =
        subst (λ r. RanIn pg r w body) (register_script-eq (now w) t unused) ran in
      ended (now w) w (any (has_email email) t.users) (begun pg body) refl
        (Done-begun pg _ w body script)
