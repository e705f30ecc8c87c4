-- ===== src/Media/Sweeper.antt =====
-- shared/adapters/driven/idempotency_sweeper.py on the tables of the media context.
use s1t_python_backend_templ.Base.{
  ℕ, ◌+◌, ◌≡◌, ◌∙◌, ap, sym, ◌⊎◌, inl, inr, Bool, List, [], ◌∷◌, Result, ok, err, Exec, and_then,
  ◌>>◌, pure, raise, ltb, length, arith,
}
use s1t_python_backend_templ.Shared.Errors.{Error}
use s1t_python_backend_templ.Shared.Sql.{delete_where, rowcount}
use s1t_python_backend_templ.Shared.Postgres.{Postgres, Statement, Executed, Committed, RolledBack}
use s1t_python_backend_templ.Media.Tables.{Tables, IdempotencyRow}

-- `expires_at < now()`
abbrev pub is_expired : ℕ → IdempotencyRow → Bool
is_expired now r = ltb r.expires_at now

module _ {Payload : Type 0} where
  abbrev pub without_expired : ℕ → Tables Payload → Tables Payload
  without_expired now t = record t {
    idempotency_keys = delete_where (is_expired now) t.idempotency_keys;
  }

  -- `self._purge`: the DELETE, and its rowcount.
  unfoldable pub purge_stmt : Statement (Tables Payload) ℕ
  purge_stmt now t = ok (rowcount (is_expired now) t.idempotency_keys, without_expired now t)

module _ {Payload : Type 0} (pg : Postgres (Tables Payload)) where
  open pg use {World, committed, working, now, execute, commit, rollback}

  -- The end of `session.begin()`: a COMMIT, or a ROLLBACK where the body raised.
  abbrev pub end_begin : {A : Type 0} → Result Error A × World → Result Error A × World
  end_begin (ok a, w) = (commit >> pure a) w
  end_begin (err e, w) = (rollback >> raise e) w

  -- IdempotencySweeper.purge_once
  unfoldable pub purge_once : Exec Error World ℕ
  unfolding purge_stmt
  purge_once w = end_begin (execute purge_stmt w)

  -- One round of `run_forever` after the sleep: what is raised is logged.
  unfoldable pub sweep : World → World
  unfolding purge_once
  sweep w = (purge_once w).1

  kept_and_purged :
      (at : ℕ) (rows : List IdempotencyRow)
      → rowcount (is_expired at) rows + length (delete_where (is_expired at) rows) ≡ length rows
  kept_and_purged at [] = omega arith
  kept_and_purged at (r ∷ rows) = ground (arith, kept_and_purged at rows)

  -- How a purge at an instant ended, from the tables `t`.
  abbrev pub Purged : ℕ → Tables Payload → Result Error ℕ × World → Type 0
  Purged at t (ok n, w') =
      (committed w' ≡ without_expired at t)
      × (n + length (committed w').idempotency_keys ≡ length t.idempotency_keys)
  Purged at t (err e, w') = (committed w' ≡ t) ⊎ (committed w' ≡ without_expired at t)

  commit-Purged :
      (n : ℕ) (at : ℕ) (t : Tables Payload) (w : World) (x : Result Error (Unit {0}) × World)
      → committed w ≡ t
      → working w ≡ without_expired at t
      → n ≡ rowcount (is_expired at) t.idempotency_keys
      → Committed committed working w x
      → Purged at t (and_then x (λ _. pure n))
  commit-Purged n at t w (ok u, w') c v k (d, e) =
      (d ∙ v, rw (d, v, k) (kept_and_purged at t.idempotency_keys))
  commit-Purged n at t w (err e, w') c v k (s, inl d) = inl (d ∙ c)
  commit-Purged n at t w (err e, w') c v k (s, inr d) = inr (d ∙ v)

  rollback-Purged :
      (e : Error) (at : ℕ) (t : Tables Payload) (w : World) (x : Result Error (Unit {0}) × World)
      → committed w ≡ t
      → RolledBack committed working w x
      → Purged at t (and_then x (λ _. raise e))
  rollback-Purged e at t w (ok u, w') c (d, k) = inl (d ∙ c)
  rollback-Purged e at t w (err e', w') c (k, d) = inl (d ∙ c)

  result_tables :
      {n m : ℕ} {t t' : Tables Payload}
      → ◌≡◌ {A = Result Error (ℕ × Tables Payload)} (ok (n, t)) (ok (m, t'))
      → t ≡ t'
  result_tables {t = t} h = ap (λ r. elim r [ ok p ↦ p.1 | err e ↦ t ]) h

  result_count :
      {n m : ℕ} {t t' : Tables Payload}
      → ◌≡◌ {A = Result Error (ℕ × Tables Payload)} (ok (n, t)) (ok (m, t'))
      → n ≡ m
  result_count {n = n} h = ap (λ r. elim r [ ok p ↦ p.0 | err e ↦ n ]) h

  Executed-Purged :
      (w : World) (x : Result Error ℕ × World)
      → working w ≡ committed w
      → Executed committed working (purge_stmt (now w) (working w)) w x
      → Purged (now w) (committed w) (end_begin x)
  unfolding purge_stmt
  Executed-Purged w (ok n, w1) fresh (h, c) =
      let tables : without_expired (now w) (working w) ≡ working w1 = result_tables h in
      let count : rowcount (is_expired (now w)) (working w).idempotency_keys ≡ n = result_count h in
      commit-Purged n (now w) (committed w) w1 (commit w1) c
        (sym tables ∙ ap (without_expired (now w)) fresh)
        (sym count ∙ ap (λ t. rowcount (is_expired (now w)) t.idempotency_keys) fresh)
        (pg.commit_law w1)
  Executed-Purged w (err e, w1) fresh (h, c) =
      rollback-Purged e (now w) (committed w) w1 (rollback w1) c (pg.rollback_law w1)

  -- From a fresh session: a purge that returns has committed the removal of exactly the keys that
  -- have expired, and returns how many; one that raises has committed that or nothing.
  pub purge_once-Purged :
      (w : World) → working w ≡ committed w → Purged (now w) (committed w) (purge_once w)
  unfolding purge_once
  purge_once-Purged w fresh =
      Executed-Purged w (execute purge_stmt w) fresh (pg.execute_law purge_stmt w)
