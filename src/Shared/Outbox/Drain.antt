-- ===== src/Shared/Outbox/Drain.antt =====
-- How one drain of the outbox ends.
use s1t_python_backend_templ.Base.{
  subst, ℕ, ◌≡◌, refl, ap, sym, ◌∙◌, ◌⊎◌, inl, inr, Bool, String, List, [], ◌∷◌, ◌++◌, map, length,
  Result, ok, err, and_then, ◌>>=◌, pure, raise,
}
use mathlib.Core.List.{append_assoc, append-nil}
use s1t_python_backend_templ.Shared.Errors.{Error}
use s1t_python_backend_templ.Shared.Postgres.{Postgres, Executed, Committed, RolledBack}
use s1t_python_backend_templ.Shared.Sessions.{begun}
use s1t_python_backend_templ.Media.Tables.{OutboxRow}
use s1t_python_backend_templ.Shared.Outbox.{
  Entry, Stream, Appended, Outbox, claimed, claim_stmt, marked, mark_stmt, entry, publish_all,
  publish, drain_body, drain_once,
}

module _ {Payload : Type 0} (uuid_text : ℕ → String) (pg : Postgres (Outbox Payload))
    (valkey : Stream pg (Entry Payload)) where
  open pg use {World, committed, working, now, execute, commit, rollback}
  open valkey use {stream}

  abbrev pub entries : Outbox Payload → List (Entry Payload)
  entries rows = map (entry uuid_text) rows

  -- Entries were published, and the database is as it was.
  abbrev pub Published : Outbox Payload → World → Result Error (Unit {0}) × World → Type 0
  Published rows w (ok u, w') =
      (stream w' ≡ stream w ++ entries rows)
      × (committed w' ≡ committed w)
      × (working w' ≡ working w)
      × (now w' ≡ now w)
  Published rows w (err e, w') =
      ((more : List (Entry Payload)) × (stream w' ≡ stream w ++ more))
      × (committed w' ≡ committed w)

  Published-more :
      (r : OutboxRow Payload) (rows : Outbox Payload) (w w' : World)
      (y : Result Error (Unit {0}) × World)
      → stream w' ≡ stream w ++ entry uuid_text r ∷ []
      → (committed w' ≡ committed w) × (working w' ≡ working w) × (now w' ≡ now w)
      → Published rows w' y
      → Published (r ∷ rows) w y
  Published-more r rows w w' (ok u, w'') s (c, v, n) (s', c', v', n') = (
    s'
        ∙ ap (λ x. x ++ entries rows) s
        ∙ append_assoc (stream w) (entry uuid_text r ∷ []) (entries rows),
    c' ∙ c,
    v' ∙ v,
    n' ∙ n,
  )
  Published-more r rows w w' (err e, w'') s (c, v, n) ((more, s'), c') = (
    (
      entry uuid_text r ∷ more,
      s' ∙ ap (λ x. x ++ more) s ∙ append_assoc (stream w) (entry uuid_text r ∷ []) more,
    ),
    c' ∙ c,
  )

  Published-step :
      (r : OutboxRow Payload) (rows : Outbox Payload) (w : World)
      (x : Result Error (Unit {0}) × World)
      → Appended stream (entry uuid_text r) w x
      → (committed x.1 ≡ committed w) × (working x.1 ≡ working w) × (now x.1 ≡ now w)
      → ((w' : World) → Published rows w' (publish_all uuid_text pg valkey rows w'))
      → Published (r ∷ rows) w (and_then x (λ _. publish_all uuid_text pg valkey rows))
  Published-step r rows w (ok u, w') s same ih = Published-more r rows w w' _ s same (ih w')
  Published-step r rows w (err e, w') (inl s) (c, v, n) ih =
      (([], s ∙ sym (append-nil (stream w))), c)
  Published-step r rows w (err e, w') (inr s) (c, v, n) ih = ((entry uuid_text r ∷ [], s), c)

  publish_all-Published :
      (rows : Outbox Payload) (w : World)
      → Published rows w (publish_all uuid_text pg valkey rows w)
  unfolding publish_all
  publish_all-Published [] w = (sym (append-nil (stream w)), refl, refl, refl)
  publish_all-Published (r ∷ rows) w =
      Published-step r rows w (valkey.xadd (entry uuid_text r) w)
        (valkey.xadd_law (entry uuid_text r) w)
        (
          valkey.committed-xadd (entry uuid_text r) w,
          valkey.working-xadd (entry uuid_text r) w,
          valkey.now-xadd (entry uuid_text r) w,
        )
        (publish_all-Published rows)

  -- What the body of a drain did, before the transaction ends.
  abbrev Drained : Outbox Payload → World → Result Error ℕ × World → Type 0
  Drained rows w (ok n, w') =
      (n ≡ length rows)
      × (stream w' ≡ stream w ++ entries rows)
      × (committed w' ≡ committed w)
      × (working w' ≡ marked rows (now w) (working w))
  Drained rows w (err e, w') =
      ((more : List (Entry Payload)) × (stream w' ≡ stream w ++ more))
      × (committed w' ≡ committed w)

  -- How a drain of some rows ended.
  abbrev pub DrainEnded : Outbox Payload → World → Result Error ℕ × World → Type 0
  DrainEnded rows w (ok n, w') =
      (n ≡ length rows)
      × (stream w' ≡ stream w ++ entries rows)
      × (committed w' ≡ marked rows (now w) (committed w))
  DrainEnded rows w (err e, w') =
      (more : List (Entry Payload)) × (stream w' ≡ stream w ++ more)
      × ((committed w' ≡ committed w)
          ⊎ ((more ≡ entries rows) × (committed w' ≡ marked rows (now w) (committed w))))

  ended_commit :
      (rows : Outbox Payload) (n : ℕ) (w w' : World) (y : Result Error (Unit {0}) × World)
      → working w ≡ committed w
      → Drained rows w (ok n, w')
      → stream y.1 ≡ stream w'
      → Committed committed working w' y
      → DrainEnded rows w (and_then y (λ _. pure n))
  ended_commit rows n w w' (ok u, w'') fresh (k, s, c, v) s' (d, x) =
      (k, s' ∙ s, d ∙ v ∙ ap (marked rows (now w)) fresh)
  ended_commit rows n w w' (err e, w'') fresh (k, s, c, v) s' (x, inl d) =
      (entries rows, s' ∙ s, inl (d ∙ c))
  ended_commit rows n w w' (err e, w'') fresh (k, s, c, v) s' (x, inr d) =
      (entries rows, s' ∙ s, inr (refl, d ∙ v ∙ ap (marked rows (now w)) fresh))

  ended_rollback :
      (rows : Outbox Payload) (e : Error) (w w' : World) (y : Result Error (Unit {0}) × World)
      → Drained rows w (err e, w')
      → stream y.1 ≡ stream w'
      → RolledBack committed working w' y
      → DrainEnded rows w (and_then y (λ _. raise e))
  ended_rollback rows e w w' (ok u, w'') ((more, s), c) s' (d, x) = (more, s' ∙ s, inl (d ∙ c))
  ended_rollback rows e w w' (err e', w'') ((more, s), c) s' (x, d) = (more, s' ∙ s, inl (d ∙ c))

  ended :
      (rows : Outbox Payload) (w : World) (x : Result Error ℕ × World)
      → working w ≡ committed w
      → Drained rows w x
      → DrainEnded rows w (begun pg x)
  ended rows w (ok n, w') fresh h =
      ended_commit rows n w w' (commit w') fresh h (valkey.stream-commit w') (pg.commit_law w')
  ended rows w (err e, w') fresh h =
      ended_rollback rows e w w' (rollback w') h (valkey.stream-rollback w') (pg.rollback_law w')

  marked-none : (at : ℕ) (rows : Outbox Payload) → marked [] at rows ≡ rows
  marked-none at [] = refl
  marked-none at (r ∷ rows) = ap (◌∷◌ r) (marked-none at rows)

  -- The UPDATE after the entries were published.
  Drained-mark :
      (rows : Outbox Payload) (w w' : World) (y : Result Error (Unit {0}) × World)
      → Published rows w (ok tt, w')
      → stream y.1 ≡ stream w'
      → Executed committed working (ok (tt, marked rows (now w') (working w'))) w' y
      → Drained rows w (and_then y (λ _. pure (length rows)))
  Drained-mark rows w w' (ok u, w'') (s, c, v, n) s' (h, d) =
      let same : working w'' ≡ marked rows (now w') (working w') = cc in
      (refl, s' ∙ s, d ∙ c, same ∙ (λ i. marked rows (n i) (v i)))
  Drained-mark rows w w' (err e, w'') (s, c, v, n) s' (h, d) = ((entries rows, s' ∙ s), d ∙ c)

  Drained-publish :
      (rows : Outbox Payload) (w : World) (y : Result Error (Unit {0}) × World)
      → Published rows w y
      → Drained rows w (and_then y (λ _. execute (mark_stmt rows) >>= λ _. pure (length rows)))
  unfolding mark_stmt
  Drained-publish rows w (ok u, w') h =
      Drained-mark rows w w' (execute (mark_stmt rows) w') h
        (valkey.stream-execute (mark_stmt rows) w') (pg.execute_law (mark_stmt rows) w')
  Drained-publish rows w (err e, w') h = h

  publish-Drained :
      (rows : Outbox Payload) (w : World) → Drained rows w (publish uuid_text pg valkey rows w)
  publish-Drained [] w =
      (refl, sym (append-nil (stream w)), refl, sym (marked-none (now w) (working w)))
  publish-Drained (r ∷ rows) w = Drained-publish (r ∷ rows) w _ (publish_all-Published (r ∷ rows) w)

  -- Told from before the SELECT.
  Drained-before :
      (rows : Outbox Payload) (w w' : World) (x : Result Error ℕ × World)
      → stream w' ≡ stream w
      → committed w' ≡ committed w
      → working w' ≡ working w
      → now w' ≡ now w
      → Drained rows w' x
      → Drained rows w x
  Drained-before rows w w' (ok n, w'') s c v t (k, s', c', v') =
      (k, s' ∙ ap (λ x. x ++ entries rows) s, c' ∙ c, v' ∙ (λ i. marked rows (t i) (v i)))
  Drained-before rows w w' (err e, w'') s c v t ((more, s'), c') =
      ((more, s' ∙ ap (λ x. x ++ more) s), c' ∙ c)

  Drained-claim :
      (rows : Outbox Payload) (w : World) (y : Result Error (Outbox Payload) × World)
      → stream y.1 ≡ stream w
      → now y.1 ≡ now w
      → Executed committed working (ok (rows, working w)) w y
      → Drained rows w (and_then y (publish uuid_text pg valkey))
  Drained-claim rows w (ok found, w') s t (h, c) =
      let same : rows ≡ found = cc in
      let kept : working w' ≡ working w = cc in
      Drained-before rows w w' _ s c kept t (
        subst (λ f. Drained rows w' (publish uuid_text pg valkey f w')) same
          (publish-Drained rows w'))
  Drained-claim rows w (err e, w') s t (h, c) = (([], s ∙ sym (append-nil (stream w))), c)

  drain_body-Drained :
      (locked : ℕ → Bool) (batch : ℕ) (w : World)
      → Drained (claimed locked batch (working w)) w (drain_body uuid_text pg valkey locked batch w)
  unfolding drain_body claim_stmt
  drain_body-Drained locked batch w =
      Drained-claim (claimed locked batch (working w)) w (execute (claim_stmt locked batch) w)
        (valkey.stream-execute (claim_stmt locked batch) w)
        (pg.now-execute (claim_stmt locked batch) w) (pg.execute_law (claim_stmt locked batch) w)

  -- A drain that succeeds has published the claimed rows, oldest first and each once, marked
  -- exactly these as sent, and returned how many they are. One that fails commits nothing, unless
  -- COMMIT itself failed after all of them were published; what it published before stays.
  pub drain_once-DrainEnded :
      (locked : ℕ → Bool) (batch : ℕ) (w : World)
      → working w ≡ committed w
      → DrainEnded
          (claimed locked batch (committed w))
          w
          (drain_once uuid_text pg valkey locked batch w)
  unfolding drain_once
  drain_once-DrainEnded locked batch w fresh =
      subst
        (λ t.
          DrainEnded (claimed locked batch t) w
            (begun pg (drain_body uuid_text pg valkey locked batch w)))
        fresh
        (ended (claimed locked batch (working w)) w _ fresh (drain_body-Drained locked batch w))
