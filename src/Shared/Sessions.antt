-- ===== src/Shared/Sessions.antt =====
-- `async with sessionmaker() as session`, with and without `session.begin()`, and what is known of
-- a body of statements in it.
use s1t_python_backend_templ.Base.{
  ◌≡◌, refl, ◌∙◌, ◌⊎◌, inl, inr, Result, ok, err, Exec, and_then, ◌>>=◌, pure, raise, lift,
}
use s1t_python_backend_templ.Shared.Errors.{Error, sql_error}
use s1t_python_backend_templ.Shared.Postgres.{Postgres, Statement, Executed, Committed, RolledBack}
use s1t_python_backend_templ.Shared.Transactions.{returns, script_bind, after_script}

module _ {T : Type 0} (pg : Postgres T) where
  open pg use {World, committed, working, now, execute, commit, rollback}

  -- `async with sessionmaker() as session, session.begin()`
  abbrev pub begun : {A : Type 0} → Result Error A × World → Result Error A × World
  begun (ok a, w) = and_then (commit w) (λ _. pure a)
  begun (err e, w) = and_then (rollback w) (λ _. raise e)

  -- `async with sessionmaker() as session`: closing ends what the statements began.
  abbrev pub closed : {A : Type 0} → Result Error A × World → Result Error A × World
  closed (ok a, w) = and_then (rollback w) (λ _. pure a)
  closed (err e, w) = and_then (rollback w) (λ _. raise e)

  abbrev pub RanIn : {A : Type 0} → Result Error (A × T) → World → Result Error A × World → Type 0
  RanIn r w (ok a, w') = (r ≡ ok (a, working w')) × (committed w' ≡ committed w) × (now w' ≡ now w)
  RanIn r w (err e, w') = ((e ≡ sql_error) ⊎ (r ≡ err e)) × (committed w' ≡ committed w)

  -- `m` has the result and the effect of the script `q`, or fails by the server.
  pub record Runs {A : Type 0} (q : Statement T A) (m : Exec Error World A) : Type 0 where
    pub at : (w : World) → RanIn (q (now w) (working w)) w (m w)

  RanIn-execute :
      {A : Type 0} (r : Result Error (A × T)) (w : World) (x : Result Error A × World)
      → Executed committed working r w x
      → now x.1 ≡ now w
      → RanIn r w x
  RanIn-execute r w (ok a, w') (h, c) n = (h, c, n)
  RanIn-execute r w (err e, w') h n = h

  pub Runs-execute : {A : Type 0} (q : Statement T A) → Runs q (execute q)
  Runs-execute q = record {
    at = λ w.
        RanIn-execute (q (now w) (working w)) w (execute q w) (pg.execute_law q w)
          (pg.now-execute q w);
  }

  RanIn-lift :
      {A : Type 0} (r : Result Error A) (w : World) → RanIn (returns r (now w) (working w)) w (r, w)
  RanIn-lift (ok a) w = (refl, refl, refl)
  RanIn-lift (err e) w = (inr refl, refl)

  pub Runs-lift : {A : Type 0} (r : Result Error A) → Runs (returns r) (lift r)
  Runs-lift r = record { at = RanIn-lift r }

  RanIn-from_start :
      {A : Type 0} (r : Result Error (A × T)) (w w' : World) (x : Result Error A × World)
      → committed w' ≡ committed w
      → now w' ≡ now w
      → RanIn r w' x
      → RanIn r w x
  RanIn-from_start r w w' (ok a, w'') c n (h, c', n') = (h, c' ∙ c, n' ∙ n)
  RanIn-from_start r w w' (err e, w'') c n (h, c') = (h, c' ∙ c)

  RanIn-bind :
      {A B : Type 0} (r : Result Error (A × T)) (w : World) (x : Result Error A × World)
      (g : A → Statement T B) (f : A → Exec Error World B)
      → RanIn r w x
      → ((a : A) → Runs (g a) (f a))
      → RanIn (after_script (now w) r g) w (and_then x f)
  RanIn-bind r w (ok a, w') g f (h, c, n) k =
      rw (h, after_script, ← n)
        (RanIn-from_start (g a (now w') (working w')) w w' (f a w') c n ((k a).at w'))
  RanIn-bind r w (err e, w') g f (inl h, c) k = (inl h, c)
  RanIn-bind r w (err e, w') g f (inr h, c) k = (inr (rw h refl), c)

  pub Runs-bind :
      {A B : Type 0} {q : Statement T A} {m : Exec Error World A} {g : A → Statement T B}
      {f : A → Exec Error World B}
      → Runs q m
      → ((a : A) → Runs (g a) (f a))
      → Runs (script_bind q g) (m >>= f)
  Runs-bind {q = q} {m = m} {g = g} {f = f} h k = record {
    at = λ w. RanIn-bind (q (now w) (working w)) w (m w) g f (h.at w) k;
  }

  -- A transaction ended: its script took effect, or nothing did; if COMMIT failed, either.
  abbrev pub Done : {A : Type 0} → Result Error (A × T) → World → Result Error A × World → Type 0
  Done r w (ok a, w') = r ≡ ok (a, committed w')
  Done {A} r w (err e, w') =
      ((e ≡ sql_error) × ((committed w' ≡ committed w) ⊎ ((a : A) × (r ≡ ok (a, committed w')))))
      ⊎ ((r ≡ err e) × (committed w' ≡ committed w))

  Done-commit :
      {A : Type 0} (r : Result Error (A × T)) (a : A) (w w' : World)
      (y : Result Error (Unit {0}) × World)
      → r ≡ ok (a, working w')
      → committed w' ≡ committed w
      → Committed committed working w' y
      → Done r w (and_then y (λ _. pure a))
  Done-commit r a w w' (ok u, w'') h c (d, v) = rw (d, h)
  Done-commit r a w w' (err e, w'') h c (e', inl d) = inl (e', inl (d ∙ c))
  Done-commit r a w w' (err e, w'') h c (e', inr d) = inl (e', inr (a, rw (d, h)))

  Done-rollback :
      {A : Type 0} (r : Result Error (A × T)) (e : Error) (w w' : World)
      (y : Result Error (Unit {0}) × World)
      → ((e ≡ sql_error) ⊎ (r ≡ err e))
      → committed w' ≡ committed w
      → RolledBack committed working w' y
      → Done r w (and_then y (λ _. raise e))
  Done-rollback r e w w' (ok u, w'') (inl s) c (d, v) = inl (s, inl (d ∙ c))
  Done-rollback r e w w' (ok u, w'') (inr s) c (d, v) = inr (s, d ∙ c)
  Done-rollback r e w w' (err e', w'') h c (k, d) = inl (k, inl (d ∙ c))

  pub Done-begun :
      {A : Type 0} (r : Result Error (A × T)) (w : World) (x : Result Error A × World)
      → RanIn r w x
      → Done r w (begun x)
  Done-begun r w (ok a, w') (h, c, n) = Done-commit r a w w' (commit w') h c (pg.commit_law w')
  Done-begun r w (err e, w') (h, c) = Done-rollback r e w w' (rollback w') h c (pg.rollback_law w')

  -- A session that only reads: what it read, and nothing is committed.
  abbrev pub Seen : {A : Type 0} → Result Error (A × T) → World → Result Error A × World → Type 0
  Seen r w (ok a, w') = ((t : T) × (r ≡ ok (a, t))) × (committed w' ≡ committed w)
  Seen r w (err e, w') = ((e ≡ sql_error) ⊎ (r ≡ err e)) × (committed w' ≡ committed w)

  Seen-ok :
      {A : Type 0} (r : Result Error (A × T)) (a : A) (w w' : World)
      (y : Result Error (Unit {0}) × World)
      → r ≡ ok (a, working w')
      → committed w' ≡ committed w
      → RolledBack committed working w' y
      → Seen r w (and_then y (λ _. pure a))
  Seen-ok r a w w' (ok u, w'') h c (d, v) = ((working w', h), d ∙ c)
  Seen-ok r a w w' (err e, w'') h c (k, d) = (inl k, d ∙ c)

  Seen-err :
      {A : Type 0} (r : Result Error (A × T)) (e : Error) (w w' : World)
      (y : Result Error (Unit {0}) × World)
      → ((e ≡ sql_error) ⊎ (r ≡ err e))
      → committed w' ≡ committed w
      → RolledBack committed working w' y
      → Seen r w (and_then y (λ _. raise e))
  Seen-err r e w w' (ok u, w'') h c (d, v) = (h, d ∙ c)
  Seen-err r e w w' (err e', w'') h c (k, d) = (inl k, d ∙ c)

  pub Seen-closed :
      {A : Type 0} (r : Result Error (A × T)) (w : World) (x : Result Error A × World)
      → RanIn r w x
      → Seen r w (closed x)
  Seen-closed r w (ok a, w') (h, c, n) = Seen-ok r a w w' (rollback w') h c (pg.rollback_law w')
  Seen-closed r w (err e, w') (h, c) = Seen-err r e w w' (rollback w') h c (pg.rollback_law w')
