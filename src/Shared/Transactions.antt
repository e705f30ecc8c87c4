-- ===== src/Shared/Transactions.antt =====
-- Transactions as scripts. A script is a pure function of the tables; code that runs statements
-- follows a script when it has the script's result and effect, or fails and commits nothing.
use s1t_python_backend_templ.Base.{
  ℕ, ◌≡◌, refl, ◌⊎◌, inl, inr, none, some, Result, ok, err, Exec, and_then, ◌>>=◌, ◌>>◌, pure,
  raise, lift, ap, sym, ◌∙◌, Bool-cases,
}
use s1t_python_backend_templ.Shared.Errors.{Error, port_error, is_sqlalchemy_error}
use s1t_python_backend_templ.Shared.Postgres.{
  Postgres, Statement, Executed, Committed, RolledBack, or_port_error, wrap_error, aexit,
}

module _ {T : Type 0} where
  abbrev pub returns : {A : Type 0} → Result Error A → Statement T A
  returns (ok a) now t = ok (a, t)
  returns (err e) now t = err e

  abbrev pub after_script :
      {A B : Type 0} → ℕ → Result Error (A × T) → (A → Statement T B) → Result Error (B × T)
  after_script now (ok (a, t)) f = f a now t
  after_script now (err e) f = err e

  -- One script, then another that depends on its result.
  abbrev pub script_bind : {A B : Type 0} → Statement T A → (A → Statement T B) → Statement T B
  script_bind q f now t = after_script now (q now t) f

module _ {T : Type 0} (pg : Postgres T) where
  open pg use {World, committed, working, now, execute, commit, rollback}

  abbrev pub Ran : {A : Type 0} → Result Error (A × T) → World → Result Error A × World → Type 0
  Ran r w (ok a, w') = (r ≡ ok (a, working w')) × (committed w' ≡ committed w) × (now w' ≡ now w)
  Ran r w (err e, w') = ((e ≡ port_error) ⊎ (r ≡ err e)) × (committed w' ≡ committed w)

  -- `m` follows the script `q`.
  pub record Follows {A : Type 0} (q : Statement T A) (m : Exec Error World A) : Type 0 where
    pub at : (w : World) → Ran (q (now w) (working w)) w (m w)

  wrap_error-cases : (e : Error) → (wrap_error e ≡ port_error) ⊎ (wrap_error e ≡ e)
  wrap_error-cases e = elim (Bool-cases (is_sqlalchemy_error e)) [
    | inl caught ↦ inl (rw caught)
    | inr other ↦ inr (rw other)
  ]

  Ran-wrap_error :
      {A : Type 0} (r : Result Error (A × T)) (e : Error) (w w' : World)
      → r ≡ err e
      → committed w' ≡ committed w
      → Ran r w (err (wrap_error e), w')
  Ran-wrap_error r e w w' h c = elim (wrap_error-cases e) [
    | inl wrapped ↦ (inl wrapped, c)
    | inr same ↦ (inr (h ∙ ap err (sym same)), c)
  ]

  Ran-execute :
      {A : Type 0} (r : Result Error (A × T)) (w : World) (x : Result Error A × World)
      → Executed committed working r w x
      → now x.1 ≡ now w
      → Ran r w (or_port_error x)
  Ran-execute r w (ok a, w') (h, c) n = (h, c, n)
  Ran-execute r w (err e, w') (inl h, c) n = (inl (rw h), c)
  Ran-execute r w (err e, w') (inr h, c) n = Ran-wrap_error r e w w' h c

  pub Follows-execute :
      {A : Type 0} (q : Statement T A) → Follows q (λ w. or_port_error (execute q w))
  Follows-execute q = record {
    at = λ w.
        Ran-execute (q (now w) (working w)) w (execute q w) (pg.execute_law q w)
          (pg.now-execute q w);
  }

  Ran-lift :
      {A : Type 0} (r : Result Error A) (w : World) → Ran (returns r (now w) (working w)) w (r, w)
  Ran-lift (ok a) w = (refl, refl, refl)
  Ran-lift (err e) w = (inr refl, refl)

  pub Follows-lift : {A : Type 0} (r : Result Error A) → Follows (returns r) (lift r)
  Follows-lift r = record { at = Ran-lift r }

  -- What a later part of the same transaction did, told from its start.
  Ran-from_start :
      {A : Type 0} (r : Result Error (A × T)) (w w' : World) (x : Result Error A × World)
      → committed w' ≡ committed w
      → now w' ≡ now w
      → Ran r w' x
      → Ran r w x
  Ran-from_start r w w' (ok a, w'') c n (h, c', n') = (h, c' ∙ c, n' ∙ n)
  Ran-from_start r w w' (err e, w'') c n (h, c') = (h, c' ∙ c)

  Ran-bind :
      {A B : Type 0} (r : Result Error (A × T)) (w : World) (x : Result Error A × World)
      (g : A → Statement T B) (f : A → Exec Error World B)
      → Ran r w x
      → ((a : A) → Follows (g a) (f a))
      → Ran (after_script (now w) r g) w (and_then x f)
  Ran-bind r w (ok a, w') g f (h, c, n) k =
      rw (h, after_script, ← n)
        (Ran-from_start (g a (now w') (working w')) w w' (f a w') c n ((k a).at w'))
  Ran-bind r w (err e, w') g f (inl h, c) k = (inl h, c)
  Ran-bind r w (err e, w') g f (inr h, c) k = (inr (rw h refl), c)

  pub Follows-bind :
      {A B : Type 0} {q : Statement T A} {m : Exec Error World A} {g : A → Statement T B}
      {f : A → Exec Error World B}
      → Follows q m
      → ((a : A) → Follows (g a) (f a))
      → Follows (script_bind q g) (m >>= f)
  Follows-bind {q = q} {m = m} {g = g} {f = f} h k = record {
    at = λ w. Ran-bind (q (now w) (working w)) w (m w) g f (h.at w) k;
  }

  -- How `async with uow` ended around a body with the script's result `r`: it committed exactly
  -- what the script says, or nothing. Only if COMMIT itself failed may either be the case.
  abbrev pub Ended : {A : Type 0} → Result Error (A × T) → World → Result Error A × World → Type 0
  Ended r w (ok a, w') = (r ≡ ok (a, committed w')) × (working w' ≡ committed w')
  Ended {A} r w (err e, w') =
      ((e ≡ port_error) × ((a : A) × (r ≡ ok (a, committed w'))))
      ⊎ (((e ≡ port_error) ⊎ (r ≡ err e)) × (committed w' ≡ committed w))

  Ended-commit :
      {A : Type 0} (r : Result Error (A × T)) (a : A) (w w' : World)
      (y : Result Error (Unit {0}) × World)
      → r ≡ ok (a, working w')
      → committed w' ≡ committed w
      → Committed committed working w' y
      → Ended r w (and_then (or_port_error y) (λ _. pure a))
  Ended-commit r a w w' (ok u, w'') h c (d, v) = (rw (d, h), v ∙ sym d)
  Ended-commit r a w w' (err e, w'') h c (e', inl d) = inr (inl (rw e'), d ∙ c)
  Ended-commit r a w w' (err e, w'') h c (e', inr d) = inl (rw e', (a, rw (d, h)))

  Ended-rollback :
      {A : Type 0} (r : Result Error (A × T)) (e : Error) (w w' : World)
      (y : Result Error (Unit {0}) × World)
      → ((e ≡ port_error) ⊎ (r ≡ err e))
      → committed w' ≡ committed w
      → RolledBack committed working w' y
      → Ended r w (and_then (or_port_error y) (λ _. raise e))
  Ended-rollback r e w w' (ok u, w'') h c (d, v) = inr (h, d ∙ c)
  Ended-rollback r e w w' (err e', w'') h c (k, d) = inr (inl (rw k), d ∙ c)

  -- Around a body that follows a script, the unit of work is all or nothing.
  pub Ended-ok :
      {A : Type 0} (r : Result Error (A × T)) (a : A) (w w' : World)
      → Ran r w (ok a, w')
      → Ended r w ((aexit pg none >> pure a) w')
  Ended-ok r a w w' (h, c, n) = Ended-commit r a w w' (commit w') h c (pg.commit_law w')

  pub Ended-err :
      {A : Type 0} (r : Result Error (A × T)) (e : Error) (w w' : World)
      → Ran r w (err e, w')
      → Ended r w ((aexit pg (some e) >> raise e) w')
  Ended-err r e w w' (h, c) = Ended-rollback r e w w' (rollback w') h c (pg.rollback_law w')
