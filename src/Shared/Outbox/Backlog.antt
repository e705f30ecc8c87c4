-- ===== src/Shared/Outbox/Backlog.antt =====
-- The backlog of the outbox shrinks: drains that succeed send every row.
use s1t_python_backend_templ.Base.{
  subst, ℕ, suc, ◌≤◌, ◌<◌, ◌≡◌, refl, ◌⊎◌, inl, inr, Bool, true, false, not, ◌&&◌, ◌||◌, Bool-cases,
  String, [], ◌∷◌, any, take, keep, ==_refl, arith, if◌then◌else◌, Result, ok, err,
}
use s1t_python_backend_templ.Shared.Errors.{Error}
use s1t_python_backend_templ.Shared.Sql.{place, order_by}
use s1t_python_backend_templ.Shared.Members.{In, In-take, In-order_by}
use s1t_python_backend_templ.Shared.Postgres.{Postgres}
use s1t_python_backend_templ.Media.Tables.{OutboxRow}
use s1t_python_backend_templ.Shared.Outbox.{
  Entry, Stream, Outbox, is_unsent, older, claimed, has_id_in, marked, drain_once,
}
use s1t_python_backend_templ.Shared.Outbox.Drain.{DrainEnded, drain_once-DrainEnded}

-- No other session holds a row.
abbrev pub unlocked : ℕ → Bool
unlocked i = false

or-true : (a b : Bool) → b ≡ true → (a || b) ≡ true
or-true true b h = refl
or-true false b h = h

module _ {Payload : Type 0} where
  -- How many rows are not sent.
  abbrev pub backlog : Outbox Payload → ℕ
  backlog [] = 0
  backlog (r ∷ rows) = let rest = backlog rows in if is_unsent r then suc rest else rest

  abbrev open_row : OutboxRow Payload → Bool
  open_row r = is_unsent r && not (unlocked r.id)

  -- A row that is open and has an identifier of some rows.
  abbrev due : Outbox Payload → OutboxRow Payload → Bool
  due ids r = is_unsent r && has_id_in ids r

  marked_le :
      (ids : Outbox Payload) (now : ℕ) (rows : Outbox Payload)
      → backlog (marked ids now rows) ≤ backlog rows
  marked_le ids now [] = omega arith
  marked_le ids now (r ∷ rows) = ground (arith, marked_le ids now rows)

  marked_lt :
      (ids : Outbox Payload) (now : ℕ) (rows : Outbox Payload)
      → any (due ids) rows ≡ true
      → backlog (marked ids now rows) < backlog rows
  marked_lt ids now [] h = absurd (cc)
  marked_lt ids now (r ∷ rows) h = ground (arith, marked_le ids now rows, marked_lt ids now rows)

  -- An open row of the table that is among some rows is due.
  due_head :
      (x : OutboxRow Payload) (ids : Outbox Payload) (r : OutboxRow Payload) (rows : Outbox Payload)
      → has_id_in ids x ≡ true
      → is_unsent r ≡ true
      → (In x (keep open_row rows) → any (due ids) rows ≡ true)
      → In x (r ∷ keep open_row rows)
      → any (due ids) (r ∷ rows) ≡ true
  due_head x ids r rows h unsent ih (inl e) =
      let there : has_id_in ids r ≡ true =
        subst (λ (y : OutboxRow Payload). has_id_in ids y ≡ true) e h in
      rw (unsent, there) refl
  due_head x ids r rows h unsent ih (inr m) = or-true (due ids r) (any (due ids) rows) (ih m)

  due-In :
      (x : OutboxRow Payload) (ids rows : Outbox Payload)
      → has_id_in ids x ≡ true
      → In x (keep open_row rows)
      → any (due ids) rows ≡ true
  due-In x ids [] h m = absurd m
  due-In x ids (r ∷ rows) h m = elim (Bool-cases (is_unsent r)) [
    | inl unsent ↦ due_head x ids r rows h unsent (due-In x ids rows h) (rw unsent at m)
    | inr sent ↦ rw sent (due-In x ids rows h (rw sent at m))
  ]

  first_id : (x : OutboxRow Payload) (ids : Outbox Payload) → has_id_in (x ∷ ids) x ≡ true
  first_id x ids = rw (==_refl x.id) refl

  place-ne-nil : (x : OutboxRow Payload) (rows : Outbox Payload) → place older x rows ≡ [] → ⊥
  place-ne-nil x [] h = cc
  place-ne-nil x (r ∷ rows) h = ground arith

  order_by-nil : (rows : Outbox Payload) → order_by older rows ≡ [] → rows ≡ []
  order_by-nil [] h = refl
  order_by-nil (r ∷ rows) h = absurd (place-ne-nil r (order_by older rows) h)

  take-nil : (n : ℕ) (rows : Outbox Payload) → take (suc n) rows ≡ [] → rows ≡ []
  take-nil n [] h = refl
  take-nil n (r ∷ rows) h = absurd (cc)

  keep-nil : (rows : Outbox Payload) → keep open_row rows ≡ [] → backlog rows ≡ 0
  keep-nil [] h = refl
  keep-nil (r ∷ rows) h = ground (arith, keep-nil rows)

  -- A drain without a claim leaves no backlog; any other makes it smaller.
  progress :
      (n now : ℕ) (rows ids : Outbox Payload)
      → claimed unlocked (suc n) rows ≡ ids
      → (backlog rows ≡ 0) ⊎ (backlog (marked ids now rows) < backlog rows)
  progress n now rows [] h = inl (
      keep-nil rows
        (order_by-nil (keep open_row rows) (take-nil n (order_by older (keep open_row rows)) h)))
  progress n now rows (x ∷ ids) h =
      let found : In x (claimed unlocked (suc n) rows) = rw h (inl refl) in
      let kept : In x (keep open_row rows) =
        In-order_by x older (keep open_row rows)
          (In-take x (suc n) (order_by older (keep open_row rows)) found) in
      inr (marked_lt (x ∷ ids) now rows (due-In x (x ∷ ids) rows (first_id x ids) kept))

  module _ (uuid_text : ℕ → String) (pg : Postgres (Outbox Payload))
      (valkey : Stream pg (Entry Payload)) where
    open pg use {World, committed, working, now}

    -- Drains that succeed, each in a new session that sees what was committed.
    pub data Turns (batch : ℕ) : ℕ → World → World → Type 0 where
      done : {w : World} → Turns batch 0 w w
      turn :
          {k : ℕ} {w w' : World} (w0 : World) (n : ℕ)
          → committed w0 ≡ committed w
          → working w0 ≡ committed w0
          → (drain_once uuid_text pg valkey unlocked batch w0).0 ≡ ok n
          → Turns batch k (drain_once uuid_text pg valkey unlocked batch w0).1 w'
          → Turns batch (suc k) w w'

    shrinks :
        (m : ℕ) (w : World) (n : ℕ) (x : Result Error ℕ × World)
        → x.0 ≡ ok n
        → DrainEnded uuid_text pg valkey (claimed unlocked (suc m) (committed w)) w x
        → (backlog (committed x.1) ≡ 0) ⊎ (backlog (committed x.1) < backlog (committed w))
    shrinks m w n (ok k, w') e (c, s, d) =
        let rows = committed w in
        let ids = claimed unlocked (suc m) rows in
        rw d (elim (progress m (now w) rows ids refl) [
          | inl nothing ↦ inl (omega (arith, marked_le ids (now w) rows))
          | inr fewer ↦ inr fewer
        ])
    shrinks m w n (err e', w') e h = absurd (cc)

    -- After as many successful drains as there are unsent rows, of any batch size above zero, every
    -- row is sent.
    pub Turns-backlog :
        {m k : ℕ} {w w' : World}
        → Turns (suc m) k w w'
        → backlog (committed w) ≤ k
        → backlog (committed w') ≡ 0
    Turns-backlog done h = omega arith
    Turns-backlog {m = m} {k = suc k} {w = w} (turn w0 n same fresh e rest) h =
        let w1 = (drain_once uuid_text pg valkey unlocked (suc m) w0).1 in
        let shrunk =
          shrinks m w0 n (drain_once uuid_text pg valkey unlocked (suc m) w0) e
            (drain_once-DrainEnded uuid_text pg valkey unlocked (suc m) w0 fresh) in
        let before : backlog (committed w0) ≤ suc k = rw same h in
        let left : backlog (committed w1) ≤ k = elim shrunk [
          | inl z ↦ omega arith
          | inr f ↦ omega arith
        ] in
        Turns-backlog rest left
