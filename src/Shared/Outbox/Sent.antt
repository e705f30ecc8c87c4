-- ===== src/Shared/Outbox/Sent.antt =====
-- What the rows that are marked sent say of the stream.
use s1t_python_backend_templ.Base.{
  ℕ, ◌≡◌, refl, ap, sym, ◌∙◌, ◌⊎◌, inl, inr, Bool, true, false, not, ◌&&◌, Bool-cases, String, List,
  [], ◌∷◌, ◌++◌, map, any, ◌==◌, ==_iff, arith, if◌then◌else◌, Result, ok, err,
}
use s1t_python_backend_templ.Shared.Errors.{Error}
use s1t_python_backend_templ.Shared.Sql.{order_by, select_where}
use s1t_python_backend_templ.Shared.Postgres.{Postgres}
use s1t_python_backend_templ.Shared.Members.{
  In, In-map, In-append, In-append_right, In-take, In-order_by, In-keep,
}
use s1t_python_backend_templ.Media.Tables.{OutboxRow}
use s1t_python_backend_templ.Shared.Outbox.{
  Entry, Stream, Outbox, is_unsent, older, claimed, has_id_in, sent_at, marked, entry, drain_once,
}
use s1t_python_backend_templ.Shared.Outbox.Drain.{DrainEnded, drain_once-DrainEnded}

-- The primary key: no identifier stands twice.
abbrev pub IdsDiffer : {Payload : Type 0} → Outbox Payload → Type 0
IdsDiffer [] = Unit {0}
IdsDiffer (r ∷ rows) = (any (λ r'. r'.id == r.id) rows ≡ false) × IdsDiffer rows

-- The row is not sent yet, or its entry is in the stream.
abbrev pub IsCovered :
    {Payload : Type 0} → (ℕ → String) → List (Entry Payload) → Outbox Payload → Type 0
IsCovered uuid_text published [] = Unit {0}
IsCovered uuid_text published (r ∷ rows) =
    ((is_unsent r ≡ true) ⊎ In (entry uuid_text r) published) × IsCovered uuid_text published rows

clash : (a b : ℕ) → a ≡ b → (a == b) ≡ false → ⊥
clash a b e h = ground arith

head_differs :
    {Payload : Type 0} (now : ℕ) (ids : Outbox Payload) (r : OutboxRow Payload) (b : Bool)
    (rows : Outbox Payload)
    → any (λ (r' : OutboxRow Payload). r'.id == r.id) (marked ids now rows) ≡ false
    → any
        (λ (r' : OutboxRow Payload). r'.id == (if b then sent_at now r else r).id)
        (marked ids now rows)
      ≡ false
head_differs now ids r true rows h = h
head_differs now ids r false rows h = h

module _ {Payload : Type 0} (uuid_text : ℕ → String) where
  -- More entries cover what was covered.
  IsCovered-append :
      (published more : List (Entry Payload)) (rows : Outbox Payload)
      → IsCovered uuid_text published rows
      → IsCovered uuid_text (published ++ more) rows
  IsCovered-append published more [] h = tt
  IsCovered-append published more (r ∷ rows) (inl e, h) =
      (inl e, IsCovered-append published more rows h)
  IsCovered-append published more (r ∷ rows) (inr e, h) =
      (inr (In-append (entry uuid_text r) published more e), IsCovered-append published more rows h)

  -- Two rows of one identifier are one row.
  not_other :
      (r r' : OutboxRow Payload) (rows : Outbox Payload)
      → any (λ r'. r'.id == r.id) rows ≡ false
      → In r' rows
      → (r'.id == r.id) ≡ false
  not_other r r' [] h m = absurd m
  not_other r r' (x ∷ rows) h (inl e) = rw e (ground arith)
  not_other r r' (x ∷ rows) h (inr m) = not_other r r' rows (ground arith) m

  one_row :
      (r r' : OutboxRow Payload) (rows : Outbox Payload)
      → IdsDiffer rows
      → In r rows
      → In r' rows
      → r'.id ≡ r.id
      → r ≡ r'
  one_row r r' [] u m m' same = absurd m
  one_row r r' (x ∷ rows) u (inl e) (inl e') same = e ∙ sym e'
  one_row r r' (x ∷ rows) u (inl e) (inr m') same = absurd (
      clash (r'.id) (x.id) (same ∙ ap (λ (y : OutboxRow Payload). y.id) e)
        (not_other x r' rows u.0 m'))
  one_row r r' (x ∷ rows) u (inr m) (inl e') same = absurd (
      clash (r.id) (x.id) (sym same ∙ ap (λ (y : OutboxRow Payload). y.id) e')
        (not_other x r rows u.0 m))
  one_row r r' (x ∷ rows) u (inr m) (inr m') same = one_row r r' rows u.1 m m' same

  -- The row of a table that has an identifier of some of its rows is one of these.
  claimed_row :
      (r : OutboxRow Payload) (ids rows : Outbox Payload)
      → ((r' : OutboxRow Payload) → In r' ids → In r' rows)
      → IdsDiffer rows
      → In r rows
      → has_id_in ids r ≡ true
      → In r ids
  claimed_row r [] rows sub u m h = absurd (cc)
  claimed_row r (x ∷ ids) rows sub u m h = elim (Bool-cases (x.id == r.id)) [
    | inl same ↦ inl (one_row r x rows u m (sub x (inl refl)) ((==_iff x.id r.id).0 same))
    | inr other ↦ inr (claimed_row r ids rows (λ r' k. sub r' (inr k)) u m (rw other at h))
  ]

  module _ (published : List (Entry Payload)) (ids all : Outbox Payload) (now : ℕ)
      (sub : (r : OutboxRow Payload) → In r ids → In r all) (u : IdsDiffer all)
      (sent : (r : OutboxRow Payload) → In r ids → In (entry uuid_text r) published) where
    row_covered :
        (r : OutboxRow Payload) (b : Bool)
        → has_id_in ids r ≡ b
        → In r all
        → (is_unsent r ≡ true) ⊎ In (entry uuid_text r) published
        → (is_unsent (if b then sent_at now r else r) ≡ true)
          ⊎ In (entry uuid_text (if b then sent_at now r else r)) published
    row_covered r true h m c = inr (sent r (claimed_row r ids all sub u m h))
    row_covered r false h m c = c

    IsCovered-marked :
        (rows : Outbox Payload)
        → ((r : OutboxRow Payload) → In r rows → In r all)
        → IsCovered uuid_text published rows
        → IsCovered uuid_text published (marked ids now rows)
    IsCovered-marked [] within c = tt
    IsCovered-marked (r ∷ rows) within c = (
      row_covered r (has_id_in ids r) refl (within r (inl refl)) c.0,
      IsCovered-marked rows (λ r' m. within r' (inr m)) c.1,
    )

  marked-id :
      (i now : ℕ) (ids rows : Outbox Payload)
      → any (λ (r : OutboxRow Payload). r.id == i) rows ≡ false
      → any (λ (r : OutboxRow Payload). r.id == i) (marked ids now rows) ≡ false
  marked-id i now ids [] h = refl
  marked-id i now ids (r ∷ rows) h = ground (arith, marked-id i now ids rows)

  pub marked-IdsDiffer :
      (now : ℕ) (ids rows : Outbox Payload) → IdsDiffer rows → IdsDiffer (marked ids now rows)
  marked-IdsDiffer now ids [] u = tt
  marked-IdsDiffer now ids (r ∷ rows) u = (
    head_differs now ids r (has_id_in ids r) rows (marked-id r.id now ids rows u.0),
    marked-IdsDiffer now ids rows u.1,
  )

  claimed-In :
      (locked : ℕ → Bool) (batch : ℕ) (rows : Outbox Payload) (r : OutboxRow Payload)
      → In r (claimed locked batch rows)
      → In r rows
  claimed-In locked batch rows r h =
      let found = select_where (λ (r : OutboxRow Payload). is_unsent r && not (locked r.id)) rows in
      In-keep r (λ (r : OutboxRow Payload). is_unsent r && not (locked r.id)) rows
        (In-order_by r older found (In-take r batch (order_by older found) h))

  -- The outbox and the stream: identifiers differ, and what is marked sent was published.
  abbrev pub IsHonest : List (Entry Payload) → Outbox Payload → Type 0
  IsHonest published rows = IdsDiffer rows × IsCovered uuid_text published rows

  IsHonest-marked :
      (locked : ℕ → Bool) (batch now : ℕ) (rows : Outbox Payload) (published : List (Entry Payload))
      → IsHonest published rows
      → IsHonest
          (published ++ map (entry uuid_text) (claimed locked batch rows))
          (marked (claimed locked batch rows) now rows)
  IsHonest-marked locked batch now rows published (u, c) =
      let ids = claimed locked batch rows in
      let more = map (entry uuid_text) ids in
      (
        marked-IdsDiffer now ids rows u,
        IsCovered-marked (published ++ more) ids rows now (claimed-In locked batch rows) u
            (λ r m.
              In-append_right (entry uuid_text r) published more (In-map (entry uuid_text) r ids m))
            rows (λ r m. m) (IsCovered-append published more rows c),
      )

  module _ (pg : Postgres (Outbox Payload)) (valkey : Stream pg (Entry Payload)) where
    open pg use {World, committed, working, now}
    open valkey use {stream}

    ended-IsHonest :
        (locked : ℕ → Bool) (batch : ℕ) (w : World) (x : Result Error ℕ × World)
        → IsHonest (stream w) (committed w)
        → DrainEnded uuid_text pg valkey (claimed locked batch (committed w)) w x
        → IsHonest (stream x.1) (committed x.1)
    ended-IsHonest locked batch w (ok n, w') h (k, s, c) =
        rw (s, c) (IsHonest-marked locked batch (now w) (committed w) (stream w) h)
    ended-IsHonest locked batch w (err e, w') h (more, s, inl c) =
        rw (s, c) (h.0, IsCovered-append (stream w) more (committed w) h.1)
    ended-IsHonest locked batch w (err e, w') h (more, s, inr (m, c)) =
        rw (s, m, c) (IsHonest-marked locked batch (now w) (committed w) (stream w) h)

    -- However a drain ends, no row is marked sent whose message is not in the stream.
    pub drain_once-IsHonest :
        (locked : ℕ → Bool) (batch : ℕ) (w : World)
        → working w ≡ committed w
        → IsHonest (stream w) (committed w)
        → IsHonest
            (stream (drain_once uuid_text pg valkey locked batch w).1)
            (committed (drain_once uuid_text pg valkey locked batch w).1)
    drain_once-IsHonest locked batch w fresh h =
        ended-IsHonest locked batch w (drain_once uuid_text pg valkey locked batch w) h
          (drain_once-DrainEnded uuid_text pg valkey locked batch w fresh)
