-- ===== src/Shared/Outbox.antt =====
-- shared/adapters/driven/outbox_relay.py: publishing committed outbox rows to a stream. The tables
-- are one context's outbox_messages; Postgres and Valkey are parameters.
pub mod Drain
pub mod Sent
pub mod Backlog
use s1t_python_backend_templ.Base.{
  ℕ, ◌≡◌, ◌⊎◌, Bool, true, false, not, ◌&&◌, ◌||◌, String, List, [], ◌∷◌, ◌++◌, Option, none, some,
  map, length, any, take, ltb, ◌==◌, if◌then◌else◌, Result, ok, err, Exec, ◌>>=◌, ◌>>◌, pure, raise,
}
use s1t_python_backend_templ.Shared.Errors.{Error}
use s1t_python_backend_templ.Shared.Sql.{select_where, order_by, update_where}
use s1t_python_backend_templ.Shared.Postgres.{Postgres, Statement}
use s1t_python_backend_templ.Shared.Sessions.{begun}
use s1t_python_backend_templ.Media.Tables.{OutboxRow}

-- The fields of an entry of the stream.
pub record Entry (Payload : Type 0) : Type 0 where
  pub event_id : String
  pub event_type : String
  pub payload : Payload

-- XADD appends an entry. If it fails, the entry may be there nevertheless.
abbrev pub Appended :
    {World E : Type 0} → (World → List E) → E → World → Result Error (Unit {0}) × World → Type 0
Appended stream entry w (ok _, w') = stream w' ≡ stream w ++ entry ∷ []
Appended stream entry w (err e, w') = (stream w' ≡ stream w) ⊎ (stream w' ≡ stream w ++ entry ∷ [])

-- A Valkey stream beside the database: neither changes what the other holds.
pub record Stream {T : Type 0} (pg : Postgres T) (E : Type 0) : Type 1 where
  pub stream : pg.World → List E
  pub xadd : E → Exec Error pg.World (Unit {0})
  pub xadd_law : (e : E) (w : pg.World) → Appended stream e w (xadd e w)
  pub committed-xadd : (e : E) (w : pg.World) → pg.committed (xadd e w).1 ≡ pg.committed w
  pub working-xadd : (e : E) (w : pg.World) → pg.working (xadd e w).1 ≡ pg.working w
  pub now-xadd : (e : E) (w : pg.World) → pg.now (xadd e w).1 ≡ pg.now w
  pub stream-execute :
      {A : Type 0} (q : Statement T A) (w : pg.World) → stream (pg.execute q w).1 ≡ stream w
  pub stream-commit : (w : pg.World) → stream (pg.commit w).1 ≡ stream w
  pub stream-rollback : (w : pg.World) → stream (pg.rollback w).1 ≡ stream w

abbrev pub Outbox : Type 0 → Type 0
Outbox Payload = List (OutboxRow Payload)

module _ {Payload : Type 0} where
  abbrev pub is_unsent : OutboxRow Payload → Bool
  is_unsent r = elim r.sent_at [ none ↦ true | some t ↦ false ]

  abbrev pub older : OutboxRow Payload → OutboxRow Payload → Bool
  older r r' = ltb r.created_at r'.created_at

  -- Rows that another session has locked are skipped.
  abbrev pub claimed : (ℕ → Bool) → ℕ → Outbox Payload → Outbox Payload
  claimed locked batch rows =
      take batch (order_by older (select_where (λ r. is_unsent r && not (locked r.id)) rows))

  -- self._claim
  unfoldable pub claim_stmt : (ℕ → Bool) → ℕ → Statement (Outbox Payload) (Outbox Payload)
  claim_stmt locked batch now rows = ok (claimed locked batch rows, rows)

  abbrev pub has_id_in : Outbox Payload → OutboxRow Payload → Bool
  has_id_in ids r = any (λ (r' : OutboxRow Payload). r'.id == r.id) ids

  abbrev pub sent_at : ℕ → OutboxRow Payload → OutboxRow Payload
  sent_at now r = record r { sent_at = some now }

  abbrev pub marked : Outbox Payload → ℕ → Outbox Payload → Outbox Payload
  marked ids now rows = update_where (has_id_in ids) (sent_at now) rows

  -- self._mark, for the identifiers of some rows
  unfoldable pub mark_stmt : Outbox Payload → Statement (Outbox Payload) (Unit {0})
  mark_stmt ids now rows = ok (tt, marked ids now rows)

  module _ (uuid_text : ℕ → String) where
    abbrev pub entry : OutboxRow Payload → Entry Payload
    entry r = record { event_id = uuid_text r.id; event_type = r.event_type; payload = r.payload }

    module _ (pg : Postgres (Outbox Payload)) (valkey : Stream pg (Entry Payload)) where
      open pg use {World, execute}

      -- `for r in rows: await self._valkey.xadd(...)`
      unfoldable pub publish_all : Outbox Payload → Exec Error World (Unit {0})
      publish_all [] w = (ok tt, w)
      publish_all (r ∷ rows) w = (valkey.xadd (entry r) >> publish_all rows) w

      abbrev pub publish : Outbox Payload → Exec Error World ℕ
      publish [] = pure 0
      publish (r ∷ rows) = do
        publish_all (r ∷ rows)
        execute (mark_stmt (r ∷ rows))
        pure (length (r ∷ rows))

      -- The body of the transaction.
      unfoldable pub drain_body : (ℕ → Bool) → ℕ → Exec Error World ℕ
      unfolding publish_all mark_stmt claim_stmt
      drain_body locked batch = do rows ← execute (claim_stmt locked batch); publish rows

      -- _drain_once
      unfoldable pub drain_once : (ℕ → Bool) → ℕ → Exec Error World ℕ
      unfolding drain_body
      drain_once locked batch w = begun pg (drain_body locked batch w)

      abbrev pub or_none_published : Result Error ℕ × World → ℕ × World
      or_none_published (ok published, w) = (published, w)
      or_none_published (err e, w) = (0, w)

      -- One turn of run_forever's `while True`: what it published.
      unfoldable pub run_once : (ℕ → Bool) → ℕ → World → ℕ × World
      unfolding drain_once
      run_once locked batch w = or_none_published (drain_once locked batch w)
