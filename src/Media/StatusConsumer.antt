-- ===== src/Media/StatusConsumer.antt =====
-- media_example/adapters/driving/status_consumer.py: the reader of the video_status stream.
pub mod Drained
use s1t_python_backend_templ.Base.{
  ℕ, ◌+◌, ◌≤◌, ◌≡◌, refl, ◌∙◌, ap, ◌⊎◌, inl, inr, String, Bool, true, false, ◌||◌, List, [], ◌∷◌,
  ◌++◌, map, length, Option, none, some, Result, ok, err, Exec, and_then, ◌>>=◌, ◌>>◌, pure, raise,
  ◌is◌, arith, if◌then◌else◌,
}
use s1t_python_backend_templ.Shared.Errors.{Error, is_domain_error, is_app_error}

-- VideoStatusEventSchema, as far as the consumer reads it.
pub record VideoStatusEventSchema : Type 0 where
  pub event_type : String
  pub video_id : ℕ

-- An entry: its id, and what msgspec makes of its payload (none if that is malformed or missing).
abbrev pub Entry : Type 0
Entry = String × Option VideoStatusEventSchema

-- The three calls of the facade.
pub record StatusFacade (W : Type 0) : Type 0 where
  pub mark_processing : ℕ → Exec Error W (Unit {0})
  pub mark_done : ℕ → Exec Error W (Unit {0})
  pub mark_failed : ℕ → Exec Error W (Unit {0})

-- The stream's side of Valkey: one cycle of XAUTOCLAIM (none for NOGROUP) and XREADGROUP.
pub record StatusStream (W : Type 0) : Type 0 where
  pub ensure_group : Exec Error W (Unit {0})
  pub xautoclaim : ℕ → Exec Error W (Option (List Entry))
  pub xreadgroup : ℕ → Exec Error W (List Entry)
  pub xack : String → Exec Error W (Unit {0})

module _ {W : Type 0} (facade : StatusFacade W) where
  -- `except (DomainError, AppError)`: acked; PortError and anything else propagates.
  abbrev pub ack_if_inapplicable : Result Error (Unit {0}) × W → Result Error Bool × W
  ack_if_inapplicable (ok u, w) = (ok true, w)
  ack_if_inapplicable (err e, w) =
      if is_domain_error e || is_app_error e then (ok true, w) else (err e, w)

  -- The call for an event type, if it is a known one.
  abbrev pub call_for : VideoStatusEventSchema → Option (Exec Error W (Unit {0}))
  call_for event =
      if event.event_type is "video_processing_started"
      then some (facade.mark_processing event.video_id)
      else if event.event_type is "video_processed"
      then some (facade.mark_done event.video_id)
      else if event.event_type is "video_processing_failed"
      then some (facade.mark_failed event.video_id)
      else none

  abbrev pub apply_call : Option (Exec Error W (Unit {0})) → Exec Error W Bool
  apply_call none w = (ok true, w)
  apply_call (some call) w = ack_if_inapplicable (call w)

  abbrev pub handle_event : Option VideoStatusEventSchema → Exec Error W Bool
  handle_event none w = (ok true, w)
  handle_event (some event) w = apply_call (call_for event) w

  -- VideoStatusConsumer._handle
  unfoldable pub handle : Option VideoStatusEventSchema → Exec Error W Bool
  handle event = handle_event event

  module _ (stream : StatusStream W) where
    abbrev pub ack_if : Bool → String → Exec Error W ℕ
    ack_if false id = pure 0
    ack_if true id = stream.xack id >> pure 1

    -- VideoStatusConsumer._apply_entries, for the entries of all streams.
    unfoldable pub apply_entries : List Entry → Exec Error W ℕ
    unfolding handle
    apply_entries [] = pure 0
    apply_entries ((id, event) ∷ entries) = do
      done ← handle event
      n ← ack_if done id
      rest ← apply_entries entries
      pure (n + rest)

    abbrev pub apply_claimed : Option (List Entry) → Exec Error W ℕ
    apply_claimed none = stream.ensure_group >> pure 0
    apply_claimed (some entries) = apply_entries entries

    -- VideoStatusConsumer._claim_stale
    unfoldable pub claim_stale : ℕ → Exec Error W ℕ
    unfolding apply_entries
    claim_stale batch = do claimed ← stream.xautoclaim batch; apply_claimed claimed

    -- VideoStatusConsumer.drain_once
    unfoldable pub drain_once : ℕ → Exec Error W ℕ
    unfolding claim_stale
    drain_once batch = do
      handled ← claim_stale batch
      entries ← stream.xreadgroup batch
      more ← apply_entries entries
      pure (handled + more)
