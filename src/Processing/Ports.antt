-- ===== src/Processing/Ports.antt =====
-- The driven ports of media_processing/app/interfaces.py, and their documented contracts as laws
-- over views of the world behind them.
use s1t_python_backend_templ.Base.{
  ℕ, ◌+◌, ◌≡◌, ◌⊎◌, Bool, true, false, List, [], ◌∷◌, ◌++◌, Result, ok, err, Exec, ◌==◌,
  if◌then◌else◌,
}
use s1t_python_backend_templ.Processing.Domain.{
  JobKind, transcode, plagiarism, stt, WorkerError, port_error, StatusEvent, processing_started,
  processed, processing_failed,
}

module _ (W : Type 0) where
  pub record IJobQueue : Type 0 where
    pub enqueue : ℕ → JobKind → Exec WorkerError W (Unit {0})

  pub record IJoinStore : Type 0 where
    pub add : ℕ → JobKind → Exec WorkerError W ℕ
    pub clear : ℕ → Exec WorkerError W (Unit {0})

  pub record IEventPublisher : Type 0 where
    pub publish_started : ℕ → Exec WorkerError W (Unit {0})
    pub publish_processed : ℕ → Exec WorkerError W (Unit {0})
    pub publish_failed : ℕ → Exec WorkerError W (Unit {0})

  pub record IInboxStore : Type 0 where
    pub seen : ℕ → Exec WorkerError W Bool
    pub mark_processed : ℕ → Exec WorkerError W (Unit {0})

-- The set of kinds that a join record holds.
pub record Kinds : Type 0 where
  pub transcoded : Bool
  pub checked : Bool
  pub transcribed : Bool

abbrev pub no_kinds : Kinds
no_kinds = record { transcoded = false; checked = false; transcribed = false }

abbrev pub with_kind : JobKind → Kinds → Kinds
with_kind transcode s = record s { transcoded = true }
with_kind plagiarism s = record s { checked = true }
with_kind stt s = record s { transcribed = true }

abbrev pub one : Bool → ℕ
one true = 1
one false = 0

abbrev pub size : Kinds → ℕ
size s = one s.transcoded + one s.checked + one s.transcribed

-- What a view of the world shows: the jobs submitted, the join records, the status events on the
-- stream, and the inbox marks.
pub record Shown : Type 0 where
  pub jobs : List (ℕ × JobKind)
  pub joins : ℕ → Kinds
  pub events : List StatusEvent
  pub marked : ℕ → Bool

abbrev pub set_join : ℕ → Kinds → Shown → Shown
set_join i s v = record v { joins = λ j. if j == i then s else v.joins j }

abbrev pub add_event : StatusEvent → Shown → Shown
add_event e v = record v { events = v.events ++ e ∷ [] }

abbrev pub add_job : ℕ → JobKind → Shown → Shown
add_job i k v = record v { jobs = v.jobs ++ (i, k) ∷ [] }

abbrev pub set_marked : ℕ → Shown → Shown
set_marked e v = record v { marked = λ f. if f == e then true else v.marked f }

-- A call did what it says and returned `a`; or it raised PortError, and the backend may have done
-- it before the failure or not.
abbrev pub Called :
    {W A : Type 0} → (W → Shown) → A → (Shown → Shown) → W → Result WorkerError A × W → Type 0
Called view a f w (ok b, w') = (b ≡ a) × (view w' ≡ f (view w))
Called view a f w (err e, w') = (e ≡ port_error) × ((view w' ≡ view w) ⊎ (view w' ≡ f (view w)))

abbrev pub unchanged : Shown → Shown
unchanged v = v

pub record Backends (W : Type 0) : Type 0 where
  pub queue : IJobQueue W
  pub store : IJoinStore W
  pub publisher : IEventPublisher W
  pub inbox : IInboxStore W
  pub view : W → Shown
  pub enqueue_law :
      (i : ℕ) (k : JobKind) (w : W) → Called view tt (add_job i k) w (queue.enqueue i k w)
  pub add_law :
      (i : ℕ) (k : JobKind) (w : W)
      → Called view
          (size (with_kind k ((view w).joins i)))
          (set_join i (with_kind k ((view w).joins i)))
          w
          (store.add i k w)
  pub clear_law : (i : ℕ) (w : W) → Called view tt (set_join i no_kinds) w (store.clear i w)
  pub started_law :
      (i : ℕ) (w : W)
      → Called view tt (add_event (processing_started i)) w (publisher.publish_started i w)
  pub processed_law :
      (i : ℕ) (w : W) → Called view tt (add_event (processed i)) w (publisher.publish_processed i w)
  pub failed_law :
      (i : ℕ) (w : W)
      → Called view tt (add_event (processing_failed i)) w (publisher.publish_failed i w)
  pub seen_law : (e : ℕ) (w : W) → Called view ((view w).marked e) unchanged w (inbox.seen e w)
  pub mark_law : (e : ℕ) (w : W) → Called view tt (set_marked e) w (inbox.mark_processed e w)
