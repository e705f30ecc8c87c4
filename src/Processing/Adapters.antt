-- ===== src/Processing/Adapters.antt =====
-- media_processing/ports/driven: the adapters on Valkey and SAQ (valkey_join_store.py,
-- valkey_inbox_store.py, valkey_event_publisher.py, saq_job_queue.py). The two servers are
-- parameters, with the documented effect of each command as a law.
pub mod Shown
pub mod Refinement
use s1t_python_backend_templ.Base.{
  ℕ, ◌≡◌, ◌⊎◌, Bool, true, false, ◌||◌, String, List, [], ◌∷◌, ◌++◌, Option, none, some, length,
  any, Result, ok, err, Exec, and_then, ◌==◌, ◌is◌, if◌then◌else◌, pure,
}
use s1t_python_backend_templ.Processing.Domain.{JobKind, kind_value, WorkerError, port_error, other}
use s1t_python_backend_templ.Processing.Ports.{IJobQueue, IJoinStore, IEventPublisher, IInboxStore}

-- What a client library raises.
pub data BackendError : Type 0 where
  redis_error other_error : BackendError

-- f"join:{video_id}" and f"inbox:{event_id}"
pub data Key : Type 0 where
  join_key inbox_key : ℕ → Key

abbrev pub same_key : Key → Key → Bool
same_key (join_key i) (join_key j) = i == j
same_key (inbox_key i) (inbox_key j) = i == j
same_key _ _ = false

pub record VideoStatusIntegration : Type 0 where
  pub event_id : ℕ
  pub event_type : String
  pub video_id : ℕ
  pub occurred_at : ℕ
  pub version : ℕ

-- A job on the SAQ queue.
pub record QueuedJob : Type 0 where
  pub function : String
  pub video_id : ℕ
  pub retries : ℕ
  pub timeout : ℕ

-- What the servers hold: sets, plain keys, the stream video_status, and the queue.
pub record Held : Type 0 where
  pub members : Key → List String
  pub exists : Key → Bool
  pub stream : List VideoStatusIntegration
  pub queued : List QueuedJob

abbrev pub sadd : String → List String → List String
sadd m s = if any (λ x. x is m) s then s else s ++ m ∷ []

abbrev pub with_member : Key → String → Held → Held
with_member key m h = record h {
  members = λ k. if same_key k key then sadd m (h.members key) else h.members k;
}

abbrev pub deleted : Key → Held → Held
deleted key h = record h {
  members = λ k. if same_key k key then [] else h.members k;
  exists = λ k. if same_key k key then false else h.exists k;
}

-- SET ... NX
abbrev pub set_nx : Key → Held → Held
set_nx key h = record h { exists = λ k. if same_key k key then true else h.exists k }

abbrev pub with_entry : VideoStatusIntegration → Held → Held
with_entry e h = record h { stream = h.stream ++ e ∷ [] }

abbrev pub with_job : QueuedJob → Held → Held
with_job j h = record h { queued = h.queued ++ j ∷ [] }

-- A command did what it says and returned `a`, or it raised, done or not.
abbrev pub Commanded :
    {W A : Type 0}
    → (W → Held)
    → (BackendError → Type 0)
    → A
    → (Held → Held)
    → W
    → Result BackendError A × W
    → Type 0
Commanded held Raised a f w (ok b, w') = (b ≡ a) × (held w' ≡ f (held w))
Commanded held Raised a f w (err e, w') = Raised e × ((held w' ≡ held w) ⊎ (held w' ≡ f (held w)))

abbrev pub IsRedis : BackendError → Type 0
IsRedis e = e ≡ redis_error

abbrev pub AnyError : BackendError → Type 0
AnyError e = Unit {0}

abbrev pub one_if : Bool → ℕ
one_if true = 1
one_if false = 0

-- The laws are those of the commands that the adapters send. No key expires while a run goes on: the times to live are passed, and have no effect here.
pub record Servers (W : Type 0) : Type 0 where
  pub held : W → Held
  -- MULTI; SADD; EXPIRE; SCARD; EXEC: the last result
  pub add_and_count : Key → String → ℕ → Exec BackendError W ℕ
  pub delete : Key → Exec BackendError W (Unit {0})
  pub exists : Key → Exec BackendError W ℕ
  pub set_ex_nx : Key → ℕ → Exec BackendError W (Unit {0})
  pub xadd : VideoStatusIntegration → Exec BackendError W (Unit {0})
  pub enqueue : QueuedJob → Exec BackendError W (Unit {0})
  pub add_law :
      (i : ℕ) (kind : JobKind) (ttl : ℕ) (w : W)
      → let k = join_key i in
        let m = kind_value kind in
        Commanded held IsRedis
          (length (sadd m ((held w).members k)))
          (with_member k m)
          w
          (add_and_count k m ttl w)
  pub delete_law : (k : Key) (w : W) → Commanded held IsRedis tt (deleted k) w (delete k w)
  pub exists_law :
      (k : Key) (w : W)
      → Commanded held IsRedis (one_if ((held w).exists k)) (λ h. h) w (exists k w)
  pub set_law :
      (k : Key) (ttl : ℕ) (w : W) → Commanded held IsRedis tt (set_nx k) w (set_ex_nx k ttl w)
  pub xadd_law :
      (e : VideoStatusIntegration) (w : W) → Commanded held IsRedis tt (with_entry e) w (xadd e w)
  pub enqueue_law :
      (j : QueuedJob) (w : W) → Commanded held AnyError tt (with_job j) w (enqueue j w)

-- `except RedisError` and `except Exception`, each with `raise PortError`
abbrev pub from_redis : BackendError → WorkerError
from_redis redis_error = port_error
from_redis other_error = other

abbrev pub as_port_error :
    {W A : Type 0}
    → (BackendError → WorkerError)
    → Result BackendError A × W
    → Result WorkerError A × W
as_port_error f (ok a, w) = (ok a, w)
as_port_error f (err e, w) = (err (f e), w)

-- What `uuid4()` and the clock give to an event: in each world, their own.
pub record Draws : Type 0 where
  pub event_id : ℕ
  pub occurred_at : ℕ

module _ {W : Type 0} (servers : Servers W) (ttl_seconds : ℕ) where
  -- ValkeyJoinStore
  unfoldable pub add : ℕ → JobKind → Exec WorkerError W ℕ
  add video_id kind w =
      as_port_error from_redis
        (servers.add_and_count (join_key video_id) (kind_value kind) ttl_seconds w)

  unfoldable pub clear : ℕ → Exec WorkerError W (Unit {0})
  clear video_id w = as_port_error from_redis (servers.delete (join_key video_id) w)

  abbrev pub valkey_join_store : IJoinStore W
  valkey_join_store = record { add = add; clear = clear }

  -- ValkeyInboxStore
  unfoldable pub seen : ℕ → Exec WorkerError W Bool
  seen event_id w =
      and_then (as_port_error from_redis (servers.exists (inbox_key event_id) w))
        (λ n. pure (n == 1))

  unfoldable pub mark_processed : ℕ → Exec WorkerError W (Unit {0})
  mark_processed event_id w =
      as_port_error from_redis (servers.set_ex_nx (inbox_key event_id) ttl_seconds w)

  abbrev pub valkey_inbox_store : IInboxStore W
  valkey_inbox_store = record { seen = seen; mark_processed = mark_processed }

module _ {W : Type 0} (servers : Servers W) (draws : W → Draws) where
  -- ValkeyEventPublisher
  unfoldable pub publish : ℕ → String → Exec WorkerError W (Unit {0})
  publish video_id event_type w =
      let event : VideoStatusIntegration = record {
        event_id = (draws w).event_id;
        event_type = event_type;
        video_id = video_id;
        occurred_at = (draws w).occurred_at;
        version = 1;
      } in
      as_port_error from_redis (servers.xadd event w)

  abbrev pub valkey_event_publisher : IEventPublisher W
  valkey_event_publisher = record {
    publish_started = λ i. publish i "video_processing_started";
    publish_processed = λ i. publish i "video_processed";
    publish_failed = λ i. publish i "video_processing_failed";
  }

module _ {W : Type 0} (servers : Servers W) (retries timeout : ℕ) where
  -- SaqJobQueue
  unfoldable pub enqueue : ℕ → JobKind → Exec WorkerError W (Unit {0})
  enqueue video_id kind w =
      as_port_error (λ e. port_error)
        (servers.enqueue
          (record {
            function = kind_value kind;
            video_id = video_id;
            retries = retries;
            timeout = timeout;
          })
          w)

  abbrev pub saq_job_queue : IJobQueue W
  saq_job_queue = record { enqueue = enqueue }
