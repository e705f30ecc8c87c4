-- ===== src/Processing/Adapters/Shown.antt =====
-- What the servers' contents (Processing/Adapters) show in the terms of the ports' contracts
-- (Processing/Ports): the submitted jobs, the join records, the events and the inbox marks.
use s1t_python_backend_templ.Base.{
  ℕ, ◌+◌, ◌≡◌, refl, ap, ◌∙◌, inl, inr, Bool, true, false, ◌||◌, String, Option, none, some, List,
  [], ◌∷◌, ◌++◌, length, any, length-append, Result, ok, err, ◌==◌, ◌is◌, if◌then◌else◌, Bool-cases,
  arith,
}
use mathlib.Core.Path.{fun_ext}
use s1t_python_backend_templ.Processing.Domain.{
  JobKind, transcode, plagiarism, stt, kind_value, WorkerError, port_error, StatusEvent,
  processing_started, processed, processing_failed,
}
use s1t_python_backend_templ.Processing.Ports.{Kinds, with_kind, size, Shown, set_join, Called}
use s1t_python_backend_templ.Processing.Adapters.{
  BackendError, join_key, inbox_key, same_key, VideoStatusIntegration, QueuedJob, Held, sadd,
  Commanded, IsRedis, one_if, from_redis, as_port_error,
}

-- The elements that a partial function is defined on, in order.
abbrev pub cons_if : {B : Type 0} → Option B → List B → List B
cons_if none ys = ys
cons_if (some y) ys = y ∷ ys

abbrev pub kept : {A B : Type 0} → (A → Option B) → List A → List B
kept f [] = []
kept f (x ∷ xs) = cons_if (f x) (kept f xs)

cons_if-append :
    {B : Type 0} (o : Option B) (xs ys : List B) → cons_if o (xs ++ ys) ≡ cons_if o xs ++ ys
cons_if-append none xs ys = refl
cons_if-append (some x) xs ys = refl

pub kept-append :
    {A B : Type 0} (f : A → Option B) (xs : List A) (x : A) (y : B)
    → f x ≡ some y
    → kept f (xs ++ x ∷ []) ≡ kept f xs ++ y ∷ []
kept-append f [] x y e = rw e refl
kept-append f (z ∷ xs) x y e =
    rw (kept-append f xs x y e) (cons_if-append (f z) (kept f xs) (y ∷ []))

or_true : (b : Bool) → (b || true) ≡ true
or_true true = refl
or_true false = refl

module _ {A : Type 0} (p : A → Bool) (x : A) where
  any-append_true : (xs : List A) → p x ≡ true → any p (xs ++ x ∷ []) ≡ true
  any-append_true [] e = rw e refl
  any-append_true (z ∷ xs) e = rw (any-append_true xs e) (or_true (p z))

  any-append_false : (xs : List A) → p x ≡ false → any p (xs ++ x ∷ []) ≡ any p xs
  any-append_false [] e = rw e refl
  any-append_false (z ∷ xs) e = rw (any-append_false xs e) refl

-- A set of kind values as the kinds it has.
abbrev pub kinds_in : List String → Kinds
kinds_in s = record {
  transcoded = any (λ x. x is "transcode") s;
  checked = any (λ x. x is "plagiarism") s;
  transcribed = any (λ x. x is "stt") s;
}

kinds_in-append :
    (k : JobKind) (s : List String) → kinds_in (s ++ kind_value k ∷ []) ≡ with_kind k (kinds_in s)
kinds_in-append transcode s =
    rw
      (
        any-append_true (λ x. x is "transcode") "transcode" s refl,
        any-append_false (λ x. x is "plagiarism") "transcode" s refl,
        any-append_false (λ x. x is "stt") "transcode" s refl,
      )
      refl
kinds_in-append plagiarism s =
    rw
      (
        any-append_false (λ x. x is "transcode") "plagiarism" s refl,
        any-append_true (λ x. x is "plagiarism") "plagiarism" s refl,
        any-append_false (λ x. x is "stt") "plagiarism" s refl,
      )
      refl
kinds_in-append stt s =
    rw
      (
        any-append_false (λ x. x is "transcode") "stt" s refl,
        any-append_false (λ x. x is "plagiarism") "stt" s refl,
        any-append_true (λ x. x is "stt") "stt" s refl,
      )
      refl

-- Whether a set has the value of a kind.
abbrev has : JobKind → Kinds → Bool
has transcode s = s.transcoded
has plagiarism s = s.checked
has stt s = s.transcribed

any-kinds_in : (k : JobKind) (s : List String) → any (λ x. x is kind_value k) s ≡ has k (kinds_in s)
any-kinds_in transcode s = refl
any-kinds_in plagiarism s = refl
any-kinds_in stt s = refl

with_kind-again : (k : JobKind) (s : Kinds) → has k s ≡ true → with_kind k s ≡ s
with_kind-again transcode s e = rw e refl
with_kind-again plagiarism s e = rw e refl
with_kind-again stt s e = rw e refl

size-with_kind : (k : JobKind) (s : Kinds) → has k s ≡ false → size (with_kind k s) ≡ size s + 1
size-with_kind transcode s e = rw e (omega arith)
size-with_kind plagiarism s e = rw e (omega arith)
size-with_kind stt s e = rw e (omega arith)

-- SADD of a kind's value adds the kind, and keeps a set of distinct kinds one.
pub sadd-Kinds :
    (k : JobKind) (s : List String)
    → length s ≡ size (kinds_in s)
    → (kinds_in (sadd (kind_value k) s) ≡ with_kind k (kinds_in s))
      × (length (sadd (kind_value k) s) ≡ size (with_kind k (kinds_in s)))
sadd-Kinds k s e = elim (Bool-cases (has k (kinds_in s))) [
  | inl h ↦ rw (any-kinds_in k s, h, with_kind-again k (kinds_in s) h) (refl, e)
  | inr h ↦
      rw (any-kinds_in k s, h)
        (
          kinds_in-append k s,
          (omega (arith, e, length-append s (kind_value k ∷ []), size-with_kind k (kinds_in s) h)),
        )
]

abbrev pub job_shown : QueuedJob → Option (ℕ × JobKind)
job_shown j =
    if j.function is "transcode"
    then some (j.video_id, transcode)
    else if j.function is "plagiarism"
    then some (j.video_id, plagiarism)
    else if j.function is "stt"
    then some (j.video_id, stt)
    else none

abbrev pub event_shown : VideoStatusIntegration → Option StatusEvent
event_shown e =
    if e.event_type is "video_processing_started"
    then some (processing_started e.video_id)
    else if e.event_type is "video_processed"
    then some (processed e.video_id)
    else if e.event_type is "video_processing_failed"
    then some (processing_failed e.video_id)
    else none

abbrev pub shown_in : Held → Shown
shown_in h = record {
  jobs = kept job_shown h.queued;
  joins = λ i. kinds_in (h.members (join_key i));
  events = kept event_shown h.stream;
  marked = λ e. h.exists (inbox_key e);
}

pub called :
    {W A : Type 0} (held : W → Held) (Raised : BackendError → Type 0) (a : A) (f : Held → Held)
    (w : W) (to_port : BackendError → WorkerError) (F : Shown → Shown)
    → ((e : BackendError) → Raised e → to_port e ≡ port_error)
    → shown_in (f (held w)) ≡ F (shown_in (held w))
    → (r : Result BackendError A × W) → Commanded held Raised a f w r
    → Called (λ v. shown_in (held v)) a F w (as_port_error to_port r)
called held Raised a f w to_port F raised sees (ok b, w') (p, q) = (p, ap shown_in q ∙ sees)
called held Raised a f w to_port F raised sees (err x, w') (p, inl q) =
    (raised x p, inl (ap shown_in q))
called held Raised a f w to_port F raised sees (err x, w') (p, inr q) =
    (raised x p, inr (ap shown_in q ∙ sees))

pub from_redis_lem : (e : BackendError) → IsRedis e → from_redis e ≡ port_error
from_redis_lem e h = rw h refl

kinds_in-if :
    (b : Bool) (s t : List String)
    → kinds_in (if b then s else t) ≡ (if b then kinds_in s else kinds_in t)
kinds_in-if true s t = refl
kinds_in-if false s t = refl

-- What a change of one join set shows.
pub joins_shown :
    (i : ℕ) (s : List String) (ks : Kinds) (h : Held)
    → kinds_in s ≡ ks
    → shown_in (record h { members = λ k. if same_key k (join_key i) then s else h.members k })
      ≡ set_join i ks (shown_in h)
joins_shown i s ks h e =
    ap (λ joins. record (shown_in h) { joins = joins })
      (fun_ext λ j.
        kinds_in-if (j == i) s (h.members (join_key j))
        ∙ ap (λ x. if j == i then x else kinds_in (h.members (join_key j))) e)

pub one_if_lem : (b : Bool) → (one_if b == 1) ≡ b
one_if_lem true = refl
one_if_lem false = refl
