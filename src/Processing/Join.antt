-- ===== src/Processing/Join.antt =====
-- The join of the three jobs: when `video_processed` is published.
pub mod Runs
use s1t_python_backend_templ.Base.{
  ℕ, suc, ◌+◌, ◌*◌, ◌≤◌, ◌<◌, ◌≡◌, ◌≢◌, refl, ◌∙◌, ap, sym, subst, ◌⊎◌, inl, inr, Bool, true, false,
  ◌&&◌, ◌||◌, List, [], ◌∷◌, ◌++◌, Result, ok, err, Exec, and_then, ◌==◌, leb, arith, Bool-cases,
  if◌then◌else◌,
}
use s1t_python_backend_templ.Processing.Domain.{
  JobKind, transcode, plagiarism, stt, job_kinds, WorkerError, port_error, StatusEvent,
  processing_started, processed, processing_failed, is_complete,
}
use s1t_python_backend_templ.Processing.Ports.{
  Kinds, no_kinds, with_kind, one, size, Shown, set_join, add_event, Called, Backends,
}
use s1t_python_backend_templ.Processing.UseCases.{complete_job_uc, finish_join}
use s1t_python_backend_templ.Processing.Entrypoints.{complete_job}

-- What one completed job does to what the world shows: the join counts distinct kinds, and the
-- third publishes and clears it.
abbrev pub completed : ℕ → JobKind → Shown → Shown
completed i k v =
    let s = with_kind k (v.joins i) in
    if leb 3 (size s)
    then set_join i no_kinds (add_event (processed i) (set_join i s v))
    else set_join i s v

abbrev pub completed_all : List (ℕ × JobKind) → Shown → Shown
completed_all [] v = v
completed_all ((i, k) ∷ calls) v = completed_all calls (completed i k v)

-- How often `video_processed` was published for a video.
abbrev pub times_processed : ℕ → List StatusEvent → ℕ
times_processed i [] = 0
times_processed i (processed j ∷ es) = let n = times_processed i es in if j == i then suc n else n
times_processed i (processing_started j ∷ es) = times_processed i es
times_processed i (processing_failed j ∷ es) = times_processed i es

abbrev pub has : JobKind → Kinds → Bool
has transcode s = s.transcoded
has plagiarism s = s.checked
has stt s = s.transcribed

abbrev pub same_kind : JobKind → JobKind → Bool
same_kind transcode transcode = true
same_kind plagiarism plagiarism = true
same_kind stt stt = true
same_kind _ _ = false

-- A job of this kind was completed for this video among the calls.
abbrev pub occurs : JobKind → ℕ → List (ℕ × JobKind) → Bool
occurs k i [] = false
occurs k i ((j, k') ∷ calls) = (j == i && same_kind k k') || occurs k i calls

times_processed-append :
    (i : ℕ) (es : List StatusEvent) (j : ℕ)
    → times_processed i (es ++ processed j ∷ []) ≡ times_processed i es + (if j == i then 1 else 0)
times_processed-append i [] j = ground arith
times_processed-append i (processed j' ∷ es) j = ground (arith, times_processed-append i es j)
times_processed-append i (processing_started j' ∷ es) j = times_processed-append i es j
times_processed-append i (processing_failed j' ∷ es) j = times_processed-append i es j

module _ (i : ℕ) where
  abbrev pub count : Shown → ℕ
  count v = times_processed i v.events

  -- One call, seen from one video whose join is open.
  abbrev Advanced : JobKind → Bool → Shown → Shown → Type 0
  Advanced k mine v v' =
      (((count v' ≡ count v)
          × (size (v'.joins i) < 3)
          × (has transcode (v'.joins i)
              ≡ (has transcode (v.joins i) || (mine && same_kind transcode k)))
          × (has plagiarism (v'.joins i)
              ≡ (has plagiarism (v.joins i) || (mine && same_kind plagiarism k)))
          × (has stt (v'.joins i) ≡ (has stt (v.joins i) || (mine && same_kind stt k))))
        ⊎ ((count v' ≡ count v + 1)
            × (v'.joins i ≡ no_kinds)
            × (mine ≡ true)
            × (size (with_kind k (v.joins i)) ≡ 3)))

  completed-Advanced :
      (j : ℕ) (k : JobKind) (v : Shown)
      → size (v.joins i) < 3
      → Advanced k (j == i) v (completed j k v)
  completed-Advanced j transcode v h = ground (arith, times_processed-append i v.events j)
  completed-Advanced j _ v h = ground (arith, times_processed-append i v.events j)

  abbrev pub after : List (ℕ × JobKind) → Shown → Shown
  after = completed_all

  no_kind-Advanced :
      (k k' : JobKind) (mine : Bool) (v v' : Shown)
      → Advanced k' mine v v'
      → has k (v.joins i) ≡ false
      → (mine && same_kind k k') ≡ false
      → (count v' ≡ count v) × (has k (v'.joins i) ≡ false) × (size (v'.joins i) < 3)
  no_kind-Advanced transcode k' mine v v' (inl h) e f = ground arith
  no_kind-Advanced plagiarism k' mine v v' (inl h) e f = ground arith
  no_kind-Advanced stt k' mine v v' (inl h) e f = ground arith
  no_kind-Advanced transcode k' mine v v' (inr h) e f = ground arith
  no_kind-Advanced plagiarism k' mine v v' (inr h) e f = ground arith
  no_kind-Advanced stt k' mine v v' (inr h) e f = ground arith

  -- A kind that is missing keeps the join from being published.
  pub missing_kind :
      (k : JobKind) (calls : List (ℕ × JobKind)) (v : Shown)
      → size (v.joins i) < 3
      → has k (v.joins i) ≡ false
      → occurs k i calls ≡ false
      → count (after calls v) ≡ count v
  missing_kind k [] v h e f = refl
  missing_kind k ((j, k') ∷ calls) v h e f =
      let a = completed-Advanced j k' v h in
      ground (
        arith,
        no_kind-Advanced k k' (j == i) v (completed j k' v) a e,
        missing_kind k calls (completed j k' v),
      )

  -- Three calls at least for each publication.
  abbrev pub calls_for : List (ℕ × JobKind) → ℕ
  calls_for [] = 0
  calls_for ((j, k) ∷ calls) = let n = calls_for calls in if j == i then suc n else n

  size-Advanced :
      (k : JobKind) (mine : Bool) (v v' : Shown)
      → Advanced k mine v v'
      → (3 * count v' + size (v'.joins i) ≤ 3 * count v + size (v.joins i) + one mine)
        × (size (v'.joins i) < 3)
        × (count v ≤ count v')
  size-Advanced k mine v v' (inl h) = ground arith
  size-Advanced k mine v v' (inr h) = ground arith

  pub publish_bound :
      (calls : List (ℕ × JobKind)) (v : Shown)
      → size (v.joins i) < 3
      → (3 * count (after calls v) ≤ 3 * count v + size (v.joins i) + calls_for calls)
        × (count v ≤ count (after calls v))
  publish_bound [] v h = omega arith
  publish_bound ((j, k) ∷ calls) v h =
      let a = size-Advanced k (j == i) v (completed j k v) (completed-Advanced j k v h) in
      ground (arith, publish_bound calls (completed j k v) a.1)

  -- Every kind is in the join or still comes.
  abbrev pub Covered : Kinds → List (ℕ × JobKind) → Type 0
  Covered s calls =
      ((has transcode s || occurs transcode i calls) ≡ true)
      × ((has plagiarism s || occurs plagiarism i calls) ≡ true)
      × ((has stt s || occurs stt i calls) ≡ true)

  or_step : (a b c d : Bool) → d ≡ (a || b) → (a || (b || c)) ≡ true → (d || c) ≡ true
  or_step a b c d h k = ground arith

  Covered-step :
      (j : ℕ) (k : JobKind) (calls : List (ℕ × JobKind)) (v : Shown) {s' : Kinds}
      → has transcode s' ≡ (has transcode (v.joins i) || ((j == i) && same_kind transcode k))
      → has plagiarism s' ≡ (has plagiarism (v.joins i) || ((j == i) && same_kind plagiarism k))
      → has stt s' ≡ (has stt (v.joins i) || ((j == i) && same_kind stt k))
      → Covered (v.joins i) ((j, k) ∷ calls)
      → Covered s' calls
  Covered-step j k calls v t p s c =
      (or_step _ _ _ _ t c.0, or_step _ _ _ _ p c.1, or_step _ _ _ _ s c.2)

  -- Once every kind has come, the join has been published.
  pub all_kinds :
      (calls : List (ℕ × JobKind)) (v : Shown)
      → size (v.joins i) < 3
      → Covered (v.joins i) calls
      → count v < count (after calls v)
  all_kinds [] v h c = absurd (ground arith)
  all_kinds ((j, k) ∷ calls) v h c = elim (completed-Advanced j k v h) [
    | inl (same, room, t, p, s) ↦
        let c' : Covered ((completed j k v).joins i) calls = Covered-step j k calls v t p s c in
        omega (arith, all_kinds calls (completed j k v) room c')
    | inr (more, clear, mine, full) ↦
        omega (arith, (publish_bound calls (completed j k v) (ground arith)).1)
  ]

  abbrev pub all_occur : List (ℕ × JobKind) → Bool
  all_occur calls = occurs transcode i calls && (occurs plagiarism i calls && occurs stt i calls)

  abbrev pub Published : Shown → List (ℕ × JobKind) → Type 0
  Published v calls =
      (all_occur calls ≡ true × (count v < count (after calls v)))
      ⊎ (all_occur calls ≡ false × (count (after calls v) ≡ count v))

  empty_size : (v : Shown) → v.joins i ≡ no_kinds → size (v.joins i) ≡ 0
  empty_size v h = rw h refl

  empty_has : (k : JobKind) (v : Shown) → v.joins i ≡ no_kinds → has k (v.joins i) ≡ false
  empty_has transcode v h = rw h refl
  empty_has plagiarism v h = rw h refl
  empty_has stt v h = rw h refl

  all-Covered : (calls : List (ℕ × JobKind)) (s : Kinds) → all_occur calls ≡ true → Covered s calls
  all-Covered calls s e = (ground arith, ground arith, ground arith)

  some_missing :
      (calls : List (ℕ × JobKind))
      → all_occur calls ≡ false
      → (k : JobKind) × (occurs k i calls ≡ false)
  some_missing calls e = elim (Bool-cases (occurs transcode i calls)) [
    | inr t ↦ (transcode, t)
    | inl t ↦ elim (Bool-cases (occurs plagiarism i calls)) [
      | inr p ↦ (plagiarism, p)
      | inl p ↦ (stt, ground arith)
    ]
  ]

  publishes_or_not :
      (calls : List (ℕ × JobKind)) (v : Shown) → v.joins i ≡ no_kinds → Published v calls
  publishes_or_not calls v h = elim (Bool-cases (all_occur calls)) [
    | inl every ↦ inl (
      every,
      all_kinds calls v (omega (arith, empty_size v h)) (all-Covered calls (v.joins i) every),
    )
    | inr missing ↦
        let (k, e) = some_missing calls missing in
        inr (missing, missing_kind k calls v (omega (arith, empty_size v h)) (empty_has k v h) e)
  ]

  pub publishes :
      (calls : List (ℕ × JobKind)) (v : Shown)
      → v.joins i ≡ no_kinds
      → Published v calls × (3 * count (after calls v) ≤ 3 * count v + calls_for calls)
  publishes calls v h = (
    publishes_or_not calls v h,
    omega (arith, empty_size v h, (publish_bound calls v (omega (arith, empty_size v h))).0),
  )
