-- ===== src/Media/Video/Lifecycle.antt =====
-- The status machine of the aggregate: PENDING -> PROCESSING -> DONE, and FAILED from both.
use s1t_python_backend_templ.Base.{
  ℕ, suc, ◌+◌, ◌≤◌, ◌≡◌, refl, ◌∙◌, inl, inr, Result, ok, err, Bool, true, Bool-cases, any, arith,
  ◌<◌,
}
use s1t_python_backend_templ.Shared.Errors.{Error, invalid_transition}
use s1t_python_backend_templ.Media.Video.{
  VideoStatus, pending, processing, done, failed, value, video_status, Video, transition, allowed,
  same_status, mark_processing, mark_done, mark_failed,
}

-- The documented arrows.
pub data Step : VideoStatus → VideoStatus → Type 0 where
  start : Step pending processing
  complete : Step processing done
  fail_early : Step pending failed
  fail : Step processing failed

abbrev in_table : VideoStatus → VideoStatus → Bool
in_table frm to = any (same_status to) (allowed frm)

Step-in_table : {frm to : VideoStatus} → Step frm to → in_table frm to ≡ true
Step-in_table start = refl
Step-in_table complete = refl
Step-in_table fail_early = refl
Step-in_table fail = refl

in_table-Step : (frm to : VideoStatus) → in_table frm to ≡ true → Step frm to
in_table-Step pending processing h = start
in_table-Step processing done h = complete
in_table-Step pending failed h = fail_early
in_table-Step processing failed h = fail
in_table-Step _ _ h = cc

-- What `_transition` did to a video: an arrow was taken and nothing but the status changed, or
-- there is no such arrow and the error names both ends.
abbrev pub Transitioned : Video → VideoStatus → Result Error Video → Type 0
Transitioned v to (ok v') = Step v.status to × (v' ≡ record v { status = to })
Transitioned v to (err e) =
    (¬ Step v.status to) × (e ≡ invalid_transition (value v.status) (value to))

-- The table of allowed transitions is exactly the documented machine: a transition succeeds along
-- an arrow, changing the status alone, and raises InvalidTransition where there is none.
pub transition-Transitioned : (to : VideoStatus) (v : Video) → Transitioned v to (transition to v)
unfolding transition
transition-Transitioned to v = elim (Bool-cases (in_table v.status to)) [
  | inl yes_arrow ↦ rw yes_arrow (in_table-Step v.status to yes_arrow, refl)
  | inr no_arrow ↦ rw no_arrow ((λ h. cc (Step-in_table h)), refl)
]

-- A history of `n` calls of the three methods that succeeded.
pub data Marks (u : Video) : Video → ℕ → Type 0 where
  unmarked : Marks u u 0
  to_processing : {v w : Video} {n : ℕ} → Marks u v n → mark_processing v ≡ ok w → Marks u w (suc n)
  to_done : {v w : Video} {n : ℕ} → Marks u v n → mark_done v ≡ ok w → Marks u w (suc n)
  to_failed : {v w : Video} {n : ℕ} → Marks u v n → mark_failed v ≡ ok w → Marks u w (suc n)

abbrev pub rank : VideoStatus → ℕ
rank pending = 0
rank processing = 1
rank done = 2
rank failed = 2

-- The parts of a video that no transition touches.
abbrev pub SameVideo : Video → Video → Type 0
SameVideo u v =
    (v.id ≡ u.id)
    × (v.source_key ≡ u.source_key)
    × (v.uploaded_at ≡ u.uploaded_at)
    × (v.document ≡ u.document)

transition_climbs :
    (to : VideoStatus) (v w : Video)
    → transition to v ≡ ok w
    → (rank v.status < rank w.status) × SameVideo v w
unfolding transition
transition_climbs pending v w h = ground arith
transition_climbs _ v w h = ground arith

rank_le : (s : VideoStatus) → rank s ≤ 2
rank_le pending = omega arith
rank_le _ = omega arith

abbrev Bounded : Video → Video → ℕ → Type 0
Bounded u v n = (n + rank u.status ≤ rank v.status) × (n ≤ 2) × SameVideo u v

Bounded-step :
    (u v w : Video) (n : ℕ)
    → Bounded u v n
    → (rank v.status < rank w.status) × SameVideo v w
    → Bounded u w (suc n)
Bounded-step u v w n h (climb, (i, k, t, d)) =
    (omega arith, omega (arith, rank_le w.status), (i ∙ h.2.0, k ∙ h.2.1, t ∙ h.2.2, d ∙ h.2.3))

-- Every history has at most two successful transitions, and climbs with each: a video that is DONE
-- or FAILED stays as it is, and its identity, key, time and document never change.
pub Marks_bounded :
    {u v : Video} {n : ℕ}
    → Marks u v n
    → (n + rank u.status ≤ rank v.status) × (n ≤ 2) × SameVideo u v
unfolding mark_processing mark_done mark_failed
Marks_bounded unmarked = ground arith
Marks_bounded {u} (to_processing {v = v} {w = w} {n = n} m h) =
    Bounded-step u v w n (Marks_bounded m) (transition_climbs processing v w h)
Marks_bounded {u} (to_done {v = v} {w = w} {n = n} m h) =
    Bounded-step u v w n (Marks_bounded m) (transition_climbs done v w h)
Marks_bounded {u} (to_failed {v = v} {w = w} {n = n} m h) =
    Bounded-step u v w n (Marks_bounded m) (transition_climbs failed v w h)

-- The text of a status reads back to it, and no other text reads as a status.
pub video_status-value : (s : VideoStatus) → video_status (value s) ≡ ok s
unfolding video_status
video_status-value pending = refl
video_status-value processing = refl
video_status-value done = refl
video_status-value failed = refl
