-- ===== src/Processing/Join/Runs.antt =====
-- Runs of completed jobs against any backends that meet the contracts.
use s1t_python_backend_templ.Base.{
  ℕ, ◌+◌, ◌*◌, ◌≤◌, ◌<◌, ◌≡◌, refl, ◌∙◌, ap, ◌⊎◌, Bool, true, false, List, [], ◌∷◌, Result, ok, err,
  and_then, leb, if◌then◌else◌,
}
use s1t_python_backend_templ.Processing.Domain.{JobKind, WorkerError, processed, is_complete}
use s1t_python_backend_templ.Processing.Ports.{
  no_kinds, with_kind, size, Shown, set_join, add_event, Called, Backends,
}
use s1t_python_backend_templ.Processing.UseCases.{complete_job_uc, finish_join}
use s1t_python_backend_templ.Processing.Entrypoints.{complete_job}
use s1t_python_backend_templ.Processing.Join.{
  completed, completed_all, count, calls_for, all_occur, publishes,
}

module _ {W : Type 0} (b : Backends W) where
  open b use {view}

  -- Jobs of any videos completed one after another, each call returning.
  pub data Completions : List (ℕ × JobKind) → W → W → Type 0 where
    none_left : {w : W} → Completions [] w w
    next :
        {i : ℕ} {k : JobKind} {calls : List (ℕ × JobKind)} {w w1 w2 : W}
        → complete_job b i k w ≡ (ok tt, w1)
        → Completions calls w1 w2
        → Completions ((i, k) ∷ calls) w w2

  -- The state after a call that returned is the one that its contract names.
  returned :
      {A : Type 0} (a : A) {c : A} (f : Shown → Shown) (w : W) (x : Result WorkerError A × W)
      {w' : W}
      → Called view a f w x
      → x ≡ (ok c, w')
      → view w' ≡ f (view w)
  returned a f w (ok u, w1) h e = cc
  returned a f w (err exc, w1) h e = absurd (cc)

  finished_clear :
      (i : ℕ) (w : W) (x : Result WorkerError (Unit {0}) × W) {w' : W}
      → Called view tt (add_event (processed i)) w x
      → and_then x (λ _. b.store.clear i) ≡ (ok tt, w')
      → view w' ≡ set_join i no_kinds (add_event (processed i) (view w))
  finished_clear i w (ok u, w1) h e =
      returned tt (set_join i no_kinds) w1 (b.store.clear i w1) (b.clear_law i w1) e
      ∙ ap (set_join i no_kinds) h.1
  finished_clear i w (err exc, w1) h e = absurd (cc)

  finished :
      (i : ℕ) (d : Bool) (w : W) {w' : W}
      → finish_join b.store b.publisher i d w ≡ (ok tt, w')
      → view w' ≡ (if d then set_join i no_kinds (add_event (processed i) (view w)) else view w)
  finished i false w e = cc
  finished i true w e =
      finished_clear i w (b.publisher.publish_processed i w) (b.processed_law i w) e

  counted_at :
      (i : ℕ) (k : JobKind) (v v1 : Shown) (done : ℕ)
      → done ≡ size (with_kind k (v.joins i))
      → v1 ≡ set_join i (with_kind k (v.joins i)) v
      → (if leb 3 done then set_join i no_kinds (add_event (processed i) v1) else v1)
        ≡ completed i k v
  counted_at i k v v1 done h c = rw (h, c) refl

  counted :
      (i : ℕ) (k : JobKind) (w : W) (x : Result WorkerError ℕ × W) {w' : W}
      → Called view
          (size (with_kind k ((view w).joins i)))
          (set_join i (with_kind k ((view w).joins i)))
          w
          x
      → and_then x (λ done. finish_join b.store b.publisher i (is_complete done 3)) ≡ (ok tt, w')
      → view w' ≡ completed i k (view w)
  unfolding is_complete
  counted i k w (ok done, w1) h e =
      finished i (leb 3 done) w1 e ∙ counted_at i k (view w) (view w1) done h.0 h.1
  counted i k w (err exc, w1) h e = absurd (cc)

  complete_job-completed :
      (i : ℕ) (k : JobKind) (w : W) {w' : W}
      → complete_job b i k w ≡ (ok tt, w')
      → view w' ≡ completed i k (view w)
  unfolding complete_job_uc
  complete_job-completed i k w e = counted i k w (b.store.add i k w) (b.add_law i k w) e

  -- What a run of completed jobs leaves to see.
  pub Completions-completed_all :
      (calls : List (ℕ × JobKind)) (w : W) {w' : W}
      → Completions calls w w'
      → view w' ≡ completed_all calls (view w)
  Completions-completed_all [] w none_left = refl
  Completions-completed_all ((i, k) ∷ calls) w (next {w1 = w1} e c) =
      Completions-completed_all calls w1 c
      ∙ ap (completed_all calls) (complete_job-completed i k w e)

  -- A run of completed jobs of any videos that starts with no job recorded for video `i`
  -- publishes `video_processed` for it exactly if jobs of all three kinds were completed for it;
  -- and each publication takes at least three jobs of it. Calls that return are considered.
  pub complete_job-publishes :
      (i : ℕ) (calls : List (ℕ × JobKind)) (w : W) (w' : W)
      → (view w).joins i ≡ no_kinds
      → Completions calls w w'
      → ((all_occur i calls ≡ true × (count i (view w) < count i (view w')))
          ⊎ (all_occur i calls ≡ false × (count i (view w') ≡ count i (view w))))
        × (3 * count i (view w') ≤ 3 * count i (view w) + calls_for i calls)
  complete_job-publishes i calls w w' h c =
      rw (Completions-completed_all calls w c) (publishes i calls (view w) h)
