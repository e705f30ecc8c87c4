-- ===== src/Processing/Fanout.antt =====
-- The fan-out of an uploaded video into jobs, and redeliveries of its event.
use s1t_python_backend_templ.Base.{
  ℕ, zero, suc, ◌+◌, ◌≤◌, ◌≡◌, refl, ◌∙◌, ap, sym, inl, inr, Bool, true, false, List, [], ◌∷◌, ◌++◌,
  if◌then◌else◌, Option, none, some, Result, ok, err, Exec, and_then, ◌>>◌, length, arith,
}
use s1t_python_backend_templ.Processing.Domain.{
  JobKind, transcode, plagiarism, stt, job_kinds, WorkerError, port_error, processing_started,
}
use s1t_python_backend_templ.Processing.Ports.{
  Shown, add_event, add_job, set_marked, unchanged, Called, Backends,
}
use s1t_python_backend_templ.Processing.UseCases.{enqueue_all, unless_seen, on_video_uploaded_uc}
use s1t_python_backend_templ.Processing.Entrypoints.{VideoUploadedSchema, on_uploaded}

abbrev pub Effects : Type 0
Effects = List (Shown → Shown)

-- The first `n` of the effects, in order.
abbrev pub upto : ℕ → Effects → Shown → Shown
upto zero fs v = v
upto (suc n) [] v = v
upto (suc n) (f ∷ fs) v = upto n fs (f v)

-- Three jobs in order, the announcement, and last the inbox mark.
abbrev pub fan_out_effects : ℕ → ℕ → Effects
fan_out_effects i e =
    add_job i transcode
    ∷ add_job i plagiarism
    ∷ add_job i stt
    ∷ add_event (processing_started i)
    ∷ set_marked e
    ∷ []

module _ {W : Type 0} (b : Backends W) where
  open b use {view}

  -- All effects if the code returned, and some first ones if it raised PortError.
  abbrev pub Partly : Effects → W → Result WorkerError (Unit {0}) × W → Type 0
  Partly fs w (ok u, w') = view w' ≡ upto (length fs) fs (view w)
  Partly fs w (err e, w') =
      (e ≡ port_error) × ((n : ℕ) × ((n ≤ length fs) × (view w' ≡ upto n fs (view w))))

  upto-append :
      (fs gs : Effects) (n : ℕ) (v : Shown)
      → upto (length fs + n) (fs ++ gs) v ≡ upto n gs (upto (length fs) fs v)
  upto-append [] gs n v = let e : 0 + n ≡ n = omega arith in ap (λ m. upto m gs v) e
  upto-append (f ∷ fs) gs n v =
      let e : length (f ∷ fs) + n ≡ suc (length fs + n) = omega arith in
      ap (λ m. upto m (f ∷ (fs ++ gs)) v) e ∙ upto-append fs gs n (f v)

  upto-left :
      (fs gs : Effects) (n : ℕ) (v : Shown) → n ≤ length fs → upto n (fs ++ gs) v ≡ upto n fs v
  upto-left fs gs zero v h = refl
  upto-left [] gs (suc n) v h = absurd (omega arith)
  upto-left (f ∷ fs) gs (suc n) v h = upto-left fs gs n (f v) (omega arith)

  length-append : (fs gs : Effects) → length (fs ++ gs) ≡ length fs + length gs
  length-append [] gs = omega arith
  length-append (f ∷ fs) gs = omega (arith, length-append fs gs)

  Partly-after :
      (fs gs : Effects) (w w1 : W) (x : Result WorkerError (Unit {0}) × W)
      → view w1 ≡ upto (length fs) fs (view w)
      → Partly gs w1 x
      → Partly (fs ++ gs) w x
  Partly-after fs gs w w1 (ok u, w') h p =
      rw (length-append fs gs, upto-append fs gs (length gs) (view w), ← h) p
  Partly-after fs gs w w1 (err e, w') h (k, (n, (le, p))) = (
    k,
    (length fs + n, (omega (arith, length-append fs gs), rw (upto-append fs gs n (view w), ← h) p)),
  )

  Partly-bind :
      (fs gs : Effects) (w : W) (x : Result WorkerError (Unit {0}) × W)
      (m : Exec WorkerError W (Unit {0}))
      → Partly fs w x
      → ((w1 : W) → Partly gs w1 (m w1))
      → Partly (fs ++ gs) w (and_then x (λ _. m))
  Partly-bind fs gs w (ok u, w1) m h k = Partly-after fs gs w w1 (m w1) h (k w1)
  Partly-bind fs gs w (err e, w1) m (p, (n, (le, h))) k =
      (p, (n, (omega (arith, length-append fs gs), h ∙ sym (upto-left fs gs n (view w) le))))

  Partly-call :
      (f : Shown → Shown) (w : W) (x : Result WorkerError (Unit {0}) × W)
      → Called view tt f w x
      → Partly (f ∷ []) w x
  Partly-call f w (ok u, w1) h = h.1
  Partly-call f w (err e, w1) (p, inl h) = (p, (0, (omega arith, h)))
  Partly-call f w (err e, w1) (p, inr h) = (p, (1, (omega arith, h)))

  enqueue_effects : ℕ → List JobKind → Effects
  enqueue_effects i [] = []
  enqueue_effects i (k ∷ ks) = add_job i k ∷ enqueue_effects i ks

  Partly-enqueue_all :
      (i : ℕ) (ks : List JobKind) (w : W)
      → Partly (enqueue_effects i ks) w (enqueue_all b.queue i ks w)
  unfolding enqueue_effects
  Partly-enqueue_all i [] w = refl
  Partly-enqueue_all i (k ∷ ks) w =
      Partly-bind (add_job i k ∷ []) (enqueue_effects i ks) w (b.queue.enqueue i k w)
        (enqueue_all b.queue i ks)
        (Partly-call (add_job i k) w (b.queue.enqueue i k w) (b.enqueue_law i k w))
        (Partly-enqueue_all i ks)

  abbrev fan_out : ℕ → ℕ → Exec WorkerError W (Unit {0})
  fan_out i e = do
    enqueue_all b.queue i job_kinds
    b.publisher.publish_started i
    b.inbox.mark_processed e

  Partly-announce :
      (i e : ℕ) (w : W)
      → Partly
          (add_event (processing_started i) ∷ set_marked e ∷ [])
          w
          ((b.publisher.publish_started i >> b.inbox.mark_processed e) w)
  Partly-announce i e w =
      Partly-bind (add_event (processing_started i) ∷ []) (set_marked e ∷ []) w
        (b.publisher.publish_started i w) (b.inbox.mark_processed e)
        (Partly-call (add_event (processing_started i)) w (b.publisher.publish_started i w)
          (b.started_law i w))
        (λ w1. Partly-call (set_marked e) w1 (b.inbox.mark_processed e w1) (b.mark_law e w1))

  Partly-fan_out : (i e : ℕ) (w : W) → Partly (fan_out_effects i e) w (fan_out i e w)
  unfolding enqueue_effects
  Partly-fan_out i e w =
      Partly-bind (enqueue_effects i job_kinds)
        (add_event (processing_started i) ∷ set_marked e ∷ []) w (enqueue_all b.queue i job_kinds w)
        (b.publisher.publish_started i >> b.inbox.mark_processed e)
        (Partly-enqueue_all i job_kinds w) (Partly-announce i e)

  -- Nothing for a seen event; else the effects, in order.
  abbrev pub FannedOut : ℕ → ℕ → W → Result WorkerError (Unit {0}) × W → Type 0
  FannedOut i e w (ok u, w') =
      view w' ≡ (if (view w).marked e then view w else upto 5 (fan_out_effects i e) (view w))
  FannedOut i e w (err exc, w') =
      (exc ≡ port_error)
      × ((n : ℕ) × ((n ≤ (if (view w).marked e then 0 else 5))
            × (view w' ≡ upto n (fan_out_effects i e) (view w))))

  unseen :
      (i e : ℕ) (w w1 : W) (x : Result WorkerError (Unit {0}) × W)
      → false ≡ (view w).marked e
      → view w1 ≡ view w
      → Partly (fan_out_effects i e) w1 x
      → FannedOut i e w x
  unseen i e w w1 (ok u, w') s h p = rw (← s) (p ∙ ap (upto 5 (fan_out_effects i e)) h)
  unseen i e w w1 (err exc, w') s h (k, (n, (le, p))) =
      (k, (n, (rw (← s) le, p ∙ ap (upto n (fan_out_effects i e)) h)))

  seen_or_fan_out :
      (i e : ℕ) (w : W) (x : Result WorkerError Bool × W)
      → Called view ((view w).marked e) unchanged w x
      → FannedOut i e w (and_then x (λ seen. unless_seen seen (fan_out i e)))
  seen_or_fan_out i e w (err exc, w1) (p, inl h) = (p, (0, (omega arith, h)))
  seen_or_fan_out i e w (err exc, w1) (p, inr h) = (p, (0, (omega arith, h)))
  seen_or_fan_out i e w (ok true, w1) (s, h) = rw (← s) h
  seen_or_fan_out i e w (ok false, w1) (s, h) =
      unseen i e w w1 (fan_out i e w1) s h (Partly-fan_out i e w1)

  -- OnVideoUploadedUC: it returns with nothing done if the event is marked, and else with the
  -- three jobs submitted in order, `processing_started` published and the event marked; what it
  -- raises is PortError, and then the first few of these were done, in this order, none of them
  -- for a marked event.
  pub on_uploaded-FannedOut : (i e : ℕ) (w : W) → FannedOut i e w (on_uploaded b i e w)
  unfolding on_video_uploaded_uc
  on_uploaded-FannedOut i e w = seen_or_fan_out i e w (b.inbox.seen e w) (b.seen_law e w)

  -- What `on_video_uploaded` returns or raises, and what it did.
  abbrev pub Acked : Option VideoUploadedSchema → W → Result WorkerError Bool × W → Type 0
  Acked none w x = (x.0 ≡ ok true) × (x.1 ≡ w)
  Acked (some event) w (ok u, w') =
      (u ≡ true) × FannedOut event.video_id event.event_id w (ok tt, w')
  Acked (some event) w (err exc, w') = FannedOut event.video_id event.event_id w (err exc, w')
