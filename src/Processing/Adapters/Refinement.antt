-- ===== src/Processing/Adapters/Refinement.antt =====
-- The adapters on Valkey and SAQ fill the contracts of the ports (Processing/Ports), seen through
-- what the servers hold.
use s1t_python_backend_templ.Base.{
  ℕ, ◌≡◌, refl, ap, subst, ◌∙◌, Bool, String, some, [], length, Result, ok, err, and_then, pure,
  ◌==◌,
}
use s1t_python_backend_templ.Processing.Domain.{
  JobKind, transcode, plagiarism, stt, kind_value, WorkerError, port_error, StatusEvent,
  processing_started, processed, processing_failed,
}
use s1t_python_backend_templ.Processing.Ports.{
  no_kinds, with_kind, size, Shown, set_join, add_event, add_job, set_marked, unchanged, Called,
  Backends,
}
use s1t_python_backend_templ.Processing.Adapters.{
  join_key, inbox_key, VideoStatusIntegration, QueuedJob, sadd, with_member, deleted, set_nx,
  with_entry, with_job, IsRedis, AnyError, one_if, Servers, from_redis, as_port_error, Draws, add,
  clear, valkey_join_store, seen, mark_processed, valkey_inbox_store, publish,
  valkey_event_publisher, enqueue, saq_job_queue,
}
use s1t_python_backend_templ.Processing.Adapters.Shown.{
  kept-append, sadd-Kinds, called, from_redis_lem, joins_shown, one_if_lem, kinds_in, job_shown,
  event_shown, shown_in,
}

module _ {W : Type 0} (servers : Servers W) where
  -- Every join set has distinct values of kinds, and nothing else.
  abbrev pub IsWhole : Type 0
  IsWhole =
      (w : W) (i : ℕ)
      → let s = (servers.held w).members (join_key i) in length s ≡ size (kinds_in s)

  abbrev pub shown_by : W → Shown
  shown_by w = shown_in (servers.held w)

  seen_exists :
      (b : Bool) (w : W) (r : Result WorkerError ℕ × W)
      → Called shown_by (one_if b) unchanged w r
      → Called shown_by b unchanged w (and_then r (λ n. pure (n == 1)))
  seen_exists b w (ok n, w') (p, q) = (ap (λ m. m == 1) p ∙ one_if_lem b, q)
  seen_exists b w (err e, w') h = h

  module _ (ttl_seconds : ℕ) where
    add-Called :
        IsWhole
        → (i : ℕ) (k : JobKind) (w : W)
        → Called shown_by
            (size (with_kind k ((shown_by w).joins i)))
            (set_join i (with_kind k ((shown_by w).joins i)))
            w
            (add servers ttl_seconds i k w)
    unfolding add
    add-Called whole i k w =
        let s = (servers.held w).members (join_key i) in
        let (kinds, sizes) = sadd-Kinds k s (whole w i) in
        subst
          (λ n.
            Called shown_by n (set_join i (with_kind k (kinds_in s))) w
              (add servers ttl_seconds i k w))
          sizes
          (called servers.held IsRedis (length (sadd (kind_value k) s))
            (with_member (join_key i) (kind_value k)) w from_redis
            (set_join i (with_kind k (kinds_in s))) from_redis_lem
            (joins_shown i (sadd (kind_value k) s) (with_kind k (kinds_in s)) (servers.held w)
              kinds)
            (servers.add_and_count (join_key i) (kind_value k) ttl_seconds w)
            (servers.add_law i k ttl_seconds w))

    clear-Called :
        (i : ℕ) (w : W) → Called shown_by tt (set_join i no_kinds) w (clear servers ttl_seconds i w)
    unfolding clear
    clear-Called i w =
        called servers.held IsRedis tt (deleted (join_key i)) w from_redis (set_join i no_kinds)
          from_redis_lem (joins_shown i [] no_kinds (servers.held w) refl)
          (servers.delete (join_key i) w) (servers.delete_law (join_key i) w)

    seen-Called :
        (e : ℕ) (w : W)
        → Called shown_by ((shown_by w).marked e) unchanged w (seen servers ttl_seconds e w)
    unfolding seen
    seen-Called e w =
        let b = (servers.held w).exists (inbox_key e) in
        seen_exists b w (as_port_error from_redis (servers.exists (inbox_key e) w)) (
          called servers.held IsRedis (one_if b) (λ h. h) w from_redis unchanged from_redis_lem refl
            (servers.exists (inbox_key e) w) (servers.exists_law (inbox_key e) w))

    mark-Called :
        (e : ℕ) (w : W)
        → Called shown_by tt (set_marked e) w (mark_processed servers ttl_seconds e w)
    unfolding mark_processed
    mark-Called e w =
        called servers.held IsRedis tt (set_nx (inbox_key e)) w from_redis (set_marked e)
          from_redis_lem refl (servers.set_ex_nx (inbox_key e) ttl_seconds w)
          (servers.set_law (inbox_key e) ttl_seconds w)

  publish-Called :
      (draws : W → Draws) (event_type : String) (event : ℕ → StatusEvent)
      → ((e : VideoStatusIntegration)
          → e.event_type ≡ event_type
          → event_shown e ≡ some (event e.video_id))
      → (i : ℕ) (w : W)
      → Called shown_by tt (add_event (event i)) w (publish servers draws i event_type w)
  unfolding publish
  publish-Called draws event_type event shows i w =
      let e : VideoStatusIntegration = record {
        event_id = (draws w).event_id;
        event_type = event_type;
        video_id = i;
        occurred_at = (draws w).occurred_at;
        version = 1;
      } in
      called servers.held IsRedis tt (with_entry e) w from_redis (add_event (event i))
        from_redis_lem
        (ap (λ es. record (shown_in (servers.held w)) { events = es })
          (kept-append event_shown (servers.held w).stream e (event i) (shows e refl)))
        (servers.xadd e w) (servers.xadd_law e w)

  job_sent :
      (i : ℕ) (k : JobKind) (retries timeout : ℕ)
      → job_shown
          (record { function = kind_value k; video_id = i; retries = retries; timeout = timeout })
        ≡ some (i, k)
  job_sent i transcode retries timeout = refl
  job_sent i plagiarism retries timeout = refl
  job_sent i stt retries timeout = refl

  enqueue-Called :
      (retries timeout i : ℕ) (k : JobKind) (w : W)
      → Called shown_by tt (add_job i k) w (enqueue servers retries timeout i k w)
  unfolding enqueue
  enqueue-Called retries timeout i k w =
      let j : QueuedJob = record {
        function = kind_value k;
        video_id = i;
        retries = retries;
        timeout = timeout;
      } in
      called servers.held AnyError tt (with_job j) w (λ e. port_error) (add_job i k) (λ e h. refl)
        (ap (λ js. record (shown_in (servers.held w)) { jobs = js })
          (kept-append job_shown (servers.held w).queued j (i, k) (job_sent i k retries timeout)))
        (servers.enqueue j w) (servers.enqueue_law j w)

  module _ (ttl_seconds retries timeout : ℕ) (draws : W → Draws) (whole : IsWhole) where
    -- There are backends that meet every contract of the ports and whose ports are the adapters, where
    -- the commands do what they say and every join set has distinct values of kinds.
    pub adapters-Backends :
        (b : Backends W) × (b.queue ≡ saq_job_queue servers retries timeout)
        × (b.store ≡ valkey_join_store servers ttl_seconds)
        × (b.publisher ≡ valkey_event_publisher servers draws)
        × (b.inbox ≡ valkey_inbox_store servers ttl_seconds)
        × (b.view ≡ shown_by)
    adapters-Backends = (
      record {
        queue = saq_job_queue servers retries timeout;
        store = valkey_join_store servers ttl_seconds;
        publisher = valkey_event_publisher servers draws;
        inbox = valkey_inbox_store servers ttl_seconds;
        view = shown_by;
        enqueue_law = enqueue-Called retries timeout;
        add_law = add-Called ttl_seconds whole;
        clear_law = clear-Called ttl_seconds;
        started_law =
            publish-Called draws "video_processing_started" processing_started (λ e h. rw h refl);
        processed_law = publish-Called draws "video_processed" processed (λ e h. rw h refl);
        failed_law =
            publish-Called draws "video_processing_failed" processing_failed (λ e h. rw h refl);
        seen_law = seen-Called ttl_seconds;
        mark_law = mark-Called ttl_seconds;
      },
      refl,
      refl,
      refl,
      refl,
      refl,
    )
