-- ===== src/Tests/Worker.antt =====
-- Backends of the worker service in memory, with a script of faults.
use s1t_python_backend_templ.Base.{
  refl, inl, Bool, true, false, List, [], ◌∷◌, Result, ok, err, Exec,
}
use s1t_python_backend_templ.Processing.Domain.{
  WorkerError, port_error, processing_started, processed, processing_failed,
}
use s1t_python_backend_templ.Processing.Ports.{
  no_kinds, with_kind, size, Shown, set_join, add_event, add_job, set_marked, unchanged, Called,
  Backends,
}

pub record Worker : Type 0 where
  pub shown : Shown
  pub faults : List Bool

abbrev shown_by : Worker → Shown
shown_by w = w.shown

abbrev call_by :
    {A : Type 0} → A → (Shown → Shown) → Shown → List Bool → Result WorkerError A × Worker
call_by a f v [] = (ok a, record { shown = f v; faults = [] })
call_by a f v (false ∷ bs) = (ok a, record { shown = f v; faults = bs })
call_by a f v (true ∷ bs) = (err port_error, record { shown = v; faults = bs })

pub call_by_law :
    {A : Type 0} (a : A) (f : Shown → Shown) (w : Worker) (bs : List Bool)
    → Called shown_by a f w (call_by a f w.shown bs)
call_by_law a f w [] = (refl, refl)
call_by_law a f w (false ∷ bs) = (refl, refl)
call_by_law a f w (true ∷ bs) = (refl, inl refl)

abbrev call : {A : Type 0} → (Shown → A) → (Shown → Shown) → Exec WorkerError Worker A
call g f w = call_by (g w.shown) f w.shown w.faults

abbrev done : (Shown → Shown) → Exec WorkerError Worker (Unit {0})
done = call (λ v. tt)

abbrev pub worker : Backends Worker
worker = record {
  queue = record { enqueue = λ i k. done (add_job i k) };
  store = record {
    add = λ i k w.
        call (λ v. size (with_kind k (v.joins i))) (set_join i (with_kind k (w.shown.joins i))) w;
    clear = λ i. done (set_join i no_kinds);
  };
  publisher = record {
    publish_started = λ i. done (add_event (processing_started i));
    publish_processed = λ i. done (add_event (processed i));
    publish_failed = λ i. done (add_event (processing_failed i));
  };
  inbox = record {
    seen = λ e. call (λ v. v.marked e) unchanged;
    mark_processed = λ e. done (set_marked e);
  };
  view = shown_by;
  enqueue_law = λ i k w. call_by_law tt (add_job i k) w w.faults;
  add_law = λ i k w.
      call_by_law (size (with_kind k (w.shown.joins i)))
        (set_join i (with_kind k (w.shown.joins i))) w w.faults;
  clear_law = λ i w. call_by_law tt (set_join i no_kinds) w w.faults;
  started_law = λ i w. call_by_law tt (add_event (processing_started i)) w w.faults;
  processed_law = λ i w. call_by_law tt (add_event (processed i)) w w.faults;
  failed_law = λ i w. call_by_law tt (add_event (processing_failed i)) w w.faults;
  seen_law = λ e w. call_by_law (w.shown.marked e) unchanged w w.faults;
  mark_law = λ e w. call_by_law tt (set_marked e) w w.faults;
}

abbrev pub nothing_shown : Shown
nothing_shown = record { jobs = []; joins = λ i. no_kinds; events = []; marked = λ e. false }

abbrev pub start : List Bool → Worker
start bs = record { shown = nothing_shown; faults = bs }
