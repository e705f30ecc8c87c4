-- ===== src/Tests/WorkerServers.antt =====
-- Valkey and the job queue in memory, whose join sets have distinct values of kinds.
use s1t_python_backend_templ.Base.{
  ℕ, ◌≡◌, ◌∙◌, ap, sym, refl, Bool, true, false, String, List, [], length, Result, ok, Exec, ◌==◌,
  ==_refl, ◌is◌, if◌then◌else◌,
}
use s1t_python_backend_templ.Processing.Domain.{JobKind, transcode, plagiarism, stt, kind_value}
use s1t_python_backend_templ.Processing.Ports.{size, Backends}
use s1t_python_backend_templ.Processing.Adapters.{
  BackendError, Key, join_key, inbox_key, Held, sadd, with_member, deleted, set_nx, with_entry,
  with_job, one_if, Commanded, IsRedis, Servers, Draws, saq_job_queue, valkey_join_store,
  valkey_event_publisher, valkey_inbox_store,
}
use s1t_python_backend_templ.Processing.Adapters.Shown.{kinds_in, sadd-Kinds}
use s1t_python_backend_templ.Processing.Adapters.Refinement.{shown_by, adapters-Backends}

abbrev Distinct : Held → Type 0
Distinct h = (i : ℕ) → length (h.members (join_key i)) ≡ size (kinds_in (h.members (join_key i)))

record Memory : Type 0 where
  held : Held
  distinct : Distinct held

distinct-if :
    (b : Bool) (s t : List String)
    → length s ≡ size (kinds_in s)
    → length t ≡ size (kinds_in t)
    → length (if b then s else t) ≡ size (kinds_in (if b then s else t))
distinct-if true s t p q = p
distinct-if false s t p q = q

put_distinct :
    (k : JobKind) (s : List String)
    → length s ≡ size (kinds_in s)
    → length (sadd (kind_value k) s) ≡ size (kinds_in (sadd (kind_value k) s))
put_distinct k s e = let (kinds, sizes) = sadd-Kinds k s e in sizes ∙ sym (ap size kinds)

abbrev put : (i : ℕ) → JobKind → Memory → Memory
put i k m = record {
  held = with_member (join_key i) (kind_value k) m.held;
  distinct = λ j.
      distinct-if (j == i) (sadd (kind_value k) (m.held.members (join_key i)))
        (m.held.members (join_key j)) (put_distinct k (m.held.members (join_key i)) (m.distinct i))
        (m.distinct j);
}

abbrev emptied : Key → Memory → Memory
emptied (join_key i) m = record {
  held = deleted (join_key i) m.held;
  distinct = λ j. distinct-if (j == i) [] (m.held.members (join_key j)) refl (m.distinct j);
}
emptied (inbox_key i) m = record { held = deleted (inbox_key i) m.held; distinct = m.distinct }

-- A value that is no kind's is not kept.
abbrev put_value : Key → String → Memory → Memory
put_value (inbox_key i) v m = m
put_value (join_key i) v m =
    if v is "transcode"
    then put i transcode m
    else if v is "plagiarism"
    then put i plagiarism m
    else if v is "stt"
    then put i stt m
    else m

abbrev put_and_count : Key → String → ℕ → Exec BackendError Memory ℕ
put_and_count k v ttl m = (ok (length ((put_value k v m).held.members k)), put_value k v m)

length-same : (i : ℕ) (s t : List String) → length (if i == i then s else t) ≡ length s
length-same i s t = ap (λ b. length (if b then s else t)) (==_refl i)

put_and_count_law :
    (i : ℕ) (kind : JobKind) (ttl : ℕ) (m : Memory)
    → Commanded
        (λ w. w.held)
        IsRedis
        (length (sadd (kind_value kind) (m.held.members (join_key i))))
        (with_member (join_key i) (kind_value kind))
        m
        (put_and_count (join_key i) (kind_value kind) ttl m)
put_and_count_law i transcode ttl m = (
  length-same i (sadd "transcode" (m.held.members (join_key i))) (m.held.members (join_key i)),
  refl,
)
put_and_count_law i plagiarism ttl m = (
  length-same i (sadd "plagiarism" (m.held.members (join_key i))) (m.held.members (join_key i)),
  refl,
)
put_and_count_law i stt ttl m =
    (length-same i (sadd "stt" (m.held.members (join_key i))) (m.held.members (join_key i)), refl)

emptied_law : (k : Key) (m : Memory) → (emptied k m).held ≡ deleted k m.held
emptied_law (join_key i) m = refl
emptied_law (inbox_key i) m = refl

abbrev with_held : (m : Memory) (h : Held) → Distinct h → Result BackendError (Unit {0}) × Memory
with_held m h d = (ok tt, record { held = h; distinct = d })

abbrev memory : Servers Memory
memory = record {
  held = λ m. m.held;
  add_and_count = put_and_count;
  delete = λ k m. (ok tt, emptied k m);
  exists = λ k m. (ok (one_if (m.held.exists k)), m);
  set_ex_nx = λ k ttl m. with_held m (set_nx k m.held) m.distinct;
  xadd = λ e m. with_held m (with_entry e m.held) m.distinct;
  enqueue = λ j m. with_held m (with_job j m.held) m.distinct;
  add_law = put_and_count_law;
  delete_law = λ k m. (refl, emptied_law k m);
  exists_law = λ k m. (refl, refl);
  set_law = λ k ttl m. (refl, refl);
  xadd_law = λ e m. (refl, refl);
  enqueue_law = λ j m. (refl, refl);
}

abbrev draws : Memory → Draws
draws m = record { event_id = length m.held.stream; occurred_at = 5 }

adapters-Backends_example :
    (b : Backends Memory) × (b.queue ≡ saq_job_queue memory 3 600)
    × (b.store ≡ valkey_join_store memory 3600)
    × (b.publisher ≡ valkey_event_publisher memory draws)
    × (b.inbox ≡ valkey_inbox_store memory 3600)
    × (b.view ≡ shown_by memory)
adapters-Backends_example = adapters-Backends memory 3600 3 600 draws (λ m i. m.distinct i)
