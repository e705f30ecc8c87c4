-- ===== src/Tests/Server.antt =====
-- A database with a script of faults: each call takes the next entry, and fails if it is true.
use s1t_python_backend_templ.Base.{
  ℕ, ◌≡◌, refl, ap, inl, inr, Bool, true, false, String, List, [], ◌∷◌, ◌++◌, Result, ok, err, Exec,
}
use s1t_python_backend_templ.Shared.Errors.{Error, sql_error, unexpected}
use s1t_python_backend_templ.Shared.Postgres.{Postgres, Statement, Executed, Committed, RolledBack}
use s1t_python_backend_templ.Media.Feed.{Channels, FeedEvent, Published}

pub record Server (T : Type 0) : Type 0 where
  pub committed : T
  pub working : T
  pub now : ℕ
  pub faults : List Bool
  pub feed : List FeedEvent

module _ {T : Type 0} where
  abbrev next_fault : Server T → Bool × Server T
  next_fault s = elim s.faults [ [] ↦ (false, s) | b ∷ bs ↦ (b, record s { faults = bs }) ]

  abbrev perform : {A : Type 0} → Result Error (A × T) → Server T → Result Error A × Server T
  perform (ok (a, t)) s = (ok a, record s { working = t })
  perform (err e) s = (err e, s)

  abbrev on_fault :
      {A : Type 0} → Bool → Error → Server T → Result Error A × Server T → Result Error A × Server T
  on_fault true e s x = (err e, s)
  on_fault false e s x = x

  abbrev server_execute : {A : Type 0} → Statement T A → Exec Error (Server T) A
  server_execute q s =
      let (b, s') = next_fault s in on_fault b sql_error s' (perform (q s.now s.working) s')

  abbrev server_commit : Exec Error (Server T) (Unit {0})
  server_commit s =
      let (b, s') = next_fault s in
      on_fault b sql_error s' (ok tt, record s' { committed = s'.working })

  abbrev server_rollback : Exec Error (Server T) (Unit {0})
  server_rollback s =
      let (b, s') = next_fault s in
      on_fault b sql_error s' (ok tt, record s' { working = s'.committed })

  abbrev server_publish : ℕ → String → Exec Error (Server T) (Unit {0})
  server_publish i text s =
      let (b, s') = next_fault s in
      on_fault b unexpected s' (ok tt, record s' { feed = s'.feed ++ (i, text) ∷ [] })

  perform_law :
      {A : Type 0} (r : Result Error (A × T)) (s s' : Server T)
      → s'.committed ≡ s.committed
      → Executed (λ (s : Server T). s.committed) (λ s. s.working) r s (perform r s')
  perform_law (ok (a, t)) s s' h = (refl, h)
  perform_law (err e) s s' h = (inr refl, h)

  -- Taking a fault changes nothing else.
  abbrev Taken : Server T → Server T → Type 0
  Taken s s' =
      (s'.committed ≡ s.committed)
      × (s'.working ≡ s.working)
      × (s'.now ≡ s.now)
      × (s'.feed ≡ s.feed)

  pub next_fault-Taken : (s : Server T) → Taken s (next_fault s).1
  next_fault-Taken s = by_faults s.faults
    where
      by_faults :
          (fs : List Bool)
          → let x : Bool × Server T = elim fs [
            | [] ↦ (false, s)
            | b ∷ bs ↦ (b, record s { faults = bs })
          ] in
            Taken s x.1
      by_faults [] = (refl, refl, refl, refl)
      by_faults (b ∷ bs) = (refl, refl, refl, refl)

  pub fault_law :
      {A : Type 0} (r : Result Error (A × T)) (b : Bool) (s s' : Server T)
      → s'.committed ≡ s.committed
      → Executed
          (λ (s : Server T). s.committed)
          (λ s. s.working)
          r
          s
          (on_fault b sql_error s' (perform r s'))
  fault_law r true s s' h = (inl refl, h)
  fault_law r false s s' h = perform_law r s s' h

  pub now_law :
      {A : Type 0} (r : Result Error (A × T)) (b : Bool) (s s' : Server T)
      → Taken s s'
      → ((on_fault b sql_error s' (perform r s')).1.now ≡ s.now)
        × ((on_fault b sql_error s' (perform r s')).1.feed ≡ s.feed)
  now_law r true s s' h = (h.2, h.3)
  now_law (ok (a, t)) false s s' h = (h.2, h.3)
  now_law (err e) false s s' h = (h.2, h.3)

  pub commit_law :
      (b : Bool) (s s' : Server T)
      → Taken s s'
      → Committed
          (λ (s : Server T). s.committed)
          (λ s. s.working)
          s
          (on_fault b sql_error s' (ok tt, record s' { committed = s'.working }))
  commit_law true s s' h = (refl, inl h.0)
  commit_law false s s' h = (h.1, h.1)

  pub rollback_law :
      (b : Bool) (s s' : Server T)
      → Taken s s'
      → RolledBack
          (λ (s : Server T). s.committed)
          (λ s. s.working)
          s
          (on_fault b sql_error s' (ok tt, record s' { working = s'.committed }))
  rollback_law true s s' h = (refl, h.0)
  rollback_law false s s' h = (h.0, h.0)

  pub publish_law :
      (i : ℕ) (text : String) (b : Bool) (s s' : Server T)
      → Taken s s'
      → Published
          (λ (s : Server T). s.feed)
          (i, text)
          s
          (on_fault b unexpected s' (ok tt, record s' { feed = s'.feed ++ (i, text) ∷ [] }))
  publish_law i text true s s' h = h.3
  publish_law i text false s s' h = ap (λ f. f ++ (i, text) ∷ []) h.3

  -- A field that a call leaves alone, whether or not it fails.
  pub kept :
      {A B : Type 0} (field : Server T → B) (b : Bool) (e : Error) (s s' : Server T)
      (x : Result Error A × Server T)
      → field s' ≡ field s
      → field x.1 ≡ field s
      → field (on_fault b e s' x).1 ≡ field s
  kept field true e s s' x h k = h
  kept field false e s s' x h k = k

abbrev pub server : (T : Type 0) → Postgres T
server T = record {
  World = Server T;
  committed = λ s. s.committed;
  working = λ s. s.working;
  now = λ s. s.now;
  execute = server_execute;
  commit = server_commit;
  rollback = server_rollback;
  execute_law = λ q s.
      let (b, s1) = next_fault s in fault_law (q s.now s.working) b s s1 (next_fault-Taken s).0;
  now-execute = λ q s.
      let (b, s1) = next_fault s in (now_law (q s.now s.working) b s s1 (next_fault-Taken s)).0;
  commit_law = λ s. let (b, s1) = next_fault s in commit_law b s s1 (next_fault-Taken s);
  rollback_law = λ s. let (b, s1) = next_fault s in rollback_law b s s1 (next_fault-Taken s);
}

abbrev pub channels : (T : Type 0) → Channels (server T)
channels T = record {
  feed = λ s. s.feed;
  publish = server_publish;
  publish_law =
      λ i text s. let (b, s1) = next_fault s in publish_law i text b s s1 (next_fault-Taken s);
  committed-publish = λ i text s.
      let (b, s1) = next_fault s in
      kept (λ s. s.committed) b unexpected s s1 _ (next_fault-Taken s).0 (next_fault-Taken s).0;
  feed-execute = λ q s.
      let (b, s1) = next_fault s in (now_law (q s.now s.working) b s s1 (next_fault-Taken s)).1;
  feed-commit = λ s.
      let (b, s1) = next_fault s in
      kept (λ s. s.feed) b sql_error s s1 _ (next_fault-Taken s).3 (next_fault-Taken s).3;
  feed-rollback = λ s.
      let (b, s1) = next_fault s in
      kept (λ s. s.feed) b sql_error s s1 _ (next_fault-Taken s).3 (next_fault-Taken s).3;
}
