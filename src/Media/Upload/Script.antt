-- ===== src/Media/Upload/Script.antt =====
-- What the transaction of an upload does to the tables, as a script and in closed form.
use s1t_python_backend_templ.Base.{
  ℕ, ◌+◌, String, Bool, true, false, List, [], ◌∷◌, Option, none, some, ok,
}
use s1t_python_backend_templ.Shared.Texts.{Texts}
use s1t_python_backend_templ.Shared.Sql.{scalar_one_or_none}
use s1t_python_backend_templ.Shared.Postgres.{Postgres, Statement}
use s1t_python_backend_templ.Shared.Transactions.{
  returns, script_bind, Follows, Follows-execute, Follows-lift, Follows-bind,
}
use s1t_python_backend_templ.Media.Video.{Video, VideoUploaded, collect_events}
use s1t_python_backend_templ.Media.Tables.{Tables}
use s1t_python_backend_templ.Media.Statements.{save_stmt, claim_stmt, add_stmt}
use s1t_python_backend_templ.Media.Repo.{
  VideoUploadedIntegration, Draws, snapshot, seconds, is_some, save, add, claim, sql_video_repo,
  sql_outbox_repo, sql_idempotency_store, sql_uow,
}
use s1t_python_backend_templ.Media.UseCases.{register, claim_if_keyed, save_if, add_all}

module _ {Payload : Type 0} (texts : Texts) (encode : VideoUploadedIntegration → Payload)
    (ttl_seconds : ℕ) (draws : Draws) where
  abbrev pub integration : VideoUploaded → VideoUploadedIntegration
  integration event = record {
    event_id = draws.event_id;
    occurred_at = draws.occurred_at;
    version = 1;
    event_type = "video_uploaded";
    video_id = event.video_id;
    source_key = event.source_key;
    uploaded_at = event.uploaded_at;
  }

  add_script : VideoUploaded → Statement (Tables Payload) (Unit {0})
  add_script event = add_stmt draws.event_id "video_uploaded" (encode (integration event))

  add_all_script : List VideoUploaded → Statement (Tables Payload) (Unit {0})
  add_all_script [] = returns (ok tt)
  add_all_script (e ∷ es) = script_bind (add_script e) (λ _. add_all_script es)

  claim_script : String → String → Video → Statement (Tables Payload) Bool
  claim_script key print v =
      script_bind (claim_stmt key print (snapshot texts v) (draws.claimed_at + seconds ttl_seconds))
        (λ keys.
          script_bind (returns (scalar_one_or_none keys)) (λ row. returns (ok (is_some row))))

  claim_if_keyed_script : Option String → String → Video → Statement (Tables Payload) Bool
  claim_if_keyed_script none print v = returns (ok true)
  claim_if_keyed_script (some key) print v = claim_script key print v

  save_if_script : Bool → Video → Statement (Tables Payload) (Unit {0})
  save_if_script false v = returns (ok tt)
  save_if_script true v = script_bind (save_stmt v) (λ _. add_all_script (collect_events v).0)

  unfoldable pub register_script : Option String → String → Video → Statement (Tables Payload) Bool
  unfolding claim_if_keyed_script save_if_script claim_script add_all_script add_script
  register_script key print v =
      script_bind (claim_if_keyed_script key print v)
        (λ claimed. script_bind (save_if_script claimed v) (λ _. returns (ok claimed)))

  module _ (pg : Postgres (Tables Payload)) where
    Follows-add : (e : VideoUploaded) → Follows pg (add_script e) (add pg encode draws e)
    unfolding add_script add
    Follows-add e = Follows-execute pg _

    Follows-add_all :
        (es : List VideoUploaded)
        → Follows pg (add_all_script es) (add_all (sql_outbox_repo pg encode draws) es)
    unfolding add_all_script
    Follows-add_all [] = Follows-lift pg (ok tt)
    Follows-add_all (e ∷ es) = Follows-bind pg (Follows-add e) (λ _. Follows-add_all es)

    Follows-claim :
        (key print : String) (v : Video)
        → Follows pg (claim_script key print v) (claim pg texts ttl_seconds draws key print v)
    unfolding claim_script claim
    Follows-claim key print v = Follows-bind pg (Follows-execute pg _) (λ keys.
        Follows-bind pg (Follows-lift pg (scalar_one_or_none keys))
          (λ row. Follows-lift pg (ok (is_some row))))

    Follows-claim_if_keyed :
        (key : Option String) (print : String) (v : Video)
        → Follows pg (claim_if_keyed_script key print v) (
            claim_if_keyed
              (sql_video_repo pg)
              (sql_uow pg)
              (sql_outbox_repo pg encode draws)
              (sql_idempotency_store pg texts ttl_seconds draws)
              texts
              key
              print
              v)
    unfolding claim_if_keyed_script
    Follows-claim_if_keyed none print v = Follows-lift pg (ok true)
    Follows-claim_if_keyed (some key) print v = Follows-claim key print v

    Follows-save_if :
        (claimed : Bool) (v : Video)
        → Follows pg (save_if_script claimed v) (
            save_if
              (sql_video_repo pg)
              (sql_uow pg)
              (sql_outbox_repo pg encode draws)
              (sql_idempotency_store pg texts ttl_seconds draws)
              texts
              claimed
              v)
    unfolding save_if_script save
    Follows-save_if false v = Follows-lift pg (ok tt)
    Follows-save_if true v =
        Follows-bind pg (Follows-execute pg (save_stmt v))
          (λ _. Follows-add_all (collect_events v).0)

    -- The body of the transaction follows the script.
    pub Follows-register :
        (key : Option String) (print : String) (v : Video)
        → Follows pg (register_script key print v) (
            register
              (sql_video_repo pg)
              (sql_uow pg)
              (sql_outbox_repo pg encode draws)
              (sql_idempotency_store pg texts ttl_seconds draws)
              texts
              key
              print
              v)
    unfolding register_script register
    Follows-register key print v =
        Follows-bind pg (Follows-claim_if_keyed key print v) (λ claimed.
          Follows-bind pg (Follows-save_if claimed v) (λ _. Follows-lift pg (ok claimed)))
