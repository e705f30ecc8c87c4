-- ===== src/Media/Statements.antt =====
-- The SQL statements of media_example/ports/driven (sql_video_repo.py, sql_outbox_repo.py and
-- sql_idempotency_store.py), and the reading of rows back into the domain.
use s1t_python_backend_templ.Base.{
  ℕ, String, Bool, true, false, ◌&&◌, List, [], ◌∷◌, ◌++◌, Option, none, some, Result, ok, err, any,
  take, ◌==◌, ◌is◌, if◌then◌else◌,
}
use s1t_python_backend_templ.Shared.Errors.{Error, integrity_error}
use s1t_python_backend_templ.Shared.Sql.{select_where, order_by, update_where, rowcount}
use s1t_python_backend_templ.Shared.Postgres.{Statement}
use s1t_python_backend_templ.Shared.Pagination.{before, keyset_older_than}
use s1t_python_backend_templ.Media.Video.{Video, value, video_status, reconstitute}
use s1t_python_backend_templ.Media.Tables.{VideoRow, OutboxRow, IdempotencyRow, Snapshot, Tables}

-- `deleted_at IS NULL`
abbrev pub is_active : VideoRow → Bool
is_active r = elim r.deleted_at [ none ↦ true | some _ ↦ false ]

abbrev pub has_id : ℕ → VideoRow → Bool
has_id i r = r.id == i

-- `_to_domain`
unfoldable pub to_domain : VideoRow → Result Error Video
unfolding video_status reconstitute
to_domain r = elim (video_status r.status) [
  | ok s ↦ ok (reconstitute r.id r.source_key s r.uploaded_at (some r.document))
  | err e ↦ err e
]

abbrev pub row_to_domain : Option VideoRow → Result Error (Option Video)
row_to_domain none = ok none
row_to_domain (some r) = elim (to_domain r) [ ok v ↦ ok (some v) | err e ↦ err e ]

abbrev pub rows_to_domain : List VideoRow → Result Error (List Video)
rows_to_domain [] = ok []
rows_to_domain (r ∷ rs) =
    let rest = rows_to_domain rs in
    elim (to_domain r) [ ok v ↦ elim rest [ ok vs ↦ ok (v ∷ vs) | err e ↦ err e ] | err e ↦ err e ]

abbrev pub position : VideoRow → ℕ × ℕ
position r = (r.uploaded_at, r.id)

abbrev pub newer : VideoRow → VideoRow → Bool
newer r r' = before (position r') (position r)

-- The WHERE of list_page, with the keyset clause if there is a cursor.
abbrev pub on_page : Option (ℕ × ℕ) → VideoRow → Bool
on_page none r = is_active r
on_page (some after) r = is_active r && keyset_older_than (position r) after

abbrev pub has_key : String → IdempotencyRow → Bool
has_key key r = r.key is key

module _ {Payload : Type 0} where
  -- The upsert of SqlVideoRepo.save: on a conflict it sets `status` and `updated_at` alone.
  unfoldable pub save_stmt : Video → Statement (Tables Payload) (Unit {0})
  save_stmt v now t = ok (
    tt,
    record t {
      videos =
          if any (has_id v.id) t.videos
          then update_where (has_id v.id)
              (λ r. record r { status = value v.status; updated_at = now }) t.videos
          else record {
            id = v.id;
            source_key = v.source_key;
            status = value v.status;
            uploaded_at = v.uploaded_at;
            document = v.document;
            created_at = now;
            updated_at = now;
            deleted_at = none;
          }
            ∷ t.videos;
    },
  )

  unfoldable pub get_by_id_stmt : ℕ → Statement (Tables Payload) (List VideoRow)
  get_by_id_stmt i now t = ok (select_where (λ r. has_id i r && is_active r) t.videos, t)

  unfoldable pub list_page_stmt : Option (ℕ × ℕ) → ℕ → Statement (Tables Payload) (List VideoRow)
  list_page_stmt after limit now t =
      ok (take limit (order_by newer (select_where (on_page after) t.videos)), t)

  -- The UPDATE of soft_delete, and its rowcount; `onupdate` of the mixin sets `updated_at`.
  unfoldable pub soft_delete_stmt : ℕ → Statement (Tables Payload) ℕ
  soft_delete_stmt i now t =
      let p = λ (r : VideoRow). has_id i r && is_active r in
      ok (
        rowcount p t.videos,
        record t {
          videos =
              update_where p (λ r. record r { deleted_at = some now; updated_at = now }) t.videos;
        },
      )

  -- The INSERT ... ON CONFLICT DO NOTHING RETURNING key of `claim`: the keys that it returns.
  unfoldable pub claim_stmt :
      String → String → Snapshot → ℕ → Statement (Tables Payload) (List String)
  claim_stmt key fingerprint response expires_at now t =
      if any (has_key key) t.idempotency_keys
      then ok ([], t)
      else ok (
        key ∷ [],
        record t {
          idempotency_keys =
              record {
                key = key;
                fingerprint = fingerprint;
                response = response;
                created_at = now;
                expires_at = expires_at;
              }
              ∷ t.idempotency_keys;
        },
      )

  unfoldable pub find_stmt : String → Statement (Tables Payload) (List IdempotencyRow)
  find_stmt key now t = ok (select_where (has_key key) t.idempotency_keys, t)

  -- INSERT of one outbox row; its id is the primary key.
  unfoldable pub add_stmt : ℕ → String → Payload → Statement (Tables Payload) (Unit {0})
  add_stmt i event_type payload now t =
      if any (λ (r : OutboxRow Payload). r.id == i) t.outbox_messages
      then err integrity_error
      else ok (
        tt,
        record t {
          outbox_messages =
              t.outbox_messages
              ++ record {
                id = i;
                event_type = event_type;
                payload = payload;
                created_at = now;
                sent_at = none;
              }
                ∷ [];
        },
      )
