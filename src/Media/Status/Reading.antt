-- ===== src/Media/Status/Reading.antt =====
-- Reading one video and saving its status with the SQL ports.
use s1t_python_backend_templ.Base.{
  ℕ, ◌≡◌, refl, true, ◌&&◌, List, [], ◌∷◌, Option, some, ok, any, keep, arith,
}
use s1t_python_backend_templ.Shared.Sql.{update_where, scalar_one_or_none}
use s1t_python_backend_templ.Shared.Postgres.{Statement}
use s1t_python_backend_templ.Shared.Transactions.{returns, script_bind}
use s1t_python_backend_templ.Media.Video.{Video, VideoStatus, value}
use s1t_python_backend_templ.Media.Tables.{Tables, VideoRow}
use s1t_python_backend_templ.Media.Statements.{
  save_stmt, get_by_id_stmt, to_domain, row_to_domain, has_id, is_active,
}

any-keep :
    (i : ℕ) (rows : List VideoRow) (r : VideoRow) (rs : List VideoRow)
    → keep (λ r. has_id i r && is_active r) rows ≡ r ∷ rs
    → (r.id ≡ i) × (any (has_id i) rows ≡ true)
any-keep i [] r rs h = cc
any-keep i (x ∷ xs) r rs h = ground (arith, any-keep i xs r rs)

id-to_domain : (r : VideoRow) (v : Video) → to_domain r ≡ ok v → v.id ≡ r.id
unfolding to_domain
id-to_domain r v h = ground arith

module _ {Payload : Type 0} where
  -- The tables with the status of one video set, as the upsert of a known id does.
  abbrev pub with_status : ℕ → VideoStatus → ℕ → Tables Payload → Tables Payload
  with_status i to at t = record t {
    videos =
        update_where (has_id i) (λ r. record r { status = value to; updated_at = at }) t.videos;
  }

  unfoldable pub get_script : ℕ → Statement (Tables Payload) (Option Video)
  get_script i =
      script_bind (get_by_id_stmt i) (λ rows.
        script_bind (returns (scalar_one_or_none rows)) (λ row. returns (row_to_domain row)))

  read_some :
      (i at : ℕ) (rows : List VideoRow) (t t' : Tables Payload) (v : Video)
      → keep (λ r. has_id i r && is_active r) t.videos ≡ rows
      → script_bind (returns (scalar_one_or_none rows)) (λ row. returns (row_to_domain row)) at t
        ≡ ok (some v, t')
      → (v.id ≡ i) × (any (has_id i) t.videos ≡ true) × (t' ≡ t)
  read_some i at [] t t' v h k = ground arith
  read_some i at (r ∷ r' ∷ rs) t t' v h k = ground arith
  read_some i at (r ∷ []) t t' v h k = ground (arith, any-keep i t.videos r [], id-to_domain r v)

  -- A video that is read is the one asked for, its row is there, and the read changes nothing.
  pub get_script-eq_some :
      (i at : ℕ) (t t' : Tables Payload) (v : Video)
      → get_script i at t ≡ ok (some v, t')
      → (v.id ≡ i) × (any (has_id i) t.videos ≡ true) × (t' ≡ t)
  unfolding get_script get_by_id_stmt
  get_script-eq_some i at t t' v h = read_some i at _ t t' v refl h

  pub save_stmt-eq :
      (v : Video) (at : ℕ) (t : Tables Payload)
      → any (has_id v.id) t.videos ≡ true
      → save_stmt v at t ≡ ok (tt, with_status v.id v.status at t)
  unfolding save_stmt
  save_stmt-eq v at t h = rw h refl
