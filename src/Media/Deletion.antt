-- ===== src/Media/Deletion.antt =====
-- delete_video_uc.py with the SQL ports: the soft delete of one video.
use s1t_python_backend_templ.Base.{
  ℕ, ◌≡◌, refl, ◌∙◌, ap, sym, subst, ◌⊎◌, inl, inr, Bool, true, false, not, ◌&&◌, List, [], ◌∷◌,
  any, some, Result, ok, err, ◌>>=◌, raise_if, ltb, arith, Bool-cases, if◌then◌else◌,
}
use s1t_python_backend_templ.Shared.Errors.{Error, port_error, video_not_found}
use s1t_python_backend_templ.Shared.Sql.{update_where, rowcount}
use s1t_python_backend_templ.Shared.Postgres.{Postgres, Statement}
use s1t_python_backend_templ.Shared.Transactions.{
  returns, script_bind, Follows, Follows-execute, Follows-lift, Follows-bind, Ended,
}
use s1t_python_backend_templ.Media.Tables.{Tables, VideoRow}
use s1t_python_backend_templ.Media.Statements.{soft_delete_stmt, has_id, is_active}
use s1t_python_backend_templ.Media.Repo.{soft_delete, sql_video_repo, sql_uow}
use s1t_python_backend_templ.Media.UseCases.{delete_video_uc}
use s1t_python_backend_templ.Media.Interfaces.{finish}
use s1t_python_backend_templ.Media.UnitOfWork.{Ended-finish}

abbrev pub active_row : ℕ → VideoRow → Bool
active_row i r = has_id i r && is_active r

-- Marking a row deleted, which also sets its `updated_at`.
abbrev pub deleted_at : ℕ → VideoRow → VideoRow
deleted_at at r = record r { deleted_at = some at; updated_at = at }

rowcount-any : (p : VideoRow → Bool) (rows : List VideoRow) → ltb 0 (rowcount p rows) ≡ any p rows
rowcount-any p [] = refl
rowcount-any p (r ∷ rows) = ground (arith, rowcount-any p rows)

none_left :
    (i at : ℕ) (rows : List VideoRow)
    → any (active_row i) (update_where (active_row i) (deleted_at at) rows) ≡ false
none_left i at [] = refl
none_left i at (r ∷ rows) = ground (arith, none_left i at rows)

module _ {Payload : Type 0} (pg : Postgres (Tables Payload)) where
  open pg use {World, committed, working, now}

  abbrev pub with_deleted : ℕ → ℕ → Tables Payload → Tables Payload
  with_deleted i at t = record t { videos = update_where (active_row i) (deleted_at at) t.videos }

  abbrev refuse_if : ℕ → Bool → Result Error (Unit {0})
  refuse_if i b = elim b [ true ↦ err (video_not_found i) | false ↦ ok tt ]

  delete_script : ℕ → Statement (Tables Payload) (Unit {0})
  delete_script i =
      script_bind (script_bind (soft_delete_stmt i) (λ n. returns (ok (ltb 0 n))))
        (λ d. returns (refuse_if i (not d)))

  script_result : ℕ → ℕ → Tables Payload → Bool → Result Error (Unit {0} × Tables Payload)
  script_result i at t b = if b then ok (tt, with_deleted i at t) else err (video_not_found i)

  delete_script-eq :
      (i at : ℕ) (t : Tables Payload)
      → delete_script i at t ≡ script_result i at t (any (active_row i) t.videos)
  unfolding delete_script soft_delete_stmt script_result
  delete_script-eq i at t = elim (Bool-cases (any (active_row i) t.videos)) [
    | inl there ↦ rw (rowcount-any (active_row i) t.videos, there) refl
    | inr gone ↦ rw (rowcount-any (active_row i) t.videos, gone) refl
  ]

  -- How a deletion ended, from the tables `t`.
  abbrev pub Deletion : ℕ → ℕ → Tables Payload → Result Error (Unit {0}) × World → Type 0
  Deletion i at t (ok u, w') =
      (any (active_row i) t.videos ≡ true)
      × (committed w' ≡ with_deleted i at t)
      × (any (active_row i) (committed w').videos ≡ false)
  Deletion i at t (err e, w') =
      ((e ≡ port_error) × (committed w' ≡ with_deleted i at t))
      ⊎ ((committed w' ≡ t)
          × ((e ≡ port_error) ⊎ ((e ≡ video_not_found i) × (any (active_row i) t.videos ≡ false))))

  same_tables :
      {u a : Unit {0}} {t t' : Tables Payload}
      → ◌≡◌ {A = Result Error (Unit {0} × Tables Payload)} (ok (u, t)) (ok (a, t'))
      → t' ≡ t
  same_tables {t = t} h = sym (ap (λ r. elim r [ ok p ↦ p.1 | err e ↦ t ]) h)

  Follows-delete :
      (i : ℕ)
      → Follows pg
          (delete_script i)
          (λ w. (soft_delete pg i >>= λ d. raise_if (not d) (video_not_found i)) w)
  unfolding delete_script soft_delete
  Follows-delete i =
      Follows-bind pg
        (Follows-bind pg (Follows-execute pg (soft_delete_stmt i))
          (λ n. Follows-lift pg (ok (ltb 0 n))))
        (λ d. Follows-lift pg (refuse_if i (not d)))

  Ended-Deletion :
      (i : ℕ) (w : World) (b : Bool) (x : Result Error (Unit {0}) × World)
      → any (active_row i) (committed w).videos ≡ b
      → Ended pg (script_result i (now w) (committed w) b) w x
      → Deletion i (now w) (committed w) x
  unfolding script_result
  Ended-Deletion i w true (ok u, w') h (k, v) =
      let is : committed w' ≡ with_deleted i (now w) (committed w) = same_tables k in
      (h, is, ap (λ t. any (active_row i) t.videos) is ∙ none_left i (now w) (committed w).videos)
  Ended-Deletion i w false (ok u, w') h (k, v) = absurd (cc)
  Ended-Deletion i w true (err e, w') h (inl (p, (a, k))) = inl (p, same_tables k)
  Ended-Deletion i w false (err e, w') h (inl (p, (a, k))) = absurd (cc)
  Ended-Deletion i w true (err e, w') h (inr (inl p, c)) = inr (c, inl p)
  Ended-Deletion i w true (err e, w') h (inr (inr k, c)) = absurd (cc)
  Ended-Deletion i w false (err e, w') h (inr (inl p, c)) = inr (c, inl p)
  Ended-Deletion i w false (err e, w') h (inr (inr k, c)) = inr (c, inr (cc, h))

  -- From a fresh session: a deletion that returns found an active video with the id, has committed
  -- just the time of deletion of its row, and no row with the id is active afterwards. One that
  -- raises has committed nothing, and reports VideoNotFound only if there was none; only if
  -- COMMIT itself failed with PortError may the deletion be committed in full.
  pub delete_video_uc-Deletion :
      (i : ℕ) (w : World)
      → working w ≡ committed w
      → Deletion i (now w) (committed w) (delete_video_uc (sql_video_repo pg) (sql_uow pg) i w)
  unfolding delete_video_uc
  delete_video_uc-Deletion i w fresh =
      let body = soft_delete pg i >>= λ d. raise_if (not d) (video_not_found i) in
      Ended-Deletion i w (any (active_row i) (committed w).videos) (finish (sql_uow pg) (body w))
        refl
        (subst (λ r. Ended pg r w (finish (sql_uow pg) (body w)))
          (ap (delete_script i (now w)) fresh ∙ delete_script-eq i (now w) (committed w))
          (Ended-finish pg (delete_script i (now w) (working w)) w (body w)
            ((Follows-delete i).at w)))
