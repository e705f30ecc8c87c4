-- ===== src/Media/Listing.antt =====
-- Listing videos page by page (list_page of sql_video_repo.py), over a table that stays as it is.
use s1t_python_backend_templ.Base.{
  ℕ, ◌≤◌, ◌≡◌, refl, List, [], Option, none, some, take, All, ok, err,
}
use s1t_python_backend_templ.Shared.Sql.{order_by, select_where}
use s1t_python_backend_templ.Shared.Pagination.Pages.{IdsDiffer, sorted_from}
use s1t_python_backend_templ.Shared.Pagination.Walk.{walk, walk-eq, total}
use s1t_python_backend_templ.Media.Tables.{VideoRow, Tables}
use s1t_python_backend_templ.Media.Statements.{is_active, position, newer, list_page_stmt}

module _ {Payload : Type 0} (now : ℕ) (t : Tables Payload) where
  abbrev pub page_of : Option (ℕ × ℕ) → ℕ → List VideoRow
  page_of after limit = elim (list_page_stmt after limit now t) [ ok p ↦ p.0 | err e ↦ [] ]

  pages :
      (d : IdsDiffer position t.videos) (after : Option (ℕ × ℕ)) (n : ℕ)
      → page_of after n ≡ take n (sorted_from position is_active t.videos d after)
  unfolding list_page_stmt
  pages d none n = refl
  pages d (some after) n = refl

  -- Pages of positive limits, each from the cursor of the last row of the one before, are the
  -- active videos newest first: none is skipped, and none comes twice.
  pub list_page-walk :
      (ns : List ℕ)
      → IdsDiffer position t.videos
      → All (λ n. 1 ≤ n) ns
      → walk position page_of ns none
        ≡ take (total ns) (order_by newer (select_where is_active t.videos))
  list_page-walk ns d h = walk-eq position is_active t.videos d page_of (pages d) ns none h
