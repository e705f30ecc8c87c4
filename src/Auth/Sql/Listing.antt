-- ===== src/Auth/Sql/Listing.antt =====
-- Listing accounts page by page (list_page of sql_user_repo.py), over a table that stays as it is.
use s1t_python_backend_templ.Base.{
  ℕ, ◌≤◌, ◌≡◌, refl, List, [], Option, none, some, take, All, ok, err,
}
use s1t_python_backend_templ.Shared.Sql.{order_by, select_where}
use s1t_python_backend_templ.Shared.Pagination.Pages.{IdsDiffer, sorted_from}
use s1t_python_backend_templ.Shared.Pagination.Walk.{walk, walk-eq, total}
use s1t_python_backend_templ.Auth.Sql.{UserRow, Tables, is_null, position, newer, users_page}

module _ {Payload : Type 0} (now : ℕ) (t : Tables Payload) where
  abbrev pub page_of : Option (ℕ × ℕ) → ℕ → List UserRow
  page_of after limit = elim (users_page after limit now t) [ ok p ↦ p.0 | err e ↦ [] ]

  pages :
      (d : IdsDiffer position t.users) (after : Option (ℕ × ℕ)) (n : ℕ)
      → page_of after n
        ≡ take n (sorted_from position (λ (r : UserRow). is_null r.deleted_at) t.users d after)
  unfolding users_page
  pages d none n = refl
  pages d (some after) n = refl

  -- Pages of positive limits, each from the cursor of the last row of the one before, are the
  -- active accounts newest first: none is skipped, and none comes twice.
  pub users_page-walk :
      (ns : List ℕ)
      → IdsDiffer position t.users
      → All (λ n. 1 ≤ n) ns
      → walk position page_of ns none
        ≡ take
            (total ns)
            (order_by newer (select_where (λ (r : UserRow). is_null r.deleted_at) t.users))
  users_page-walk ns d h =
      walk-eq position (λ (r : UserRow). is_null r.deleted_at) t.users d page_of (pages d) ns none h
