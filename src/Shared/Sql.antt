-- ===== src/Shared/Sql.antt =====
-- What the SQL statements that the repositories build say of a table, a list of rows: WHERE,
-- ORDER BY ... DESC, LIMIT, INSERT ... ON CONFLICT, UPDATE ... WHERE and DELETE ... WHERE.
use s1t_python_backend_templ.Base.{
  ℕ, suc, Bool, not, List, [], ◌∷◌, Option, none, some, Result, ok, err, keep, if◌then◌else◌,
}
use s1t_python_backend_templ.Shared.Errors.{Error, multiple_results}

module _ {Row : Type 0} where
  -- SELECT ... WHERE
  abbrev pub select_where : (Row → Bool) → List Row → List Row
  select_where = keep

  abbrev pub place : (Row → Row → Bool) → Row → List Row → List Row
  place before x [] = x ∷ []
  place before x (y ∷ ys) =
      let rest = place before x ys in if before x y then x ∷ y ∷ ys else y ∷ rest

  -- ORDER BY: `before a b` where `a` comes first.
  abbrev pub order_by : (Row → Row → Bool) → List Row → List Row
  order_by before [] = []
  order_by before (x ∷ xs) = place before x (order_by before xs)

  -- UPDATE ... WHERE: the rows after it and the rowcount.
  abbrev pub update_where : (Row → Bool) → (Row → Row) → List Row → List Row
  update_where p f [] = []
  update_where p f (x ∷ xs) = (if p x then f x else x) ∷ update_where p f xs

  abbrev pub rowcount : (Row → Bool) → List Row → ℕ
  rowcount p [] = 0
  rowcount p (x ∷ xs) = let rest = rowcount p xs in if p x then suc rest else rest

  -- DELETE ... WHERE
  abbrev pub delete_where : (Row → Bool) → List Row → List Row
  delete_where p = keep (λ x. not (p x))

  -- result.scalar_one_or_none()
  abbrev pub scalar_one_or_none : List Row → Result Error (Option Row)
  scalar_one_or_none [] = ok none
  scalar_one_or_none (x ∷ []) = ok (some x)
  scalar_one_or_none (x ∷ y ∷ ys) = err multiple_results
