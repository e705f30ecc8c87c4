-- ===== src/Shared/Pagination/Walk.antt =====
-- A caller that reads page after page, each from the cursor of the last row of the one before.
use s1t_python_backend_templ.Base.{
  ℕ, zero, suc, ◌+◌, ◌≤◌, ◌≡◌, refl, ap, ◌⊎◌, inl, inr, Bool, List, [], ◌∷◌, ◌++◌, Option, none,
  some, take, drop, All, arith,
}
use s1t_python_backend_templ.Shared.Pagination.Pages.{IdsDiffer, sorted_from, next_rows}

abbrev pub total : List ℕ → ℕ
total [] = 0
total (n ∷ ns) = n + total ns

module _ {Row : Type 0} (position : Row → ℕ × ℕ) where
  abbrev pub last_row : List Row → Option Row
  last_row [] = none
  last_row (r ∷ []) = some r
  last_row (r ∷ r' ∷ rows) = last_row (r' ∷ rows)

  -- The pages of some limits, one after another; an empty page is the last.
  abbrev pub walk : (Option (ℕ × ℕ) → ℕ → List Row) → List ℕ → Option (ℕ × ℕ) → List Row
  walk page [] after = []
  walk page (n ∷ ns) after =
      page after n
      ++ elim (last_row (page after n)) [ none ↦ [] | some l ↦ walk page ns (some (position l)) ]

  -- A page of some rows: nothing is there, or it has a last row.
  abbrev Cut : ℕ → List Row → Type 0
  Cut n rows =
      (rows ≡ [])
      ⊎ ((front : List Row) × (l : Row) × (rows ≡ front ++ l ∷ drop n rows)
          × (last_row (take n rows) ≡ some l))

  Cut-more :
      (n : ℕ) (x y : Row) (rows : List Row)
      → Cut (suc n) (y ∷ rows)
      → Cut (suc (suc n)) (x ∷ y ∷ rows)
  Cut-more n x y rows (inl e) = absurd (cc)
  Cut-more n x y rows (inr (front, l, e, k)) = inr (x ∷ front, l, ap (◌∷◌ x) e, k)

  cut : (n : ℕ) (rows : List Row) → Cut (suc n) rows
  cut n [] = inl refl
  cut zero (x ∷ rows) = inr ([], x, refl, refl)
  cut (suc n) (x ∷ []) = inr ([], x, refl, refl)
  cut (suc n) (x ∷ y ∷ rows) = Cut-more n x y rows (cut n (y ∷ rows))

  take-add : (n k : ℕ) (rows : List Row) → take n rows ++ take k (drop n rows) ≡ take (n + k) rows
  take-add zero k rows = let e : 0 + k ≡ k = omega arith in rw e refl
  take-add (suc n) zero [] = let e : suc n + 0 ≡ suc n = omega arith in rw e refl
  take-add (suc n) (suc k) [] = let e : suc n + suc k ≡ suc (n + suc k) = omega arith in rw e refl
  take-add (suc n) k (x ∷ rows) =
      let e : suc n + k ≡ suc (n + k) = omega arith in rw e (ap (◌∷◌ x) (take-add n k rows))

  take-nil : (n : ℕ) → take {A = Row} n [] ≡ []
  take-nil zero = refl
  take-nil (suc n) = refl

  module _ (active : Row → Bool) (rows : List Row) (d : IdsDiffer position rows)
      (page : Option (ℕ × ℕ) → ℕ → List Row)
      (pages : (after : Option (ℕ × ℕ)) (n : ℕ)
        → page after n ≡ take n (sorted_from position active rows d after)) where
    abbrev from : Option (ℕ × ℕ) → List Row
    from = sorted_from position active rows d

    -- Any pages of positive limits are the first rows, each once, in order.
    pub walk-eq :
        (ns : List ℕ) (after : Option (ℕ × ℕ))
        → All (λ n. 1 ≤ n) ns
        → walk page ns after ≡ take (total ns) (from after)
    walk-eq [] after h = refl
    walk-eq (zero ∷ ns) after h = absurd (omega (arith, h.0))
    walk-eq (suc n ∷ ns) after h = elim (cut n (from after)) [
      | inl e ↦ rw (pages after (suc n), e, take-nil (suc n + total ns)) refl
      | inr (front, l, e, k) ↦
          let rest : from (some (position l)) ≡ drop (suc n) (from after) =
            next_rows position active rows d after front l (drop (suc n) (from after)) e in
          rw (pages after (suc n), k, walk-eq ns (some (position l)) h.1, rest)
            (take-add (suc n) (total ns) (from after))
    ]
