-- ===== src/Shared/Pagination/Pages.antt =====
-- Rows newest first, page after page: a page begins where the one before it ended.
use s1t_python_backend_templ.Base.{
  subst, ℕ, ◌≡◌, refl, ap, sym, ◌∙◌, inl, inr, Bool, true, false, ◌&&◌, Bool-cases, List, [], ◌∷◌,
  ◌++◌, Option, none, some, keep, All, ◌==◌, arith, if◌then◌else◌,
}
use s1t_python_backend_templ.Shared.Sql.{place, order_by}
use s1t_python_backend_templ.Shared.Pagination.{before}

before_trans : (a b c : ℕ × ℕ) → before a b ≡ true → before b c ≡ true → before a c ≡ true
before_trans (t, i) (u, j) (v, k) h h' = ground arith

before_asym : (a b : ℕ × ℕ) → before a b ≡ true → before b a ≡ false
before_asym (t, i) (u, j) h = ground arith

before_irrefl : (a : ℕ × ℕ) → before a a ≡ false
before_irrefl (t, i) = ground arith

before_total : (a b : ℕ × ℕ) → (a.1 == b.1) ≡ false → before a b ≡ false → before b a ≡ true
before_total (t, i) (u, j) h h' = ground arith

module _ {Row : Type 0} (position : Row → ℕ × ℕ) where
  abbrev pub newer_first : Row → Row → Bool
  newer_first r r' = before (position r') (position r)

  -- Each row is newer than those behind it.
  abbrev IsSorted : List Row → Type 0
  IsSorted [] = Unit {0}
  IsSorted (r ∷ rows) = All (λ x. newer_first r x ≡ true) rows × IsSorted rows

  -- No identifier stands twice.
  abbrev pub IdsDiffer : List Row → Type 0
  IdsDiffer [] = Unit {0}
  IdsDiffer (r ∷ rows) = All (λ x. ((position x).1 == (position r).1) ≡ false) rows × IdsDiffer rows

  module _ (P : Row → Type 0) where
    All-keep : (q : Row → Bool) (rows : List Row) → All P rows → All P (keep q rows)
    All-keep q [] h = tt
    All-keep q (r ∷ rows) h = elim (Bool-cases (q r)) [
      | inl e ↦ rw e (h.0, All-keep q rows h.1)
      | inr e ↦ rw e (All-keep q rows h.1)
    ]

    All-place : (r : Row) (rows : List Row) → P r → All P rows → All P (place newer_first r rows)
    All-place r [] h k = (h, tt)
    All-place r (x ∷ rows) h k = elim (Bool-cases (newer_first r x)) [
      | inl e ↦ rw e (h, k)
      | inr e ↦ rw e (k.0, All-place r rows h k.1)
    ]

    All-order_by : (rows : List Row) → All P rows → All P (order_by newer_first rows)
    All-order_by [] h = tt
    All-order_by (r ∷ rows) h = All-place r (order_by newer_first rows) h.0 (All-order_by rows h.1)

  All-newer :
      (r x : Row) (rows : List Row)
      → newer_first r x ≡ true
      → All (λ y. newer_first x y ≡ true) rows
      → All (λ y. newer_first r y ≡ true) rows
  All-newer r x [] e h = tt
  All-newer r x (y ∷ rows) e h =
      (before_trans (position y) (position x) (position r) h.0 e, All-newer r x rows e h.1)

  place-IsSorted :
      (r : Row) (rows : List Row)
      → All (λ x. ((position x).1 == (position r).1) ≡ false) rows
      → IsSorted rows
      → IsSorted (place newer_first r rows)
  place-IsSorted r [] d s = (tt, tt)
  place-IsSorted r (x ∷ rows) d s = elim (Bool-cases (newer_first r x)) [
    | inl e ↦ rw e ((e, All-newer r x rows e s.0), s)
    | inr e ↦
        let other : newer_first x r ≡ true = before_total (position x) (position r) d.0 e in
        rw e
          (All-place (λ y. newer_first x y ≡ true) r rows other s.0, place-IsSorted r rows d.1 s.1)
  ]

  order_by-IsSorted : (rows : List Row) → IdsDiffer rows → IsSorted (order_by newer_first rows)
  order_by-IsSorted [] d = tt
  order_by-IsSorted (r ∷ rows) d =
      place-IsSorted r (order_by newer_first rows)
        (All-order_by (λ x. ((position x).1 == (position r).1) ≡ false) rows d.0)
        (order_by-IsSorted rows d.1)

  keep-IdsDiffer : (q : Row → Bool) (rows : List Row) → IdsDiffer rows → IdsDiffer (keep q rows)
  keep-IdsDiffer q [] d = tt
  keep-IdsDiffer q (r ∷ rows) d = elim (Bool-cases (q r)) [
    | inl e ↦ rw e (
      All-keep (λ x. ((position x).1 == (position r).1) ≡ false) q rows d.0,
      keep-IdsDiffer q rows d.1,
    )
    | inr e ↦ rw e (keep-IdsDiffer q rows d.1)
  ]

  place_first :
      (r : Row) (rows : List Row)
      → All (λ x. newer_first r x ≡ true) rows
      → place newer_first r rows ≡ r ∷ rows
  place_first r [] h = refl
  place_first r (x ∷ rows) h = rw h.0 refl

  -- A row that goes behind `x` does so after a filter too.
  behind :
      (q : Row → Bool) (r x : Row) (rows : List Row)
      → newer_first r x ≡ false
      → (let rest = if q r then place newer_first r (keep q rows) else keep q rows in
          (if q x then x ∷ rest else rest)
          ≡ (if q r then place newer_first r (keep q (x ∷ rows)) else keep q (x ∷ rows)))
  behind q r x rows e = elim (Bool-cases (q x)) [
    | inl k ↦ elim (Bool-cases (q r)) [ inl m ↦ rw (k, m, e) refl | inr m ↦ rw (k, m) refl ]
    | inr k ↦ rw k refl
  ]

  keep-place :
      (q : Row → Bool) (r : Row) (rows : List Row)
      → IsSorted rows
      → keep q (place newer_first r rows)
        ≡ (if q r then place newer_first r (keep q rows) else keep q rows)
  keep-place q r [] s = refl
  keep-place q r (x ∷ rows) s = elim (Bool-cases (newer_first r x)) [
    | inl e ↦
        let ahead : place newer_first r (keep q (x ∷ rows)) ≡ r ∷ keep q (x ∷ rows) =
          place_first r (keep q (x ∷ rows))
            (All-keep (λ y. newer_first r y ≡ true) q (x ∷ rows) (e, All-newer r x rows e s.0)) in
        rw (e, ahead) refl
    | inr e ↦ rw (e, keep-place q r rows s.1) (behind q r x rows e)
  ]

  keep-order_by :
      (q : Row → Bool) (rows : List Row)
      → IdsDiffer rows
      → keep q (order_by newer_first rows) ≡ order_by newer_first (keep q rows)
  keep-order_by q [] d = refl
  keep-order_by q (r ∷ rows) d =
      keep-place q r (order_by newer_first rows) (order_by-IsSorted rows d.1)
      ∙ elim (Bool-cases (q r)) [
        | inl e ↦ rw (e, keep-order_by q rows d.1) refl
        | inr e ↦ rw (e, keep-order_by q rows d.1) refl
      ]

  keep-All : (q : Row → Bool) (rows : List Row) → All (λ x. q x ≡ true) rows → keep q rows ≡ rows
  keep-All q [] h = refl
  keep-All q (r ∷ rows) h = rw (h.0, keep-All q rows h.1) refl

  All-at :
      (P : Row → Type 0) (front : List Row) (l : Row) (back : List Row)
      → All P (front ++ l ∷ back)
      → P l
  All-at P [] l back h = h.0
  All-at P (f ∷ front) l back h = All-at P front l back h.1

  -- In sorted rows, those older than a row are those behind it.
  keep_behind :
      (front : List Row) (l : Row) (back : List Row)
      → IsSorted (front ++ l ∷ back)
      → keep (newer_first l) (front ++ l ∷ back) ≡ back
  keep_behind [] l back s = rw (before_irrefl (position l)) (keep-All (newer_first l) back s.0)
  keep_behind (f ∷ front) l back s =
      let ahead = All-at (λ x. newer_first f x ≡ true) front l back s.0 in
      rw (before_asym (position l) (position f) ahead) (keep_behind front l back s.1)

  keep-and :
      (p q : Row → Bool) (rows : List Row) → keep (λ r. q r && p r) rows ≡ keep p (keep q rows)
  keep-and p q [] = refl
  keep-and p q (r ∷ rows) = elim (Bool-cases (q r)) [
    | inl e ↦ rw (e, keep-and p q rows) refl
    | inr e ↦ rw (e, keep-and p q rows) refl
  ]

  keep_same :
      (p q : Row → Bool) (rows : List Row) → ((r : Row) → p r ≡ q r) → keep p rows ≡ keep q rows
  keep_same p q [] h = refl
  keep_same p q (r ∷ rows) h = rw (h r, keep_same p q rows h) refl

  module _ (active : Row → Bool) (rows : List Row) (d : IdsDiffer rows) where
    -- The rows from a cursor on.
    abbrev pub listed : Option (ℕ × ℕ) → Row → Bool
    listed none r = active r
    listed (some after) r = active r && before (position r) after

    abbrev pub sorted_from : Option (ℕ × ℕ) → List Row
    sorted_from after = order_by newer_first (keep (listed after) rows)

    rest_older :
        (q : Row → Bool) (front : List Row) (l : Row) (back : List Row)
        → order_by newer_first (keep q rows) ≡ front ++ l ∷ back
        → order_by newer_first (keep (λ r. q r && newer_first l r) rows) ≡ back
    rest_older q front l back e =
        let sorted : IsSorted (front ++ l ∷ back) =
          subst IsSorted e (order_by-IsSorted (keep q rows) (keep-IdsDiffer q rows d)) in
        ap (order_by newer_first) (keep-and (newer_first l) q rows)
        ∙ sym (keep-order_by (newer_first l) (keep q rows) (keep-IdsDiffer q rows d))
        ∙ ap (keep (newer_first l)) e
        ∙ keep_behind front l back sorted

    kept_true : (q : Row → Bool) (rows : List Row) → All (λ r. q r ≡ true) (keep q rows)
    kept_true q [] = tt
    kept_true q (r ∷ rows) = elim (Bool-cases (q r)) [
      | inl e ↦ rw e (e, kept_true q rows)
      | inr e ↦ rw e (kept_true q rows)
    ]

    narrower :
        (a : Bool) (r l c : ℕ × ℕ)
        → before l c ≡ true
        → (a && before r l) ≡ ((a && before r c) && before r l)
    narrower false r l c h = refl
    narrower true r l c h = elim (Bool-cases (before r l)) [
      | inl e ↦ rw (e, before_trans r l c e h) refl
      | inr e ↦ rw e (elim (Bool-cases (before r c)) [ inl k ↦ rw k refl | inr k ↦ rw k refl ])
    ]

    and_right : (a b : Bool) → (a && b) ≡ true → b ≡ true
    and_right true b h = h
    and_right false b h = absurd (cc)

    -- The rows from the cursor of a row on are those behind it.
    pub next_rows :
        (after : Option (ℕ × ℕ)) (front : List Row) (l : Row) (back : List Row)
        → sorted_from after ≡ front ++ l ∷ back
        → sorted_from (some (position l)) ≡ back
    next_rows none front l back e = rest_older active front l back e
    next_rows (some c) front l back e =
        let all : All (λ r. listed (some c) r ≡ true) (front ++ l ∷ back) =
          subst (All (λ r. listed (some c) r ≡ true)) e (
            All-order_by (λ r. listed (some c) r ≡ true) (keep (listed (some c)) rows)
              (kept_true (listed (some c)) rows)) in
        let inside : before (position l) c ≡ true =
          and_right (active l) (before (position l) c)
            (All-at (λ r. listed (some c) r ≡ true) front l back all) in
        ap (order_by newer_first) (
          keep_same (listed (some (position l))) (λ r. listed (some c) r && newer_first l r) rows
            (λ r. narrower (active r) (position r) (position l) c inside))
        ∙ rest_older (listed (some c)) front l back e
