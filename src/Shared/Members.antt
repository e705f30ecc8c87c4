-- ===== src/Shared/Members.antt =====
-- Which rows a query can give: membership through the parts of a SELECT.
use s1t_python_backend_templ.Base.{
  ℕ, zero, suc, ◌≡◌, ap, ◌⊎◌, inl, inr, Bool, true, false, List, [], ◌∷◌, ◌++◌, map, take, keep,
  if◌then◌else◌,
}
use s1t_python_backend_templ.Shared.Sql.{place, order_by}

abbrev pub In : {A : Type 0} → A → List A → Type 0
In x [] = ⊥
In x (y ∷ ys) = (x ≡ y) ⊎ In x ys

pub In-map : {A B : Type 0} (f : A → B) (x : A) (xs : List A) → In x xs → In (f x) (map f xs)
In-map f x [] h = absurd h
In-map f x (y ∷ xs) (inl e) = inl (ap f e)
In-map f x (y ∷ xs) (inr h) = inr (In-map f x xs h)

module _ {A : Type 0} (x : A) where
  pub In-append : (xs ys : List A) → In x xs → In x (xs ++ ys)
  In-append [] ys h = absurd h
  In-append (y ∷ xs) ys (inl e) = inl e
  In-append (y ∷ xs) ys (inr h) = inr (In-append xs ys h)

  pub In-append_right : (xs ys : List A) → In x ys → In x (xs ++ ys)
  In-append_right [] ys h = h
  In-append_right (y ∷ xs) ys h = inr (In-append_right xs ys h)

  pub In-if : (b : Bool) (xs ys : List A) → In x (if b then xs else ys) → In x xs ⊎ In x ys
  In-if true xs ys h = inl h
  In-if false xs ys h = inr h

  pub In-take : (n : ℕ) (xs : List A) → In x (take n xs) → In x xs
  In-take zero xs h = absurd h
  In-take (suc n) [] h = h
  In-take (suc n) (y ∷ xs) (inl e) = inl e
  In-take (suc n) (y ∷ xs) (inr h) = inr (In-take n xs h)

  In-place :
      (before : A → A → Bool) (y : A) (xs : List A) → In x (place before y xs) → (x ≡ y) ⊎ In x xs
  In-place before y [] h = h
  In-place before y (z ∷ xs) h = elim (In-if (before y z) (y ∷ z ∷ xs) (z ∷ place before y xs) h) [
    | inl k ↦ k
    | inr (inl e) ↦ inr (inl e)
    | inr (inr k) ↦ elim (In-place before y xs k) [ inl e ↦ inl e | inr m ↦ inr (inr m) ]
  ]

  pub In-order_by : (before : A → A → Bool) (xs : List A) → In x (order_by before xs) → In x xs
  In-order_by before [] h = h
  In-order_by before (y ∷ xs) h = elim (In-place before y (order_by before xs) h) [
    | inl e ↦ inl e
    | inr r ↦ inr (In-order_by before xs r)
  ]

  pub In-keep : (p : A → Bool) (xs : List A) → In x (keep p xs) → In x xs
  In-keep p [] h = h
  In-keep p (y ∷ xs) h = elim (In-if (p y) (y ∷ keep p xs) (keep p xs) h) [
    | inl (inl e) ↦ inl e
    | inl (inr k) ↦ inr (In-keep p xs k)
    | inr k ↦ inr (In-keep p xs k)
  ]
