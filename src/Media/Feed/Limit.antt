-- ===== src/Media/Feed/Limit.antt =====
-- The number of open feeds, by feed_limiter.py.
use s1t_python_backend_templ.Base.{
  ℕ, suc, ◌+◌, ◌≤◌, ◌≡◌, refl, Bool, true, false, ltb, leb, arith, Bool-cases, inl, inr, ap, subst,
  if◌then◌else◌, ◌∙◌,
}
use s1t_python_backend_templ.Media.Feed.{FeedLimiter, feed_limiter, try_acquire, release}

-- A limiter in use, with the number of feeds that were admitted and are not closed yet.
pub data Feeds (n : ℕ) : FeedLimiter → ℕ → Type 0 where
  at_start : Feeds n (feed_limiter n) 0
  admitted :
      {l l' : FeedLimiter} {held : ℕ}
      → Feeds n l held
      → try_acquire l ≡ (true, l')
      → Feeds n l' (suc held)
  refused :
      {l l' : FeedLimiter} {held : ℕ}
      → Feeds n l held
      → try_acquire l ≡ (false, l')
      → Feeds n l' held
  closed : {l : FeedLimiter} {held : ℕ} → Feeds n l (suc held) → Feeds n (release l) held

abbrev pub Counted : ℕ → FeedLimiter → ℕ → Type 0
Counted n l held = (l.max_connections ≡ n) × (l.active ≡ held) × (held ≤ n)

abbrev one_more : FeedLimiter → FeedLimiter
one_more l = record l { active = l.active + 1 }

admitted_if :
    (b : Bool) (n : ℕ) (l l' : FeedLimiter) (held : ℕ)
    → Counted n l held
    → leb l.max_connections l.active ≡ b
    → ◌≡◌ {A = Bool × FeedLimiter} (if b then (false, l) else (true, one_more l)) (true, l')
    → Counted n l' (suc held)
admitted_if true n l l' held c f e = absurd (cc)
admitted_if false n l l' held (m, a, h) f e =
    let room : suc held ≤ n = ground arith in
    let counted : Counted n (one_more l) (suc held) = (m, omega arith, room) in
    subst (λ x. Counted n x (suc held)) (ap (λ y. y.1) e) counted

refused_if :
    (b : Bool) (n : ℕ) (l l' : FeedLimiter) (held : ℕ)
    → Counted n l held
    → ◌≡◌ {A = Bool × FeedLimiter} (if b then (false, l) else (true, one_more l)) (false, l')
    → Counted n l' held
refused_if true n l l' held c e = subst (λ x. Counted n x held) (ap (λ y. y.1) e) c
refused_if false n l l' held c e = absurd (cc)

admitted-Counted :
    (n : ℕ) (l l' : FeedLimiter) (held : ℕ)
    → Counted n l held
    → try_acquire l ≡ (true, l')
    → Counted n l' (suc held)
unfolding try_acquire
admitted-Counted n l l' held c e = admitted_if (leb l.max_connections l.active) n l l' held c refl e

refused-Counted :
    (n : ℕ) (l l' : FeedLimiter) (held : ℕ)
    → Counted n l held
    → try_acquire l ≡ (false, l')
    → Counted n l' held
unfolding try_acquire
refused-Counted n l l' held c e = refused_if (leb l.max_connections l.active) n l l' held c e

Feeds-Counted : {n : ℕ} {l : FeedLimiter} {held : ℕ} → Feeds n l held → Counted n l held
unfolding feed_limiter release
Feeds-Counted at_start = (refl, refl, omega arith)
Feeds-Counted (admitted f e) = admitted-Counted _ _ _ _ (Feeds-Counted f) e
Feeds-Counted (refused f e) = refused-Counted _ _ _ _ (Feeds-Counted f) e
Feeds-Counted (closed f) = let (m, a, h) = Feeds-Counted f in (m, ground arith, omega arith)

verdict : (l : FeedLimiter) → (try_acquire l).0 ≡ ltb l.active l.max_connections
unfolding try_acquire
verdict l = elim (Bool-cases (leb l.max_connections l.active)) [
  | inl full ↦ ground arith
  | inr room ↦ ground arith
]

-- A limiter in use counts the feeds that were admitted and are not closed; they are at most its
-- maximum, and it admits another exactly if there are fewer.
pub try_acquire-Counted :
    {n : ℕ} {l : FeedLimiter} {held : ℕ}
    → Feeds n l held
    → Counted n l held × ((try_acquire l).0 ≡ ltb held n)
try_acquire-Counted {n = n} {l = l} {held = held} f =
    let (m, a, h) = Feeds-Counted f in
    ((m, a, h), verdict l ∙ ap (λ k. ltb k l.max_connections) a ∙ ap (ltb held) m)
