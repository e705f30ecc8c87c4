-- ===== src/Admin/Log/Reader/Growth.antt =====
-- A file that grows, and the last lines of the lines before the last.
use s1t_python_backend_templ.Base.{
  ℕ, zero, suc, ◌+◌, ◌-◌, ◌≤◌, ◌≡◌, refl, ap, ◌∙◌, List, [], ◌∷◌, ◌++◌, length, take, drop, arith,
}
use s1t_python_backend_templ.Admin.Log.Bytes.{
  Bytes, bytes_of, complete_lines, last_of_lines, before_last,
}
use s1t_python_backend_templ.Admin.Log.Bytes.Lines.{bytes_of-take-drop}
use s1t_python_backend_templ.Admin.Log.Bytes.Cuts.{bytes_of-le}

-- Bytes are only ever added at the end.
abbrev pub Grows : (ℕ → Bytes) → Type 0
Grows content = (t : ℕ) → (added : Bytes) × (content (suc t) ≡ content t ++ added)

take-take : (a b : ℕ) (ls : List Bytes) → a ≤ b → take a (take b ls) ≡ take a ls
take-take zero b ls h = refl
take-take (suc a) zero ls h = absurd (omega arith)
take-take (suc a) (suc b) [] h = refl
take-take (suc a) (suc b) (l ∷ ls) h = ap (◌∷◌ l) (take-take a b ls (omega arith))

length-take : (k : ℕ) (ls : List Bytes) → k ≤ length ls → length (take k ls) ≡ k
length-take zero ls h = refl
length-take (suc k) [] h = absurd (omega arith)
length-take (suc k) (l ∷ ls) h = omega (arith, length-take k ls)

drop-take-append : (a b : ℕ) (ls : List Bytes) → a ≤ b → drop a (take b ls) ++ drop b ls ≡ drop a ls
drop-take-append zero zero ls h = refl
drop-take-append (suc a) zero ls h = absurd (omega arith)
drop-take-append zero (suc b) [] h = refl
drop-take-append (suc a) (suc b) [] h = refl
drop-take-append zero (suc b) (l ∷ ls) h = ap (◌∷◌ l) (drop-take-append zero b ls (omega arith))
drop-take-append (suc a) (suc b) (l ∷ ls) h = drop-take-append a b ls (omega arith)

-- The last lines are those before the last few, and these.
pub last_split :
    (a b : ℕ) (ls : List Bytes)
    → last_of_lines b (before_last a ls) ++ last_of_lines a ls ≡ last_of_lines (a + b) ls
last_split a b ls =
    let e : length (take (length ls - a) ls) - b ≡ length ls - (a + b) =
      rw (length-take (length ls - a) ls (omega arith)) (omega arith) in
    rw e (drop-take-append (length ls - (a + b)) (length ls - a) ls (omega arith))

take-append : (n : ℕ) (xs ys : Bytes) → n ≤ length xs → take n (xs ++ ys) ≡ take n xs
take-append zero xs ys h = refl
take-append (suc n) [] ys h = absurd (omega arith)
take-append (suc n) (x ∷ xs) ys h = ap (◌∷◌ x) (take-append n xs ys (omega arith))

length-append-le : (xs ys : Bytes) → length xs ≤ length (xs ++ ys)
length-append-le [] ys = omega arith
length-append-le (x ∷ xs) ys = omega (arith, length-append-le xs ys)

pub last_none : (ls : List Bytes) → last_of_lines 0 ls ≡ []
last_none [] = refl
last_none (l ∷ ls) =
    let e : suc (length ls) - 0 ≡ suc (length ls - 0) = omega arith in rw e (last_none ls)

pub before_last-take :
    (n k : ℕ) (ls : List Bytes) → k ≤ length ls → before_last n (take k ls) ≡ take (k - n) ls
before_last-take n k ls h = rw (length-take k ls h) (take-take (k - n) k ls (omega arith))

module _ (content : ℕ → Bytes) (grows : Grows content) (start : ℕ) where
  -- What stood there stays.
  kept_length : (d : ℕ) → length (content start) ≤ length (content (start + d))
  kept_length zero = let e : start + 0 ≡ start = omega arith in rw e (omega arith)
  kept_length (suc d) =
      let e : start + suc d ≡ suc (start + d) = omega arith in
      let (added, more) = grows (start + d) in
      rw (e, more) (omega (arith, kept_length d, length-append-le (content (start + d)) added))

  kept_take :
      (d n : ℕ) → n ≤ length (content start) → take n (content (start + d)) ≡ take n (content start)
  kept_take zero n h = let e : start + 0 ≡ start = omega arith in rw e refl
  kept_take (suc d) n h =
      let e : start + suc d ≡ suc (start + d) = omega arith in
      let (added, more) = grows (start + d) in
      rw (e, more)
        (take-append n (content (start + d)) added (omega (arith, kept_length d)) ∙ kept_take d n h)

  pub later_length : (t : ℕ) → start ≤ t → length (content start) ≤ length (content t)
  later_length t h =
      let e : start + (t - start) ≡ t = omega arith in rw e at (kept_length (t - start))

  pub later_take :
      (t n : ℕ)
      → start ≤ t
      → n ≤ length (content start)
      → take n (content t) ≡ take n (content start)
  later_take t n h k =
      let e : start + (t - start) ≡ t = omega arith in rw e at (kept_take (t - start) n k)

pub upto-le : (k : ℕ) (bs : Bytes) → bytes_of (take k (complete_lines bs)) ≤ length bs
upto-le k bs = omega (arith, bytes_of-le bs, bytes_of-take-drop k (complete_lines bs))
