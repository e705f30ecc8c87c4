-- ===== src/Admin/Log/Bytes/Lines.antt =====
-- How lines lie in bytes: splitting, and what bytes in front change.
use s1t_python_backend_templ.Base.{
  ℕ, zero, suc, ◌+◌, ◌-◌, ◌≤◌, ◌≡◌, refl, ap, sym, ◌∙◌, Bool, true, false, List, [], ◌∷◌, ◌++◌,
  Option, none, some, length, take, drop, ◌==◌, arith, if◌then◌else◌, inl, inr, ◌⊎◌,
}
use s1t_python_backend_templ.Admin.Log.Bytes.{
  Bytes, push, split_nl, count_nl, later, or_here, rfind_nl, all_but_last, last_line, bytes_of,
  prefixed, complete_lines, last_of_lines, EndsLine,
}

length-prefixed : (c : ℕ) (ls : List Bytes) → length (prefixed c ls) ≡ length ls
length-prefixed c [] = refl
length-prefixed c (l ∷ ls) = refl

pub length-complete_lines : (bs : Bytes) → length (complete_lines bs) ≡ count_nl bs
unfolding count_nl
length-complete_lines [] = refl
length-complete_lines (c ∷ cs) =
    ground (arith, length-complete_lines cs, length-prefixed c (complete_lines cs))

split_step :
    (c : ℕ) (b : Bool) (rest r : List Bytes)
    → (rest ≡ [] → ⊥)
    → all_but_last rest ≡ r
    → all_but_last (if b then [] ∷ rest else push c rest) ≡ (if b then [] ∷ r else prefixed c r)
unfolding all_but_last
split_step c b [] r n h = absurd (n refl)
split_step c true (l ∷ []) r n h = ap (◌∷◌ []) h
split_step c true (l ∷ l' ∷ ls) r n h = ap (◌∷◌ []) h
split_step c false (l ∷ []) r n h = rw (← h) refl
split_step c false (l ∷ l' ∷ ls) r n h = rw (← h) refl

split_ne : (c : ℕ) (b : Bool) (rest : List Bytes) → (if b then [] ∷ rest else push c rest) ≡ [] → ⊥
split_ne c true rest h = cc
split_ne c false [] h = cc
split_ne c false (l ∷ ls) h = cc

pub split_nl-ne-nil : (bs : Bytes) → split_nl bs ≡ [] → ⊥
unfolding split_nl
split_nl-ne-nil [] h = cc
split_nl-ne-nil (c ∷ cs) h = split_ne c (c == 10) (split_nl cs) h

-- The complete lines are all parts of a split but the last.
pub all_but_last-split_nl : (bs : Bytes) → all_but_last (split_nl bs) ≡ complete_lines bs
unfolding split_nl
all_but_last-split_nl [] = unfold all_but_last in refl
all_but_last-split_nl (c ∷ cs) =
    split_step c (c == 10) (split_nl cs) (complete_lines cs) (split_nl-ne-nil cs)
      (all_but_last-split_nl cs)

or_here-none : (b : Bool) (o : Option ℕ) → or_here b (later o) ≡ none → (b ≡ false) × (o ≡ none)
or_here-none true none h = cc
or_here-none false none h = (refl, refl)
or_here-none b (some i) h = cc

or_here-some :
    (b : Bool) (o : Option ℕ) (i : ℕ)
    → or_here b (later o) ≡ some i
    → ((j : ℕ) × (o ≡ some j) × (i ≡ suc j)) ⊎ ((o ≡ none) × (b ≡ true) × (i ≡ 0))
or_here-some b (some j) i h = inl (j, refl, ground arith)
or_here-some true none i h = inr (refl, refl, ground arith)
or_here-some false none i h = cc

pub rfind_nl-none : (bs : Bytes) → rfind_nl bs ≡ none → count_nl bs ≡ 0
unfolding rfind_nl count_nl
rfind_nl-none [] h = refl
rfind_nl-none (c ∷ cs) h =
    let parts = or_here-none (c == 10) (rfind_nl cs) h in rw parts.0 (rfind_nl-none cs parts.1)

pub nil_of_length : (ls : List Bytes) → length ls ≡ 0 → ls ≡ []
nil_of_length [] h = refl
nil_of_length (l ∷ ls) h = absurd (omega arith)

-- Cutting off what follows the last newline loses no complete line.
pub complete_lines-take :
    (bs : Bytes) (i : ℕ)
    → rfind_nl bs ≡ some i
    → complete_lines (take (suc i) bs) ≡ complete_lines bs
unfolding rfind_nl
complete_lines-take [] i h = absurd (cc)
complete_lines-take (c ∷ cs) i h = elim (or_here-some (c == 10) (rfind_nl cs) i h) [
  | inl (j, e, ei) ↦
      let same : complete_lines (take i cs) ≡ complete_lines cs =
        rw ei (complete_lines-take cs j e) in
      ap (λ ls. if c == 10 then [] ∷ ls else prefixed c ls) same
  | inr (e, eb, ei) ↦
      let empty : complete_lines cs ≡ [] =
        nil_of_length (complete_lines cs) (length-complete_lines cs ∙ rfind_nl-none cs e) in
      rw (eb, ei, empty) refl
]

pub count_nl-append : (xs bs : Bytes) → count_nl bs ≤ count_nl (xs ++ bs)
unfolding count_nl
count_nl-append [] bs = omega arith
count_nl-append (c ∷ xs) bs = ground (arith, count_nl-append xs bs)

last_of_lines-cons :
    (n : ℕ) (l : Bytes) (ls : List Bytes)
    → n ≤ length ls
    → last_of_lines n (l ∷ ls) ≡ last_of_lines n ls
last_of_lines-cons n l ls h =
    let e : length (l ∷ ls) - n ≡ suc (length ls - n) = omega arith in ap (λ k. drop k (l ∷ ls)) e

last_step :
    (n c : ℕ) (b : Bool) (ls : List Bytes)
    → n + 1 ≤ length ls
    → last_of_lines n (if b then [] ∷ ls else prefixed c ls) ≡ last_of_lines n ls
last_step n c true ls h = last_of_lines-cons n [] ls (omega arith)
last_step n c false [] h = refl
last_step n c false (l ∷ ls) h =
    last_of_lines-cons n (c ∷ l) ls (omega arith) ∙ sym (last_of_lines-cons n l ls (omega arith))

-- Bytes in front do not change the last lines, given one newline more.
pub last_of_lines-append :
    (n : ℕ) (xs bs : Bytes)
    → n + 1 ≤ count_nl bs
    → last_of_lines n (complete_lines (xs ++ bs)) ≡ last_of_lines n (complete_lines bs)
last_of_lines-append n [] bs h = refl
last_of_lines-append n (c ∷ xs) bs h =
    last_step n c (c == 10) (complete_lines (xs ++ bs))
      (omega (arith, length-complete_lines (xs ++ bs), count_nl-append xs bs))
    ∙ last_of_lines-append n xs bs h

bytes_step :
    (c : ℕ) (b : Bool) (ls : List Bytes)
    → 1 ≤ length ls
    → bytes_of (if b then [] ∷ ls else prefixed c ls) ≡ 1 + bytes_of ls
unfolding bytes_of
bytes_step c true ls h = omega arith
bytes_step c false [] h = absurd (omega arith)
bytes_step c false (l ∷ ls) h = omega arith

-- Bytes in front of a newline are bytes of complete lines.
pub bytes_of-append :
    (xs bs : Bytes)
    → 1 ≤ count_nl bs
    → bytes_of (complete_lines (xs ++ bs)) ≡ length xs + bytes_of (complete_lines bs)
bytes_of-append [] bs h = omega arith
bytes_of-append (c ∷ xs) bs h =
    let step =
      bytes_step c (c == 10) (complete_lines (xs ++ bs))
        (omega (arith, length-complete_lines (xs ++ bs), count_nl-append xs bs)) in
    omega (arith, step, bytes_of-append xs bs)

pub bytes_of-take-drop :
    (k : ℕ) (ls : List Bytes) → bytes_of (take k ls) + bytes_of (drop k ls) ≡ bytes_of ls
unfolding bytes_of
bytes_of-take-drop zero ls = omega arith
bytes_of-take-drop (suc k) [] = omega arith
bytes_of-take-drop (suc k) (l ∷ ls) = omega (arith, bytes_of-take-drop k ls)

last_line-step :
    (c : ℕ) (b : Bool) (rest : List Bytes)
    → last_line (if b then [] ∷ rest else push c rest) ≡ []
    → last_line rest ≡ []
unfolding last_line
last_line-step c b [] h = refl
last_line-step c true (l ∷ ls) h = h
last_line-step c false (l ∷ []) h = absurd (cc)
last_line-step c false (l ∷ l' ∷ ls) h = h

-- What ends a line ends one after any of its bytes.
pub EndsLine-drop : (k : ℕ) (bs : Bytes) → EndsLine bs → EndsLine (drop k bs)
EndsLine-drop zero bs h = h
EndsLine-drop (suc k) [] h = h
EndsLine-drop (suc k) (c ∷ bs) h =
    EndsLine-drop k bs (last_line-step c (c == 10) (split_nl bs) (unfold split_nl in h))
