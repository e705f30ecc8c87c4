-- ===== src/Admin/Log/Bytes/Cuts.antt =====
-- Cutting bytes where a line ends, and adding bytes after it.
use s1t_python_backend_templ.Base.{
  ℕ, zero, suc, ◌+◌, ◌≤◌, ◌≡◌, refl, ap, ◌∙◌, Bool, true, false, List, [], ◌∷◌, ◌++◌, length, take,
  ◌==◌, arith, if◌then◌else◌, inl, inr, ◌⊎◌,
}
use s1t_python_backend_templ.Admin.Log.Bytes.{
  Bytes, push, split_nl, count_nl, all_but_last, last_line, bytes_of, prefixed, complete_lines,
  EndsLine,
}
use s1t_python_backend_templ.Admin.Log.Bytes.Lines.{
  length-complete_lines, split_nl-ne-nil, all_but_last-split_nl, count_nl-append,
}

pub all_but_last-step :
    (c : ℕ) (b : Bool) (rest : List Bytes)
    → (b ≡ true) ⊎ (1 ≤ length (all_but_last rest))
    → last_line rest ≡ []
    → last_line (if b then [] ∷ rest else push c rest) ≡ []
unfolding last_line all_but_last
all_but_last-step c true [] n h = refl
all_but_last-step c true (l ∷ ls) n h = h
all_but_last-step c false [] n h = absurd (ground arith)
all_but_last-step c false (l ∷ []) n h = absurd (ground arith)
all_but_last-step c false (l ∷ l' ∷ ls) n h = h

-- The bytes of the first `k` lines.
abbrev pub upto : ℕ → Bytes → Bytes
upto k bs = take (bytes_of (take k (complete_lines bs))) bs

upto_step :
    (k c : ℕ) (b : Bool) (cs : Bytes) (rest : List Bytes)
    → (c == 10) ≡ b
    → complete_lines (take (bytes_of (take k rest)) cs) ≡ take k rest
    → complete_lines (take (bytes_of (take (suc k) rest)) cs) ≡ take (suc k) rest
    → (let all = if b then [] ∷ rest else prefixed c rest in
        complete_lines (take (bytes_of (take (suc k) all)) (c ∷ cs)) ≡ take (suc k) all)
unfolding bytes_of
upto_step k c true cs rest e h h' =
    let n : length {A = ℕ} [] + 1 + bytes_of (take k rest) ≡ suc (bytes_of (take k rest)) =
      omega arith in
    rw (n, e, h) refl
upto_step k c false cs [] e h h' = refl
upto_step k c false cs (l ∷ ls) e h h' =
    let m : length l + 1 + bytes_of (take k ls) ≡ suc (length l + bytes_of (take k ls)) =
      omega arith in
    let n : suc (length l) + 1 + bytes_of (take k ls) ≡ suc (length l + 1 + bytes_of (take k ls)) =
      omega arith in
    rw (n, e, h') refl

pub complete_lines-upto :
    (k : ℕ) (bs : Bytes) → complete_lines (upto k bs) ≡ take k (complete_lines bs)
complete_lines-upto zero bs = unfold bytes_of in refl
complete_lines-upto (suc k) [] = unfold bytes_of in refl
complete_lines-upto (suc k) (c ∷ cs) =
    upto_step k c (c == 10) cs (complete_lines cs) refl (complete_lines-upto k cs)
      (complete_lines-upto (suc k) cs)

ends_step :
    (k c : ℕ) (b : Bool) (cs : Bytes) (rest : List Bytes)
    → (c == 10) ≡ b
    → EndsLine (take (bytes_of (take k rest)) cs)
    → EndsLine (take (bytes_of (take (suc k) rest)) cs)
    → all_but_last (split_nl (take (bytes_of (take (suc k) rest)) cs)) ≡ take (suc k) rest
    → (let all = if b then [] ∷ rest else prefixed c rest in
        EndsLine (take (bytes_of (take (suc k) all)) (c ∷ cs)))
unfolding bytes_of split_nl last_line
ends_step k c true cs rest e h h' w =
    let n : length {A = ℕ} [] + 1 + bytes_of (take k rest) ≡ suc (bytes_of (take k rest)) =
      omega arith in
    rw (n, e) (all_but_last-step c true (split_nl (take (bytes_of (take k rest)) cs)) (inl refl) h)
ends_step k c false cs [] e h h' w = refl
ends_step k c false cs (l ∷ ls) e h h' w =
    let n : suc (length l) + 1 + bytes_of (take k ls) ≡ suc (length l + 1 + bytes_of (take k ls)) =
      omega arith in
    rw (n, e)
      (all_but_last-step c false (split_nl (take (length l + 1 + bytes_of (take k ls)) cs))
        (inr (rw w (omega arith))) h')

-- The first lines end where a line ends.
pub upto-EndsLine : (k : ℕ) (bs : Bytes) → EndsLine (upto k bs)
upto-EndsLine zero bs = unfold bytes_of split_nl last_line in refl
upto-EndsLine (suc k) [] = unfold bytes_of split_nl last_line in refl
upto-EndsLine (suc k) (c ∷ cs) =
    ends_step k c (c == 10) cs (complete_lines cs) refl (upto-EndsLine k cs)
      (upto-EndsLine (suc k) cs)
      (all_but_last-split_nl (upto (suc k) cs) ∙ complete_lines-upto (suc k) cs)

bytes_step-le :
    (c : ℕ) (b : Bool) (ls : List Bytes)
    → bytes_of (if b then [] ∷ ls else prefixed c ls) ≤ suc (bytes_of ls)
unfolding bytes_of
bytes_step-le c true ls = omega arith
bytes_step-le c false [] = omega arith
bytes_step-le c false (l ∷ ls) = omega arith

pub bytes_of-le : (bs : Bytes) → bytes_of (complete_lines bs) ≤ length bs
bytes_of-le [] = unfold bytes_of in omega arith
bytes_of-le (c ∷ bs) = omega (arith, bytes_step-le c (c == 10) (complete_lines bs), bytes_of-le bs)

-- Bytes after a line's end add lines after it, and change none.
partial_step :
    (c : ℕ) (b : Bool) (rest more : List Bytes) (bs : Bytes)
    → (c == 10) ≡ b
    → (rest ≡ [] → ⊥)
    → more ≡ all_but_last rest ++ complete_lines (last_line rest ++ bs)
    → (let all = if b then [] ∷ rest else push c rest in
        (if b then [] ∷ more else prefixed c more)
        ≡ all_but_last all ++ complete_lines (last_line all ++ bs))
unfolding all_but_last last_line
partial_step c b [] more bs e n h = absurd (n refl)
partial_step c true (l ∷ ls) more bs e n h = ap (◌∷◌ []) h
partial_step c false (l ∷ []) more bs e n h = rw (e, h) refl
partial_step c false (l ∷ l' ∷ ls) more bs e n h = rw h refl

pub complete_lines-append :
    (xs bs : Bytes)
    → complete_lines (xs ++ bs)
      ≡ all_but_last (split_nl xs) ++ complete_lines (last_line (split_nl xs) ++ bs)
unfolding split_nl
complete_lines-append [] bs = unfold all_but_last last_line in refl
complete_lines-append (c ∷ xs) bs =
    partial_step c (c == 10) (split_nl xs) (complete_lines (xs ++ bs)) bs refl (split_nl-ne-nil xs)
      (complete_lines-append xs bs)

count_newline : count_nl (10 ∷ []) ≡ 1
unfolding count_nl
count_newline = refl

ends_line :
    (c : ℕ) (cs : Bytes)
    → last_line (if c == 10 then [] ∷ split_nl cs else push c (split_nl cs)) ≡ []
    → EndsLine (c ∷ cs)
unfolding split_nl
ends_line c cs h = h

pub EndsLine-newline : (xs : Bytes) → EndsLine (xs ++ 10 ∷ [])
EndsLine-newline [] = unfold split_nl last_line in refl
EndsLine-newline (c ∷ xs) =
    let parts = split_nl (xs ++ 10 ∷ []) in
    let more : 1 ≤ length (all_but_last parts) = rw (all_but_last-split_nl (xs ++ 10 ∷ [])) (
      omega (
        arith,
        length-complete_lines (xs ++ 10 ∷ []),
        count_nl-append xs (10 ∷ []),
        count_newline,
      )) in
    ends_line c (xs ++ 10 ∷ [])
      (all_but_last-step c (c == 10) parts (inr more) (EndsLine-newline xs))
