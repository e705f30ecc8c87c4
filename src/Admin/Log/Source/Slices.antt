-- ===== src/Admin/Log/Source/Slices.antt =====
-- The backward loop of log_file_source.py: it ends, and what it has read is a piece of the file.
use s1t_python_backend_templ.Base.{
  ℕ, zero, suc, ◌+◌, ◌-◌, ◌≤◌, ◌<◌, ◌≡◌, refl, ap, true, false, [], ◌∷◌, ◌++◌, Option, some, take,
  drop, ◌==◌, leb, arith, ◌⊎◌, inl, inr, Bool-cases,
}
use s1t_python_backend_templ.Admin.Log.Bytes.{Bytes, count_nl}
use s1t_python_backend_templ.Admin.Log.Source.{minimum, read_at, backward}

-- The bytes from `pos` up to `end`.
abbrev pub piece : Bytes → ℕ → ℕ → Bytes
piece content pos end = drop pos (take end content)

take-drop_front :
    (content : Bytes) (b s : ℕ) → b ≤ s → take b content ++ drop b (take s content) ≡ take s content
take-drop_front content zero s h = refl
take-drop_front [] (suc b) zero h = refl
take-drop_front [] (suc b) (suc s) h = refl
take-drop_front (c ∷ cs) (suc b) zero h = absurd (omega arith)
take-drop_front (c ∷ cs) (suc b) (suc s) h = ap (◌∷◌ c) (take-drop_front cs b s (omega arith))

take-nil : (n : ℕ) → take {A = ℕ} n [] ≡ []
take-nil zero = refl
take-nil (suc n) = refl

pub read_at-piece :
    (content : Bytes) (a b s : ℕ)
    → a ≤ b
    → b ≤ s
    → read_at content a (b - a) ++ piece content b s ≡ piece content a s
read_at-piece content zero b s h k =
    let e : b - 0 ≡ b = omega arith in rw e (take-drop_front content b s k)
read_at-piece content (suc a) zero s h k = absurd (omega arith)
read_at-piece content (suc a) (suc b) zero h k = absurd (omega arith)
read_at-piece [] (suc a) (suc b) (suc s) h k = rw (take-nil (suc b - suc a)) refl
read_at-piece (c ∷ cs) (suc a) (suc b) (suc s) h k =
    let e : suc b - suc a ≡ b - a = omega arith in
    rw e (read_at-piece cs a b s (omega arith) (omega arith))

-- What the loop ends with: it reached the start, or it read a newline more than was asked for.
pub record Collected (limit : ℕ) (content : Bytes) (end : ℕ) (r : Option (Bytes × ℕ)) : Type 0 where
  pub from : ℕ
  pub within : from ≤ end
  pub ends : r ≡ some (piece content from end, from)
  pub enough : (from ≡ 0) ⊎ (limit + 1 ≤ count_nl (piece content from end))

Collected-here :
    (limit : ℕ) (content : Bytes) (end from : ℕ)
    → from ≤ end
    → (from ≡ 0) ⊎ (limit + 1 ≤ count_nl (piece content from end))
    → Collected limit content end (some (piece content from end, from))
Collected-here limit content end from h enough = record {
  from = from;
  within = h;
  ends = refl;
  enough = enough;
}

leb→le : (a b : ℕ) → leb a b ≡ true → a ≤ b
leb→le a b h = ground arith

pub backward-Collected :
    (fuel chunk_bytes limit : ℕ) (content : Bytes) (end pos : ℕ)
    → 1 ≤ chunk_bytes
    → pos < fuel
    → pos ≤ end
    → Collected limit content end
        (backward fuel chunk_bytes limit content (piece content pos end) pos)
unfolding backward
backward-Collected zero chunk_bytes limit content end pos one h k = absurd (omega arith)
backward-Collected (suc fuel) chunk_bytes limit content end zero one h k =
    Collected-here limit content end 0 k (inl refl)
backward-Collected (suc fuel) chunk_bytes limit content end (suc n) one h k =
    let seek_to : ℕ = suc n - minimum chunk_bytes (suc n) in
    let below : seek_to < suc n = ground arith in
    let running : (suc n == 0) ≡ false = ground arith in
    let joined = read_at-piece content seek_to (suc n) end (omega arith) k in
    rw (running, joined)
      (elim (Bool-cases (leb (limit + 1) (count_nl (piece content seek_to end)))) [
        | inl stop ↦
            rw stop (Collected-here limit content end seek_to (omega arith) (inr (leb→le _ _ stop)))
        | inr go ↦ rw go (
            backward-Collected fuel chunk_bytes limit content end seek_to one (omega arith)
              (omega arith))
      ])
