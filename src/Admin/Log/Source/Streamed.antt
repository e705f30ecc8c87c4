-- ===== src/Admin/Log/Source/Streamed.antt =====
-- Streaming a snapshot of the log file, against its complete lines.
use s1t_python_backend_templ.Base.{
  ℕ, zero, suc, ◌≤◌, ◌<◌, ◌≡◌, refl, ap, sym, ◌∙◌, String, [], ◌∷◌, ◌++◌, some, map, length,
  length-append, take, drop, arith, ok,
}
use mathlib.Core.List.{append_assoc, append-nil, map-append}
use s1t_python_backend_templ.Admin.Log.Bytes.{
  Bytes, split_nl, all_but_last, last_line, complete_lines,
}
use s1t_python_backend_templ.Admin.Log.Bytes.Lines.{all_but_last-split_nl, nil_of_length}
use s1t_python_backend_templ.Admin.Log.Bytes.Cuts.{complete_lines-append}
use s1t_python_backend_templ.Admin.Log.Source.{line_of}
use s1t_python_backend_templ.Admin.Log.Source.Streaming.{stream, iter_all_lines}

-- What follows the last newline has no complete line.
pub complete_lines-last_line : (xs : Bytes) → complete_lines (last_line (split_nl xs)) ≡ []
complete_lines-last_line xs =
    let rest = complete_lines (last_line (split_nl xs)) in
    let whole : complete_lines xs ≡ complete_lines xs ++ rest =
      simp (append-nil, all_but_last-split_nl) at (complete_lines-append xs []) in
    nil_of_length rest (omega (arith, ap length whole, length-append (complete_lines xs) rest))

take-drop : (k : ℕ) (bs : Bytes) → take k bs ++ drop k bs ≡ bs
take-drop zero bs = refl
take-drop (suc k) [] = refl
take-drop (suc k) (c ∷ bs) = ap (◌∷◌ c) (take-drop k bs)

length-drop-le : (k : ℕ) (bs : Bytes) → length (drop k bs) ≤ length bs
length-drop-le zero bs = omega arith
length-drop-le (suc k) [] = omega arith
length-drop-le (suc k) (c ∷ bs) = omega (arith, length-drop-le k bs)

module _ (decode : Bytes → String) where
  stream-eq :
      (fuel chunk : ℕ) (buf rest : Bytes)
      → length rest < fuel
      → complete_lines buf ≡ []
      → stream decode fuel (suc chunk) buf rest
        ≡ some (map (line_of decode) (complete_lines (buf ++ rest)))
  unfolding stream
  stream-eq zero chunk buf rest h e = absurd (omega arith)
  stream-eq (suc fuel) chunk buf [] h e = rw (append-nil buf, e) refl
  stream-eq (suc fuel) chunk buf (c ∷ cs) h e =
      let read = buf ++ c ∷ take chunk cs in
      let more =
        stream-eq fuel chunk (last_line (split_nl read)) (drop chunk cs)
          (omega (arith, length-drop-le chunk cs)) (complete_lines-last_line read) in
      let cut : read ++ drop chunk cs ≡ buf ++ c ∷ cs =
        append_assoc buf (c ∷ take chunk cs) (drop chunk cs)
        ∙ ap (λ bs. buf ++ c ∷ bs) (take-drop chunk cs) in
      rw (more, ← cut, complete_lines-append read (drop chunk cs))
        (ap some (sym (map-append (line_of decode) (all_but_last (split_nl read)) _)))

  module _ (path : String) where
    -- A whole snapshot gives its complete lines, whatever the size of the chunks.
    pub iter_all_lines-eq :
        (chunk_bytes : ℕ) (content : Bytes)
        → 1 ≤ chunk_bytes
        → iter_all_lines decode path chunk_bytes (ok content)
          ≡ some (ok (map (line_of decode) (complete_lines content)))
    unfolding iter_all_lines
    iter_all_lines-eq zero content h = absurd (omega arith)
    iter_all_lines-eq (suc n) content h =
        rw (stream-eq (suc (length content)) n [] content (omega arith) refl) refl
