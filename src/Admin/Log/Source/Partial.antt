-- ===== src/Admin/Log/Source/Partial.antt =====
-- Following the log file when a poll sees the first part of a line that is still being written.
use s1t_python_backend_templ.Base.{
  ℕ, suc, ◌+◌, ◌-◌, ◌≡◌, refl, sym, Bool, true, false, String, List, [], ◌∷◌, ◌++◌, some, map,
  length, length-append, ◌==◌, ==_refl, ltb, arith, if◌then◌else◌, ok,
}
use mathlib.Core.List.{append_assoc, append-nil}
use s1t_python_backend_templ.Admin.Log.Bytes.{
  Bytes, push, split_nl, count_nl, all_but_last, last_line, complete_lines, EndsLine,
}
use s1t_python_backend_templ.Admin.Log.Bytes.Cuts.{EndsLine-newline}
use s1t_python_backend_templ.Admin.Log.Source.{line_of}
use s1t_python_backend_templ.Admin.Log.Source.Following.{
  Follower, start_follower, read_delta, read_from, advance, poll_once, iter_new_lines,
}
use s1t_python_backend_templ.Admin.Log.Source.Appended.{
  File, stat_of, poll_of, at_end, drop-append, drop_past, advance_lem,
}

push_step :
    (c : ℕ) (b : Bool) (rest : List Bytes) (cs : Bytes)
    → (if b then suc 0 else 0) ≡ 0
    → rest ≡ cs ∷ []
    → (if b then [] ∷ rest else push c rest) ≡ (c ∷ cs) ∷ []
push_step c true rest cs n h = absurd (omega arith)
push_step c false rest cs n h = rw h refl

count_step :
    (b : Bool) (n : ℕ) → (if b then suc n else n) ≡ 0 → ((if b then suc 0 else 0) ≡ 0) × (n ≡ 0)
count_step true n h = absurd (omega arith)
count_step false n h = (refl, h)

-- A text of no newline is one part.
split_nl-one : (p : Bytes) → count_nl p ≡ 0 → split_nl p ≡ p ∷ []
unfolding split_nl count_nl
split_nl-one [] h = refl
split_nl-one (c ∷ cs) h =
    let parts = count_step (c == 10) (count_nl cs) h in
    push_step c (c == 10) (split_nl cs) cs parts.0 (split_nl-one cs parts.1)

push_ended :
    (c : ℕ) (b : Bool) (rest : List Bytes) (cs : Bytes)
    → (if b then suc 0 else 0) ≡ 0
    → rest ≡ cs ∷ [] ∷ []
    → (if b then [] ∷ rest else push c rest) ≡ (c ∷ cs) ∷ [] ∷ []
push_ended c true rest cs n h = absurd (omega arith)
push_ended c false rest cs n h = rw h refl

split_nl-ended : (p : Bytes) → count_nl p ≡ 0 → split_nl (p ++ 10 ∷ []) ≡ p ∷ [] ∷ []
unfolding split_nl count_nl
split_nl-ended [] h = refl
split_nl-ended (c ∷ cs) h =
    let parts = count_step (c == 10) (count_nl cs) h in
    push_ended c (c == 10) (split_nl (cs ++ 10 ∷ [])) cs parts.0 (split_nl-ended cs parts.1)

count_join :
    (b : Bool) (n m : ℕ) → (if b then suc n else n) ≡ 0 → m ≡ 0 → (if b then suc m else m) ≡ 0
count_join true n m h k = absurd (omega arith)
count_join false n m h k = k

count_nl-join : (xs ys : Bytes) → count_nl xs ≡ 0 → count_nl ys ≡ 0 → count_nl (xs ++ ys) ≡ 0
unfolding count_nl
count_nl-join [] ys h k = k
count_nl-join (c ∷ xs) ys h k =
    let parts = count_step (c == 10) (count_nl xs) h in
    count_join (c == 10) (count_nl xs) (count_nl (xs ++ ys)) h (count_nl-join xs ys parts.1 k)

module _ (decode : Bytes → String) (inode : ℕ) (base : Bytes) (b : ℕ) (p : Bytes)
    (one : count_nl (b ∷ p) ≡ 0) where
  abbrev pub file_of : Bytes → File
  file_of content = record { inode = inode; content = content }

  abbrev mid : ℕ → Bytes → Follower
  mid pos carry = record { inode = some inode; pos = pos; carry = carry }

  -- The first part of a line is carried, and the position stays before it.
  poll_once-begun :
      poll_once decode (poll_of (file_of (base ++ b ∷ p))) (at_end (file_of base))
      ≡ ([], mid (length base) (b ∷ p))
  unfolding poll_once advance read_delta all_but_last last_line
  poll_once-begun =
      let e : length (base ++ b ∷ p) ≡ length base + suc (length p) = length-append base (b ∷ p) in
      let kept : ltb (length base + suc (length p)) (length base) ≡ false = ground arith in
      let more : ltb (length base) (length base + suc (length p)) ≡ true = ground arith in
      let none_read : length base + (suc (length p) - suc (length p)) ≡ length base = omega arith in
      rw
        (
          ==_refl inode,
          e,
          kept,
          more,
          drop-append base (b ∷ p),
          split_nl-one (b ∷ p) one,
          none_read,
        )
        refl

  module _ (q : Bytes) (ended : count_nl (b ∷ p ++ q) ≡ 0) where
    abbrev pub doubled : Bytes
    doubled = b ∷ p ++ (b ∷ p ++ q)

    abbrev pub whole : Bytes
    whole = base ++ (b ∷ p ++ q ++ 10 ∷ [])

    -- When the line is complete its first part is read again, behind what was carried, and the
    -- position goes past the end of the file.
    poll_once-doubled :
        poll_once decode (poll_of (file_of whole)) (mid (length base) (b ∷ p))
        ≡ (line_of decode doubled ∷ [], mid (length whole + suc (length p)) [])
    unfolding poll_once advance read_delta all_but_last last_line
    poll_once-doubled =
        let line = b ∷ p ++ q ++ 10 ∷ [] in
        let e : length whole ≡ length base + suc (length (p ++ q ++ 10 ∷ [])) =
          length-append base line in
        let kept : ltb (length whole) (length base) ≡ false = ground (arith, e) in
        let more : ltb (length base) (length whole) ≡ true = ground (arith, e) in
        let twice : b ∷ p ++ line ≡ doubled ++ 10 ∷ [] =
          sym (append_assoc (b ∷ p) (b ∷ p ++ q) (10 ∷ [])) in
        let past : length base + (length (b ∷ p ++ line) - 0) ≡ length whole + suc (length p) =
          omega (arith, e, length-append (b ∷ p) line) in
        let parts : split_nl (doubled ++ 10 ∷ []) ≡ doubled ∷ [] ∷ [] =
          split_nl-ended doubled (count_nl-join (b ∷ p) (b ∷ p ++ q) one ended) in
        rw (==_refl inode, kept, more, drop-append base line, twice, parts, past) refl

    -- Now the file looks shorter than the position: it is taken for a truncated one.
    poll_once-replayed :
        poll_once decode (poll_of (file_of whole)) (mid (length whole + suc (length p)) [])
        ≡ (map (line_of decode) (complete_lines whole), at_end (file_of whole))
    unfolding poll_once read_from read_delta split_nl all_but_last
    poll_once-replayed =
        let line : EndsLine whole =
          rw (append_assoc base (b ∷ p ++ q) (10 ∷ [])) at
            (EndsLine-newline (base ++ (b ∷ p ++ q))) in
        let cut : ltb (length whole) (length whole + suc (length p)) ≡ true = ground arith in
        rw
          (
            ==_refl inode,
            cut,
            drop_past (length whole + suc (length p)) whole (omega arith),
            advance_lem decode inode [] whole line,
          )
          refl

    -- A poll that sees the first part of a line makes the next one yield that part twice, and the
    -- one after it yield the whole file again.
    pub iter_new_lines-partial :
        iter_new_lines decode
          (poll_of (file_of (base ++ b ∷ p))
            ∷ poll_of (file_of whole)
            ∷ poll_of (file_of whole)
            ∷ [])
          (start_follower (ok (stat_of (file_of base))) (ok (stat_of (file_of base))))
        ≡ (
          line_of decode doubled ∷ map (line_of decode) (complete_lines whole),
          at_end (file_of whole),
        )
    unfolding iter_new_lines start_follower
    iter_new_lines-partial =
        rw
          (
            poll_once-begun,
            poll_once-doubled,
            poll_once-replayed,
            append-nil (map (line_of decode) (complete_lines whole)),
          )
          refl
