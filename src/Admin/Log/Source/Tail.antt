-- ===== src/Admin/Log/Source/Tail.antt =====
-- Pages of log_file_source.py, against the lines of the whole file.
use s1t_python_backend_templ.Base.{
  ℕ, zero, suc, ◌+◌, ◌-◌, ◌≤◌, ◌≡◌, refl, ap, sym, ◌∙◌, false, String, List, [], ◌∷◌, ◌++◌, Option,
  some, map, length, take, drop, ◌==◌, ltb, arith, ◌⊎◌, inl, inr, Bool-cases, Option-cases, ok,
}
use s1t_python_backend_templ.Admin.Log.Bytes.{
  Bytes, split_nl, count_nl, rfind_nl, all_but_last, last_line, bytes_of, complete_lines,
  last_of_lines, before_last, EndsLine,
}
use s1t_python_backend_templ.Admin.Log.Bytes.Lines.{
  length-complete_lines, all_but_last-split_nl, rfind_nl-none, complete_lines-take,
  last_of_lines-append, bytes_of-append, bytes_of-take-drop, nil_of_length, split_nl-ne-nil,
  EndsLine-drop,
}
use s1t_python_backend_templ.Admin.Log.Source.{
  kept_of, drop_empty_last, line_of, page_of, tail_from_buffer, tail_page, read_last_lines,
  before_page, read_lines_before,
}
use s1t_python_backend_templ.Admin.Log.Source.Slices.{piece, Collected, backward-Collected}

length-drop : (k : ℕ) (ls : List Bytes) → length (drop k ls) ≡ length ls - k
length-drop zero ls = omega arith
length-drop (suc k) [] = omega arith
length-drop (suc k) (l ∷ ls) = omega (arith, length-drop k ls)

length-take : (k : ℕ) (bs : Bytes) → k ≤ length bs → length (take k bs) ≡ k
length-take zero bs h = refl
length-take (suc k) [] h = absurd (omega arith)
length-take (suc k) (c ∷ bs) h = omega (arith, length-take k bs)

pub take_all : (bs : Bytes) → take (length bs) bs ≡ bs
take_all [] = refl
take_all (c ∷ bs) = ap (◌∷◌ c) (take_all bs)

take-drop : (k : ℕ) (bs : Bytes) → take k bs ++ drop k bs ≡ bs
take-drop zero bs = refl
take-drop (suc k) [] = refl
take-drop (suc k) (c ∷ bs) = ap (◌∷◌ c) (take-drop k bs)

kept_of-eq : (limit : ℕ) (ls : List Bytes) → 1 ≤ limit → kept_of limit ls ≡ last_of_lines limit ls
kept_of-eq limit ls h =
    let some_kept : (limit == 0) ≡ false = ground arith in
    elim (Bool-cases (ltb limit (length ls))) [
      | inl more ↦ rw (more, some_kept) refl
      | inr all ↦ let e : length ls - limit ≡ 0 = ground arith in rw (all, e) refl
    ]

drop_empty :
    (ls : List Bytes) → (ls ≡ [] → ⊥) → last_line ls ≡ [] → drop_empty_last ls ≡ all_but_last ls
drop_empty [] n h = absurd (n refl)
drop_empty (l ∷ ls) n h = rw h refl

drop_empty_last-eq : (bs : Bytes) → EndsLine bs → drop_empty_last (split_nl bs) ≡ complete_lines bs
drop_empty_last-eq bs h = drop_empty _ (split_nl-ne-nil bs) h ∙ all_but_last-split_nl bs

zero_add : (n : ℕ) → 0 + n ≡ n
zero_add n = omega arith

drop-take : (n : ℕ) (bs : Bytes) → drop n (take n bs) ≡ []
drop-take zero bs = refl
drop-take (suc n) [] = refl
drop-take (suc n) (c ∷ bs) = drop-take n bs

module _ (decode : Bytes → String) where
  -- The last `limit` lines that are complete, and how many bytes stand before them.
  abbrev pub last_page : ℕ → Bytes → List String × ℕ
  last_page limit content = (
    map (line_of decode) (last_of_lines limit (complete_lines content)),
    bytes_of (before_last limit (complete_lines content)),
  )

  page_of-eq :
      (limit start : ℕ) (ls : List Bytes)
      → 1 ≤ limit
      → ◌≡◌ {A = List String × ℕ}
          (page_of decode limit start ls)
          (map (line_of decode) (last_of_lines limit ls), start + bytes_of (before_last limit ls))
  page_of-eq limit start ls h =
      let e : length ls - length (kept_of limit ls) ≡ length ls - limit =
        rw (kept_of-eq limit ls h) (omega (arith, length-drop (length ls - limit) ls)) in
      rw (e, kept_of-eq limit ls h) refl

  offset-append :
      (limit : ℕ) (xs bs : Bytes)
      → limit + 1 ≤ count_nl bs
      → length xs + bytes_of (before_last limit (complete_lines bs))
        ≡ bytes_of (before_last limit (complete_lines (xs ++ bs)))
  offset-append limit xs bs h = omega (
    arith,
    ap bytes_of (last_of_lines-append limit xs bs h),
    bytes_of-append xs bs (omega arith),
    bytes_of-take-drop (length (complete_lines bs) - limit) (complete_lines bs),
    bytes_of-take-drop (length (complete_lines (xs ++ bs)) - limit) (complete_lines (xs ++ bs)),
  )

  -- A piece that reaches the start, or that holds a newline more, has the page of the whole.
  page-append :
      (limit : ℕ) (xs bs : Bytes)
      → 1 ≤ limit
      → (length xs ≡ 0) ⊎ (limit + 1 ≤ count_nl bs)
      → page_of decode limit (length xs) (complete_lines bs) ≡ last_page limit (xs ++ bs)
  page-append limit [] bs h whole = page_of-eq limit 0 (complete_lines bs) h ∙ λ i. (
    map (line_of decode) (last_of_lines limit (complete_lines bs)),
    zero_add (bytes_of (before_last limit (complete_lines bs))) i,
  )
  page-append limit (c ∷ xs) bs h (inl start) = absurd (omega arith)
  page-append limit (c ∷ xs) bs h (inr enough) =
      page_of-eq limit (length (c ∷ xs)) (complete_lines bs) h ∙ λ i. (
        map (line_of decode) (sym (last_of_lines-append limit (c ∷ xs) bs enough) i),
        offset-append limit (c ∷ xs) bs enough i,
      )

  page_of-nil :
      (limit start : ℕ) → ◌≡◌ {A = List String × ℕ} (page_of decode limit start []) ([], start)
  unfolding bytes_of
  page_of-nil limit start =
      let short : ltb limit 0 ≡ false = ground arith in
      let nothing : 0 - length {A = Bytes} [] ≡ 0 = omega arith in
      let same : start + bytes_of [] ≡ start = omega arith in rw (short, nothing) λ i. ([], same i)

  tail_from_buffer-eq :
      (buf : Bytes) (start limit : ℕ)
      → 1 ≤ limit
      → tail_from_buffer decode buf start limit ≡ page_of decode limit start (complete_lines buf)
  unfolding tail_from_buffer
  tail_from_buffer-eq buf start limit h = elim (Option-cases (rfind_nl buf)) [
    | inl e ↦
        let empty : complete_lines buf ≡ [] =
          nil_of_length _ (length-complete_lines buf ∙ rfind_nl-none buf e) in
        rw (e, tail_from_buffer, empty) (sym (page_of-nil limit start))
    | inr (i, e) ↦
        rw
          (
            e,
            tail_from_buffer,
            all_but_last-split_nl (take (suc i) buf),
            complete_lines-take buf i e,
          )
          refl
  ]

  piece-page :
      (limit from end : ℕ) (content : Bytes)
      → 1 ≤ limit
      → from ≤ end
      → end ≤ length content
      → (from ≡ 0) ⊎ (limit + 1 ≤ count_nl (piece content from end))
      → page_of decode limit from (complete_lines (piece content from end))
        ≡ last_page limit (take end content)
  piece-page limit from end content h within room enough =
      let before = take from (take end content) in
      let size : length before ≡ from =
        length-take from (take end content) (omega (arith, length-take end content room)) in
      let joined : before ++ piece content from end ≡ take end content =
        take-drop from (take end content) in
      let enough' : (length before ≡ 0) ⊎ (limit + 1 ≤ count_nl (piece content from end)) =
        rw size enough in
      ap (λ n. page_of decode limit n (complete_lines (piece content from end))) (sym size)
      ∙ page-append limit before (piece content from end) h enough'
      ∙ ap (last_page limit) joined

  module _ (path : String) (chunk_bytes : ℕ) where
    tail_page-eq :
        (limit inode : ℕ) (content : Bytes) (r : Option (Bytes × ℕ))
        → 1 ≤ limit
        → Collected limit content (length content) r
        → tail_page decode path chunk_bytes limit inode r
          ≡ some (ok ((last_page limit content).0, (last_page limit content).1, inode))
    tail_page-eq limit inode content r h c =
        let size = length content in
        let same : tail_from_buffer decode (piece content c.from size) c.from limit
            ≡ last_page limit content =
          tail_from_buffer-eq (piece content c.from size) c.from limit h
          ∙ piece-page limit c.from size content h c.within (omega arith) c.enough
          ∙ ap (last_page limit) (take_all content) in
        ap (tail_page decode path chunk_bytes limit inode) c.ends ∙ λ i.
        some (ok ((same i).0, (same i).1, inode))

    -- The last page of a file is that of its complete lines, whatever the size of the chunks.
    pub read_last_lines-eq :
        (limit inode : ℕ) (content : Bytes)
        → 1 ≤ chunk_bytes
        → 1 ≤ limit
        → read_last_lines decode path chunk_bytes limit (ok inode) (ok content)
          ≡ some (ok ((last_page limit content).0, (last_page limit content).1, inode))
    unfolding read_last_lines
    read_last_lines-eq limit inode [] one h =
        let p : ◌≡◌ {A = List String × ℕ} ([], 0) (last_page limit []) =
          sym (page_of-nil limit 0) ∙ page-append limit [] [] h (inl refl) in
        λ i. some (ok ((p i).0, (p i).1, inode))
    read_last_lines-eq limit inode (b ∷ bs) one h =
        let size = length (b ∷ bs) in
        let c =
          backward-Collected (suc size) chunk_bytes limit (b ∷ bs) size size one (omega arith)
            (omega arith) in
        let running : (size == 0) ≡ false = ground arith in
        let start : piece (b ∷ bs) size size ≡ [] = drop-take size (b ∷ bs) in
        rw running (tail_page-eq limit inode (b ∷ bs) _ h (rw start at c))

    before_page-eq :
        (limit end : ℕ) (content : Bytes) (r : Option (Bytes × ℕ))
        → 1 ≤ limit
        → end ≤ length content
        → EndsLine (take end content)
        → Collected limit content end r
        → before_page decode path chunk_bytes limit r
          ≡ some (ok (last_page limit (take end content)))
    before_page-eq limit end content r h room line c =
        let whole : drop_empty_last (split_nl (piece content c.from end))
            ≡ complete_lines (piece content c.from end) =
          drop_empty_last-eq _ (EndsLine-drop c.from (take end content) line) in
        ap (before_page decode path chunk_bytes limit) c.ends
        ∙ ap (λ ls. some (ok (page_of decode limit c.from ls))) whole
        ∙ ap (λ p. some (ok p)) (piece-page limit c.from end content h c.within room c.enough)

    -- The page before an offset that begins a line is the last page of what stands before it.
    pub read_lines_before-eq :
        (offset limit : ℕ) (content : Bytes)
        → 1 ≤ chunk_bytes
        → 1 ≤ limit
        → offset ≤ length content
        → EndsLine (take offset content)
        → read_lines_before decode path chunk_bytes offset limit (ok content)
          ≡ some (ok (last_page limit (take offset content)))
    unfolding read_lines_before
    read_lines_before-eq zero limit content one h room line =
        ap (λ p. some (ok p)) (sym (page_of-nil limit 0) ∙ page-append limit [] [] h (inl refl))
    read_lines_before-eq (suc n) limit content one h room line =
        let c =
          backward-Collected (suc (suc n)) chunk_bytes limit content (suc n) (suc n) one
            (omega arith) (omega arith) in
        before_page-eq limit (suc n) content _ h room line (rw (drop-take (suc n) content) at c)
