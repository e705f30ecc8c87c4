-- ===== src/Admin/Log/Reader/Paging.antt =====
-- Paging back through the log: read_tail, then read_before again and again, over a file that grows.
use s1t_python_backend_templ.Base.{
  ℕ, ◌+◌, ◌-◌, ◌≤◌, ◌≡◌, refl, ap, sym, ◌∙◌, String, List, [], ◌∷◌, ◌++◌, some, map, length, take,
  All, ==_refl, arith, Result, ok, err,
}
use s1t_python_backend_templ.Admin.Log.Bytes.{
  Bytes, bytes_of, complete_lines, last_of_lines, before_last, EndsLine,
}
use s1t_python_backend_templ.Admin.Log.Bytes.Cuts.{upto, complete_lines-upto, upto-EndsLine}
use s1t_python_backend_templ.Admin.Log.Reader.Growth.{
  Grows, last_split, last_none, before_last-take, later_length, later_take, upto-le,
}
use s1t_python_backend_templ.Admin.Log.Entry.{
  Cursor, LogEntryVo, Values, entry_then, parse, map_lines, MalformedLogLine,
}
use s1t_python_backend_templ.Admin.Log.Source
use s1t_python_backend_templ.Admin.Log.Source.{LogReadError, Os, line_of}
use s1t_python_backend_templ.Admin.Log.Source.Tail.{
  last_page, read_last_lines-eq, read_lines_before-eq,
}
use s1t_python_backend_templ.Admin.Log.Reader.{
  Reads, pure, ◌>>=◌, ILogFileSource, read_tail, read_before, LogFile, log_file_source,
}

-- A caller that reads the newest page and then older ones, one for each limit.
module _ (py : Values) (source : ILogFileSource) where
  abbrev pub older_pages : List ℕ → Cursor → Reads (List LogEntryVo)
  older_pages [] cursor = pure []
  older_pages (limit ∷ limits) cursor = do
    (page, cursor') ← read_before py source cursor limit
    older ← older_pages limits cursor'
    pure (older ++ page)

  abbrev pub history : ℕ → List ℕ → Reads (List LogEntryVo)
  history limit limits = do
    (page, cursor) ← read_tail py source limit
    older ← older_pages limits cursor
    pure (older ++ page)

abbrev pub total : List ℕ → ℕ
total [] = 0
total (n ∷ ns) = n + total ns

module _ (py : Values) (decode : Bytes → String) where
  abbrev pub entries_of : List Bytes → List LogEntryVo
  entries_of ls = map_lines py (map (line_of decode) ls)

  entry_then-append :
      (r : Result MalformedLogLine LogEntryVo) (xs ys : List LogEntryVo)
      → entry_then py r (xs ++ ys) ≡ entry_then py r xs ++ ys
  entry_then-append (ok e) xs ys = refl
  entry_then-append (err e) xs ys = refl

  entries_of-append : (xs ys : List Bytes) → entries_of (xs ++ ys) ≡ entries_of xs ++ entries_of ys
  unfolding map_lines
  entries_of-append [] ys = refl
  entries_of-append (l ∷ xs) ys =
      ap (entry_then py (parse py (line_of decode l))) (entries_of-append xs ys)
      ∙ entry_then-append (parse py (line_of decode l)) _ _

-- The file at each moment.
abbrev pub growing : ℕ → (ℕ → Bytes) → ℕ → Os LogFile
growing inode content t = ok (record { inode = inode; content = content t })

abbrev pub moments : List ℕ → ℕ → ℕ
moments [] t = t
moments (limit ∷ limits) t = moments limits (t + 1 + 1)

module _ (py : Values) (decode : Bytes → String) (path : String) (chunk_bytes : ℕ)
    (one : 1 ≤ chunk_bytes) (inode : ℕ) (content : ℕ → Bytes) (grows : Grows content) where
  abbrev source : ILogFileSource
  source = log_file_source decode path chunk_bytes (growing inode content)

  -- The cursor before the lines from the `k`th on of the file as it was at `start`.
  abbrev cursor_at : ℕ → ℕ → Cursor
  cursor_at start k = record {
    inode = inode;
    offset = bytes_of (take k (complete_lines (content start)));
  }

  page_before :
      (start t k limit : ℕ)
      → start ≤ t
      → 1 ≤ limit
      → k ≤ length (complete_lines (content start))
      → Source.read_lines_before decode path chunk_bytes
          (cursor_at start k).offset
          limit
          (ok (content t))
        ≡ some (
            ok (
              map (line_of decode) (last_of_lines limit (take k (complete_lines (content start)))),
              (cursor_at start (k - limit)).offset,
            ))
  page_before start t k limit later h within =
      let offset = (cursor_at start k).offset in
      let room = upto-le k (content start) in
      let same : take offset (content t) ≡ upto k (content start) =
        later_take content grows start t offset later room in
      let ends : EndsLine (take offset (content t)) = rw same (upto-EndsLine k (content start)) in
      let lines = complete_lines-upto k (content start) in
      read_lines_before-eq decode path chunk_bytes offset limit (content t) one h
        (omega (arith, later_length content grows start t later)) ends
      ∙ ap (λ bs. some (ok (last_page decode limit bs))) same
      ∙ ap
          (λ ls.
            some
              (ok (map (line_of decode) (last_of_lines limit ls), bytes_of (before_last limit ls))))
          lines
      ∙ ap
          (λ ls. some (
            ok (
              map (line_of decode) (last_of_lines limit (take k (complete_lines (content start)))),
              bytes_of ls,
            )))
          (before_last-take limit k (complete_lines (content start)) within)

  read_before-eq :
      (start t k limit : ℕ)
      → start ≤ t
      → 1 ≤ limit
      → k ≤ length (complete_lines (content start))
      → read_before py source (cursor_at start k) limit t
        ≡ some (
          ok (
            entries_of py decode (last_of_lines limit (take k (complete_lines (content start)))),
            cursor_at start (k - limit),
          ),
          t + 1 + 1,
        )
  unfolding read_before log_file_source Source.current_inode
  read_before-eq start t k limit later h within =
      rw (==_refl inode, page_before start (t + 1) k limit (omega arith) h within) refl

  older_pages-eq :
      (start : ℕ) (limits : List ℕ) (t k : ℕ)
      → start ≤ t
      → All (λ n. 1 ≤ n) limits
      → k ≤ length (complete_lines (content start))
      → older_pages py source limits (cursor_at start k) t
        ≡ some (
          ok (
              entries_of py decode
                (last_of_lines (total limits) (take k (complete_lines (content start))))),
          moments limits t,
        )
  unfolding map_lines
  older_pages-eq start [] t k later h within =
      rw (last_none (take k (complete_lines (content start)))) refl
  older_pages-eq start (limit ∷ limits) t k later h within =
      let lines = complete_lines (content start) in
      let rest =
        older_pages-eq start limits (t + 1 + 1) (k - limit) (omega arith) h.1 (omega arith) in
      let joined : entries_of py decode (last_of_lines (total limits) (take (k - limit) lines))
            ++ entries_of py decode (last_of_lines limit (take k lines))
          ≡ entries_of py decode (last_of_lines (limit + total limits) (take k lines)) =
        sym (entries_of-append py decode _ _)
        ∙ ap
            (λ ls.
              entries_of py decode
                (last_of_lines (total limits) ls ++ last_of_lines limit (take k lines)))
            (sym (before_last-take limit k lines within))
        ∙ ap (entries_of py decode) (last_split limit (total limits) (take k lines)) in
      rw (read_before-eq start t k limit later h.0 within, rest, joined) refl

  -- Reading the newest page and then older ones, while the file grows, gives the last complete
  -- lines of the file as the first read saw it: none twice, and none left out.
  pub history-eq :
      (limit : ℕ) (limits : List ℕ) (t : ℕ)
      → 1 ≤ limit
      → All (λ n. 1 ≤ n) limits
      → history py source limit limits t
        ≡ some (
          ok (
              entries_of py decode
                (last_of_lines (limit + total limits) (complete_lines (content (t + 1))))),
          moments limits (t + 2),
        )
  unfolding read_tail log_file_source
  history-eq limit limits t h hs =
      let lines = complete_lines (content (t + 1)) in
      let rest =
        older_pages-eq (t + 1) limits (t + 2) (length lines - limit) (omega arith) hs
          (omega arith) in
      let joined =
        sym (
          entries_of-append py decode (last_of_lines (total limits) (before_last limit lines))
            (last_of_lines limit lines))
        ∙ ap (entries_of py decode) (last_split limit (total limits) lines) in
      rw
        (
          read_last_lines-eq decode path chunk_bytes limit inode (content (t + 1)) one h,
          rest,
          joined,
        )
        refl
