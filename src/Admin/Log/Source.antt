-- ===== src/Admin/Log/Source.antt =====
-- admin/log/adapters/driven/log_file_source.py: reading pages of the log file backwards, and
-- streaming it. What `os.stat` and `open` see is an argument: a text for an OSError.
pub mod Streaming
pub mod Following
pub mod Slices
pub mod Tail
pub mod Streamed
pub mod Partial
pub mod Appended
use s1t_python_backend_templ.Base.{
  ℕ, zero, suc, ◌+◌, ◌-◌, Bool, true, false, String, List, [], ◌∷◌, ◌++◌, Option, none, some, map,
  length, take, drop, ◌==◌, ltb, leb, if◌then◌else◌, Result, ok, err,
}
use s1t_python_backend_templ.Admin.Log.Bytes.{
  Bytes, split_nl, count_nl, rfind_nl, all_but_last, last_line, bytes_of, rstrip_cr,
}

pub record LogReadError : Type 0 where
  pub path : String
  pub reason : String

-- What a call of the operating system returns, or the text of its OSError.
abbrev pub Os : Type 0 → Type 0
Os A = Result String A

abbrev pub minimum : ℕ → ℕ → ℕ
minimum a b = if ltb b a then b else a

-- fh.seek(start); fh.read(count)
abbrev pub read_at : Bytes → ℕ → ℕ → Bytes
read_at content start count = take count (drop start content)

-- `while pos > 0`: what the buffer holds at the end and where in the file it starts. The first
-- argument bounds the rounds.
unfoldable pub backward : ℕ → ℕ → ℕ → Bytes → Bytes → ℕ → Option (Bytes × ℕ)
backward zero chunk_bytes limit content buf pos = none
backward (suc fuel) chunk_bytes limit content buf pos =
    let seek_to = pos - minimum chunk_bytes pos in
    let buf' = read_at content seek_to (pos - seek_to) ++ buf in
    let more = backward fuel chunk_bytes limit content buf' seek_to in
    let round = if leb (limit + 1) (count_nl buf') then some (buf', seek_to) else more in
    if pos == 0 then some (buf, pos) else round

-- raw_lines[-limit:]
abbrev pub last_slice : ℕ → List Bytes → List Bytes
last_slice limit raw_lines =
    if limit == 0 then raw_lines else drop (length raw_lines - limit) raw_lines

abbrev pub kept_of : ℕ → List Bytes → List Bytes
kept_of limit raw_lines =
    if ltb limit (length raw_lines) then last_slice limit raw_lines else raw_lines

abbrev pub is_empty : Bytes → Bool
is_empty [] = true
is_empty (c ∷ cs) = false

-- if raw_lines and raw_lines[-1] == b"": raw_lines = raw_lines[:-1]
abbrev pub drop_empty_last : List Bytes → List Bytes
drop_empty_last [] = []
drop_empty_last (l ∷ ls) = if is_empty (last_line (l ∷ ls)) then all_but_last (l ∷ ls) else l ∷ ls

-- `bytes.decode("utf-8", "replace")` is a parameter.
module _ (decode : Bytes → String) where
  abbrev pub line_of : Bytes → String
  line_of b = rstrip_cr (decode b)

  -- The kept lines, decoded, and the byte offset of the first of them.
  abbrev pub page_of : ℕ → ℕ → List Bytes → List String × ℕ
  page_of limit start raw_lines =
      let kept = kept_of limit raw_lines in
      let dropped = take (length raw_lines - length kept) raw_lines in
      (map line_of kept, start + bytes_of dropped)

  unfoldable pub tail_from_buffer : Bytes → ℕ → ℕ → List String × ℕ
  tail_from_buffer buf buf_start limit = elim (rfind_nl buf) [
    | none ↦ ([], buf_start)
    | some last_nl ↦ page_of limit buf_start (all_but_last (split_nl (take (suc last_nl) buf)))
  ]

  module _ (path : String) (chunk_bytes : ℕ) where
    abbrev pub or_read_error : {A : Type 0} → Os A → Result LogReadError A
    or_read_error (ok a) = ok a
    or_read_error (err reason) = err (record { path = path; reason = reason })

    -- `none` is a loop that does not end.
    abbrev pub Reading : Type 0 → Type 0
    Reading A = Option (Result LogReadError A)

    unfoldable pub current_inode : Os ℕ → Result LogReadError ℕ
    current_inode stat = or_read_error stat

    abbrev pub tail_page : ℕ → ℕ → Option (Bytes × ℕ) → Reading (List String × ℕ × ℕ)
    tail_page limit inode none = none
    tail_page limit inode (some (buf, pos)) =
        let page = tail_from_buffer buf pos limit in some (ok (page.0, page.1, inode))

    abbrev pub tail_of : ℕ → ℕ → Bytes → Reading (List String × ℕ × ℕ)
    tail_of limit inode content =
        let size = length content in
        let loop = tail_page limit inode (backward (suc size) chunk_bytes limit content [] size) in
        if size == 0 then some (ok ([], 0, inode)) else loop

    -- _read_last_lines: the lines, the offset of the first of them, and the inode.
    unfoldable pub read_last_lines : ℕ → Os ℕ → Os Bytes → Reading (List String × ℕ × ℕ)
    read_last_lines limit (err reason) fh = some (or_read_error (err reason))
    read_last_lines limit (ok inode) (err reason) = some (or_read_error (err reason))
    read_last_lines limit (ok inode) (ok content) = tail_of limit inode content

    abbrev pub before_page : ℕ → Option (Bytes × ℕ) → Reading (List String × ℕ)
    before_page limit none = none
    before_page limit (some (buf, pos)) =
        some (ok (page_of limit pos (drop_empty_last (split_nl buf))))

    -- _read_lines_before
    unfoldable pub read_lines_before : ℕ → ℕ → Os Bytes → Reading (List String × ℕ)
    read_lines_before zero limit fh = some (ok ([], 0))
    read_lines_before (suc n) limit (err reason) = some (or_read_error (err reason))
    read_lines_before (suc n) limit (ok content) =
        before_page limit (backward (suc (suc n)) chunk_bytes limit content [] (suc n))
