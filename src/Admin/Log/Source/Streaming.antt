-- ===== src/Admin/Log/Source/Streaming.antt =====
-- log_file_source.py, iter_all_lines: the whole of a snapshot of the file, in chunks.
use s1t_python_backend_templ.Base.{
  ℕ, zero, suc, String, List, [], ◌++◌, Option, none, some, map, length, take, drop, Result, ok,
  err, if◌then◌else◌,
}
use s1t_python_backend_templ.Admin.Log.Bytes.{Bytes, split_nl, all_but_last, last_line}
use s1t_python_backend_templ.Admin.Log.Source.{LogReadError, Os, is_empty, line_of}

abbrev pub yield_then : List String → Option (List String) → Option (List String)
yield_then lines none = none
yield_then lines (some more) = some (lines ++ more)

abbrev pub as_read : Option (List String) → Option (Result LogReadError (List String))
as_read none = none
as_read (some lines) = some (ok lines)

module _ (decode : Bytes → String) where
  -- The lines that `while True` yields, from what the descriptor still holds.
  unfoldable pub stream : ℕ → ℕ → Bytes → Bytes → Option (List String)
  stream zero chunk_bytes buf rest = none
  stream (suc fuel) chunk_bytes buf rest =
      let chunk = take chunk_bytes rest in
      let parts = split_nl (buf ++ chunk) in
      let more =
        yield_then (map (line_of decode) (all_but_last parts))
          (stream fuel chunk_bytes (last_line parts) (drop chunk_bytes rest)) in
      if is_empty chunk then some [] else more

  unfoldable pub iter_all_lines : String → ℕ → Os Bytes → Option (Result LogReadError (List String))
  iter_all_lines path chunk_bytes (err reason) =
      some (err (record { path = path; reason = reason }))
  iter_all_lines path chunk_bytes (ok content) =
      as_read (stream (suc (length content)) chunk_bytes [] content)
