-- ===== src/Admin/Log/Facade.antt =====
-- admin/log/ports/driving/logs_facade.py: the driving port of the log viewer, over the reader.
use s1t_python_backend_templ.Base.{ℕ, String, List, map}
use s1t_python_backend_templ.Shared.Json.{Json}
use s1t_python_backend_templ.Admin.Log.Entry.{Cursor, LogEntryVo, Values, map_lines}
use s1t_python_backend_templ.Admin.Log.Reader.{
  Reads, pure, ◌>>=◌, ILogFileSource, read_tail, read_before,
}
use s1t_python_backend_templ.Admin.Log.Export.{
  LogEntrySchema, to_entry_schema, export_ndjson, export_csv,
}

module _ (py : Values) (dumps : Json → String) (writerow : List String → String) where
  -- `follow`: the lines that parse, of those that the source yields.
  unfoldable pub follow : List String → List LogEntryVo
  unfolding map_lines
  follow lines = map_lines py lines

  unfoldable pub stream_tail : List String → List LogEntrySchema
  unfolding follow to_entry_schema
  stream_tail lines = map (to_entry_schema dumps) (follow lines)

  unfoldable pub facade_ndjson : List String → List String
  unfolding export_ndjson
  facade_ndjson lines = export_ndjson lines

  unfoldable pub facade_csv : List String → List String
  unfolding export_csv
  facade_csv lines = export_csv py writerow lines

  module _ (source : ILogFileSource) where
    unfoldable pub render_log_page : ℕ → Reads (List LogEntrySchema × Cursor)
    unfolding read_tail to_entry_schema
    render_log_page limit = do
      (entries, cursor) ← read_tail py source limit
      pure (map (to_entry_schema dumps) entries, cursor)

    unfoldable pub load_older_logs : Cursor → ℕ → Reads (List LogEntrySchema × Cursor)
    unfolding read_before to_entry_schema
    load_older_logs cursor limit = do
      (entries, next_cursor) ← read_before py source cursor limit
      pure (map (to_entry_schema dumps) entries, next_cursor)
