-- ===== src/Admin/Log/Export.antt =====
-- admin/log/app/export_logs_uc.py: the log file as NDJSON and as CSV, and the entries of the
-- driving port (ports/driving/logs_facade.py).
pub mod Cells
pub mod Context
use s1t_python_backend_templ.Base.{
  ℕ, Bool, true, false, ◌||◌, String, List, [], ◌∷◌, Option, none, some, map, length, if◌then◌else◌,
  ◌==◌, ◌is◌,
}
use Prim.Native.Char.{code}
use Prim.Native.String.{◌++◌}
use s1t_python_backend_templ.Shared.Json.{Json, Fields}
use s1t_python_backend_templ.Admin.Log.Entry.{LogEntryVo, Values, get, map_lines}

-- _FORMULA_TRIGGERS
abbrev pub is_formula_trigger : ℕ → Bool
is_formula_trigger c = c == b'=' || c == b'+' || c == b'-' || c == b'@'

unfoldable pub defuse : String → String
defuse String.[] = ""
defuse (String.◌∷◌ c s) =
    if is_formula_trigger (code c) then String.◌∷◌ "\t" (String.◌∷◌ c s) else String.◌∷◌ c s

abbrev pub csv_header : List String
csv_header = "timestamp" ∷ "level" ∷ "logger" ∷ "event" ∷ []

-- _row
unfoldable pub row : LogEntryVo → List String
unfolding defuse
row entry =
    defuse entry.timestamp ∷ defuse entry.level ∷ defuse entry.logger ∷ defuse entry.event ∷ []

-- What it yields, one text at a time.
unfoldable pub export_ndjson : List String → List String
export_ndjson [] = []
export_ndjson (line ∷ lines) = (line ++ "\n") ∷ export_ndjson lines

-- The rows that `csv.writer` is given: one for each line that parses.
unfoldable pub export_rows : Values → List String → List (List String)
export_rows py lines = csv_header ∷ map row (map_lines py lines)

-- `writer.writerow` is a parameter.
unfoldable pub export_csv : Values → (List String → String) → List String → List String
unfolding export_rows
export_csv py writerow lines = map writerow (export_rows py lines)

-- _PROMOTED_KEYS
abbrev pub is_promoted : String → Bool
is_promoted k =
    k is "timestamp"
    || k is "level"
    || k is "logger"
    || k is "event"
    || k is "pathname"
    || k is "lineno"
    || k is "func_name"
    || k is "trace_id"
    || k is "span_id"

pub record LogEntrySchema : Type 0 where
  pub timestamp : String
  pub level : String
  pub logger : String
  pub event : String
  pub pathname : Option Json
  pub lineno : Option Json
  pub func_name : Option Json
  pub trace_id : Option Json
  pub span_id : Option Json
  pub context_json : String

-- {k: v for k, v in raw.items() if k not in _PROMOTED_KEYS}
unfoldable pub context_of : Fields → Fields
context_of Fields.empty = Fields.empty
context_of (Fields.field k v fs) =
    let rest = context_of fs in if is_promoted k then rest else Fields.field k v rest

-- `orjson.dumps(context).decode()` is a parameter.
unfoldable pub context_text : (Json → String) → Fields → String
context_text dumps Fields.empty = "{}"
context_text dumps (Fields.field k v fs) = dumps (Json.object (Fields.field k v fs))

unfoldable pub to_entry_schema : (Json → String) → LogEntryVo → LogEntrySchema
to_entry_schema dumps ent = record {
  timestamp = ent.timestamp;
  level = ent.level;
  logger = ent.logger;
  event = ent.event;
  pathname = get "pathname" ent.raw;
  lineno = get "lineno" ent.raw;
  func_name = get "func_name" ent.raw;
  trace_id = get "trace_id" ent.raw;
  span_id = get "span_id" ent.raw;
  context_json = context_text dumps (context_of ent.raw);
}
