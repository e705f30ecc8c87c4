-- ===== src/Admin/Log/Entry.antt =====
-- admin/log/domain: a parsed line of the log, and the cursor of a page.
use s1t_python_backend_templ.Base.{
  ℕ, zero, suc, Bool, true, false, String, Option, none, some, if◌then◌else◌, ◌is◌, Result, ok, err,
  List, [], ◌∷◌,
}
use s1t_python_backend_templ.Shared.Json.{Json, Items, Fields}
use s1t_python_backend_templ.Admin.Log.Bytes.{rstrip_cr}

pub record Cursor : Type 0 where
  pub inode : ℕ
  pub offset : ℕ

pub record LogEntryVo : Type 0 where
  pub timestamp : String
  pub level : String
  pub logger : String
  pub event : String
  pub raw : Fields

pub data MalformedLogLine : Type 0 where
  malformed_log_line : String → MalformedLogLine

-- orjson.loads (`none` is a JSONDecodeError), and of Python: str(value), text.upper() and whether
-- a number is not zero.
pub record Values : Type 0 where
  pub loads : String → Option Json
  pub str : Json → String
  pub upper : String → String
  pub nonzero : String → Bool

-- text[:n]
abbrev pub first_chars : ℕ → String → String
first_chars zero s = ""
first_chars (suc n) String.[] = ""
first_chars (suc n) (String.◌∷◌ c s) = String.◌∷◌ c (first_chars n s)

-- data.get(key)
abbrev pub get : String → Fields → Option Json
get key Fields.empty = none
get key (Fields.field k v fs) = let rest = get key fs in if k is key then some v else rest

-- data.get(key, default)
abbrev pub get_or_text : String → String → Fields → Json
get_or_text key other fs = elim (get key fs) [ none ↦ Json.text other | some v ↦ v ]

module _ (py : Values) where
  open py use {loads, str, upper, nonzero}

  abbrev pub truthy : Json → Bool
  truthy Json.null = false
  truthy (Json.boolean b) = b
  truthy (Json.number n) = nonzero n
  truthy (Json.text s) = if s is "" then false else true
  truthy (Json.array Items.nil) = false
  truthy (Json.array (Items.cons v vs)) = true
  truthy (Json.object Fields.empty) = false
  truthy (Json.object (Fields.field k v fs)) = true

  -- str(data.get("logger") or "")
  abbrev pub logger_of : Option Json → String
  logger_of none = ""
  logger_of (some v) = if truthy v then str v else str (Json.text "")

  abbrev pub entry_of : String → Option Json → Result MalformedLogLine LogEntryVo
  entry_of preview (some (Json.object data_fields)) = ok (record {
    timestamp = str (get_or_text "timestamp" "" data_fields);
    level = upper (str (get_or_text "level" "INFO" data_fields));
    logger = logger_of (get "logger" data_fields);
    event = str (get_or_text "event" "" data_fields);
    raw = data_fields;
  })
  entry_of preview _ = err (malformed_log_line preview)

  unfoldable pub parse : String → Result MalformedLogLine LogEntryVo
  parse line =
      let line_text = rstrip_cr line in
      let parsed = entry_of (first_chars 200 line_text) (loads line_text) in
      if line_text is "" then err (malformed_log_line line) else parsed

  -- `_map` and the loops that skip a MalformedLogLine.
  abbrev pub entry_then : Result MalformedLogLine LogEntryVo → List LogEntryVo → List LogEntryVo
  entry_then (ok entry) entries = entry ∷ entries
  entry_then (err e) entries = entries

  unfoldable pub map_lines : List String → List LogEntryVo
  map_lines [] = []
  map_lines (line ∷ lines) = entry_then (parse line) (map_lines lines)
