-- ===== src/Admin/Log/Export/Cells.antt =====
-- The cells of the CSV export.
use s1t_python_backend_templ.Base.{
  ◌≡◌, refl, false, String, List, [], ◌∷◌, map, All, inl, inr, Bool-cases,
}
use Prim.Native.Char.{code}
use s1t_python_backend_templ.Admin.Log.Entry.{LogEntryVo, Values, map_lines}
use s1t_python_backend_templ.Admin.Log.Export.{is_formula_trigger, defuse, row, export_rows}

-- A spreadsheet reads no formula in a cell.
abbrev pub IsPlain : String → Type 0
IsPlain String.[] = Unit {0}
IsPlain (String.◌∷◌ c s) = is_formula_trigger (code c) ≡ false

defuse-IsPlain : (s : String) → IsPlain (defuse s)
unfolding defuse
defuse-IsPlain String.[] = tt
defuse-IsPlain (String.◌∷◌ c s) = elim (Bool-cases (is_formula_trigger (code c))) [
  | inl e ↦ rw e refl
  | inr e ↦ rw e e
]

rows-IsPlain : (entries : List LogEntryVo) → All (All IsPlain) (map row entries)
unfolding row
rows-IsPlain [] = tt
rows-IsPlain (e ∷ es) = (
  (
    defuse-IsPlain e.timestamp,
    (defuse-IsPlain e.level, (defuse-IsPlain e.logger, (defuse-IsPlain e.event, tt))),
  ),
  rows-IsPlain es,
)

-- No cell of an export, the header's included, begins with a character that a spreadsheet takes
-- for a formula, whatever the log holds.
pub export_rows-IsPlain :
    (py : Values) (lines : List String) → All (All IsPlain) (export_rows py lines)
unfolding export_rows
export_rows-IsPlain py lines =
    ((refl, (refl, (refl, (refl, tt)))), rows-IsPlain (map_lines py lines))
