-- ===== src/Admin/Log/Bytes.antt =====
-- Bytes and lines: what log_file_source.py uses of Python's `bytes`.
pub mod Lines
pub mod Cuts
use Prim.Native.Char.{code}
use s1t_python_backend_templ.Base.{
  ℕ, zero, suc, ◌+◌, ◌-◌, ◌≤◌, ◌≡◌, refl, ap, sym, ◌∙◌, Bool, true, false, ◌&&◌, String, List, [],
  ◌∷◌, ◌++◌, Option, none, some, length, take, drop, ◌==◌, ltb, ◌is◌, arith, if◌then◌else◌, inl,
  inr, Bool-cases,
}

abbrev pub Bytes : Type 0
Bytes = List ℕ

abbrev pub push : ℕ → List Bytes → List Bytes
push c [] = (c ∷ []) ∷ []
push c (l ∷ ls) = (c ∷ l) ∷ ls

-- data.split(b"\n")
unfoldable pub split_nl : Bytes → List Bytes
split_nl [] = [] ∷ []
split_nl (c ∷ cs) = let rest = split_nl cs in if c == 10 then [] ∷ rest else push c rest

-- data.count(b"\n")
unfoldable pub count_nl : Bytes → ℕ
count_nl [] = 0
count_nl (c ∷ cs) = let rest = count_nl cs in if c == 10 then suc rest else rest

abbrev pub later : Option ℕ → Option ℕ
later none = none
later (some i) = some (suc i)

abbrev pub or_here : Bool → Option ℕ → Option ℕ
or_here b (some i) = some i
or_here true none = some 0
or_here false none = none

-- data.rfind(b"\n"), with `none` for -1
unfoldable pub rfind_nl : Bytes → Option ℕ
rfind_nl [] = none
rfind_nl (c ∷ cs) = or_here (c == 10) (later (rfind_nl cs))

-- lines[:-1]
unfoldable pub all_but_last : List Bytes → List Bytes
all_but_last [] = []
all_but_last (l ∷ []) = []
all_but_last (l ∷ l' ∷ ls) = l ∷ all_but_last (l' ∷ ls)

-- *complete, rest = lines
unfoldable pub last_line : List Bytes → Bytes
last_line [] = []
last_line (l ∷ []) = l
last_line (l ∷ l' ∷ ls) = last_line (l' ∷ ls)

-- sum(len(b) + 1 for b in lines)
unfoldable pub bytes_of : List Bytes → ℕ
bytes_of [] = 0
bytes_of (l ∷ ls) = length l + 1 + bytes_of ls

-- text.rstrip("\r")
unfoldable pub rstrip_cr : String → String
rstrip_cr String.[] = ""
rstrip_cr (String.◌∷◌ c s) =
    let rest = rstrip_cr s in if (rest is "") && (code c == 13) then "" else String.◌∷◌ c rest

-- The lines of some bytes that are ended by a newline, without it.
abbrev pub prefixed : ℕ → List Bytes → List Bytes
prefixed c [] = []
prefixed c (l ∷ ls) = (c ∷ l) ∷ ls

abbrev pub complete_lines : Bytes → List Bytes
complete_lines [] = []
complete_lines (c ∷ cs) =
    let rest = complete_lines cs in if c == 10 then [] ∷ rest else prefixed c rest

-- The last `n` of some lines.
abbrev pub last_of_lines : ℕ → List Bytes → List Bytes
last_of_lines n ls = drop (length ls - n) ls

-- What stands before the last `n` of some lines.
abbrev pub before_last : ℕ → List Bytes → List Bytes
before_last n ls = take (length ls - n) ls

-- Nothing stands after the last newline.
abbrev pub EndsLine : Bytes → Type 0
EndsLine bs = last_line (split_nl bs) ≡ []
