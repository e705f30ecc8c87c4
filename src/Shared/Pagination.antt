-- ===== src/Shared/Pagination.antt =====
-- Keyset pagination: shared/generics/pagination.py and shared/adapters/driven/postgres/keyset.py.
pub mod Cursor
pub mod Pages
pub mod Walk
use Prim.Native.String.{◌++◌}
use s1t_python_backend_templ.Shared.Errors.{Error, value_error}
use s1t_python_backend_templ.Shared.Texts.{Texts, split_bar}
use s1t_python_backend_templ.Base.{
  none, some, Result, ok, err, ℕ, String, Bool, List, Option, ◌&&◌, ◌||◌, ◌==◌, ltb,
}

-- Page[T]
pub record Page (A : Type 0) : Type 0 where
  pub items : List A
  pub next_cursor : Option String

-- `tuple_(ts, id) < tuple_(...)`: row values compare lexicographically.
abbrev pub before : ℕ × ℕ → ℕ × ℕ → Bool
before (t, i) (t', i') = ltb t t' || (t == t' && ltb i i')

-- keyset_older_than(ts_col, id_col, after), for a row at `(ts, id)`.
abbrev pub keyset_older_than : ℕ × ℕ → ℕ × ℕ → Bool
keyset_older_than row after = before row after

-- f"{ts.isoformat()}|{item_id}", in base64
unfoldable pub encode_cursor : Texts → ℕ → ℕ → String
encode_cursor texts ts item_id =
    texts.b64encode (texts.isoformat ts ++ "|" ++ texts.uuid_text item_id)

abbrev pub or_value_error : {A : Type 0} → Option A → Result Error A
or_value_error none = err value_error
or_value_error (some a) = ok a

abbrev pub then_parse : {A B : Type 0} → Result Error A → (A → Result Error B) → Result Error B
then_parse (ok a) f = f a
then_parse (err e) f = err e

-- The texts around the first '|'.
abbrev pub parse_position : Texts → String × String → Result Error (ℕ × ℕ)
parse_position texts (ts_str, id_str) =
    then_parse (or_value_error (texts.fromisoformat ts_str))
      (λ ts. then_parse (or_value_error (texts.uuid id_str)) (λ i. ok (ts, i)))

unfoldable pub decode_cursor : Texts → String → Result Error (ℕ × ℕ)
unfolding split_bar
decode_cursor texts cursor =
    then_parse (or_value_error (texts.b64decode cursor))
      (λ raw. then_parse (or_value_error (split_bar raw)) (parse_position texts))
