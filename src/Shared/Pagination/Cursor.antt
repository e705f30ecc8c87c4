-- ===== src/Shared/Pagination/Cursor.antt =====
-- A cursor decodes to the position that it was made from.
use Prim.Native.Char.{code}
use Prim.Native.String.{◌++◌}
use Prim.Native.String.append
use s1t_python_backend_templ.Base.{
  ℕ, ◌≡◌, refl, inl, inr, Bool-cases, String, Option, none, some, ok, arith, ◌==◌,
}
use s1t_python_backend_templ.Shared.Texts.{Texts, split_bar, cons_first}
use s1t_python_backend_templ.Shared.Pagination.{encode_cursor, decode_cursor}

cons_first-eq_none :
    (c : Prim.Native.Char.Char) (o : Option (String × String)) → cons_first c o ≡ none → o ≡ none
cons_first-eq_none c none h = refl
cons_first-eq_none c (some p) h = cc

-- The first '|' of a text in front of which there is none.
split_bar-append :
    (s u : String) → split_bar s ≡ none → split_bar (s ++ String.◌∷◌ "|" u) ≡ some (s, u)
unfolding split_bar
split_bar-append String.[] u h = rw append.nil refl
split_bar-append (String.◌∷◌ c s) u h = elim (Bool-cases (code c == b'|')) [
  | inl bar ↦ absurd (ground (arith, bar))
  | inr other ↦
      rw append.cons
        (rw (other, split_bar-append s u (cons_first-eq_none c (split_bar s) (rw other at h))) refl)
]

-- decode_cursor is a left inverse of encode_cursor.
pub decode_cursor-encode_cursor :
    (texts : Texts) (ts item_id : ℕ)
    → decode_cursor texts (encode_cursor texts ts item_id) ≡ ok (ts, item_id)
unfolding decode_cursor encode_cursor
decode_cursor-encode_cursor texts ts item_id =
    rw
      (
        texts.b64_law,
        append.cons,
        append.nil,
        split_bar-append (texts.isoformat ts) (texts.uuid_text item_id) (texts.iso_bar ts),
        texts.iso_law,
        texts.uuid_law,
      )
      refl
