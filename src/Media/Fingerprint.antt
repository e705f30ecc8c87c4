-- ===== src/Media/Fingerprint.antt =====
-- `_canonical` and `_fingerprint` of media_example/app/upload_video_uc.py. Python compares keys by
-- code points.
use Prim.Native.Char.{code}
use s1t_python_backend_templ.Base.{
  ℕ, String, Bool, true, false, ◌&&◌, ◌||◌, ◌==◌, ltb, List, [], ◌∷◌, if◌then◌else◌,
}
use s1t_python_backend_templ.Shared.Json.{
  Json, null, boolean, number, text, array, object, Items, nil, cons, Fields, empty, field,
}
use s1t_python_backend_templ.Shared.Texts.{Texts}

abbrev pub codes : String → List ℕ
codes String.[] = []
codes (String.◌∷◌ c s) = code c ∷ codes s

unfoldable pub lex_lt : List ℕ → List ℕ → Bool
lex_lt _ [] = false
lex_lt [] (y ∷ ys) = true
lex_lt (x ∷ xs) (y ∷ ys) = ltb x y || (x == y && lex_lt xs ys)

-- `a < b` on str
unfoldable pub key_lt : String → String → Bool
unfolding lex_lt
key_lt a b = lex_lt (codes a) (codes b)

-- One step of `sorted`: a field goes in front of the first larger key.
unfoldable pub insert_sorted : String → Json → Fields → Fields
unfolding key_lt
insert_sorted k v empty = field k v empty
insert_sorted k v (field k' v' rest) =
    let later = insert_sorted k v rest in
    if key_lt k k' then field k v (field k' v' rest) else field k' v' later

unfoldable mutual
  unfolding insert_sorted

  -- `_canonical`
  pub canonical : Json → Json
  canonical null = null
  canonical (boolean b) = boolean b
  canonical (number s) = number s
  canonical (text s) = text s
  canonical (array xs) = array (canonical_items xs)
  canonical (object fs) = object (canonical_fields fs)

  pub canonical_items : Items → Items
  canonical_items nil = nil
  canonical_items (cons x xs) = cons (canonical x) (canonical_items xs)

  pub canonical_fields : Fields → Fields
  canonical_fields empty = empty
  canonical_fields (field k v rest) = insert_sorted k (canonical v) (canonical_fields rest)

-- `_fingerprint`
unfoldable pub fingerprint : Texts → String → Json → String
unfolding canonical
fingerprint texts source_key document =
    texts.digest
      (canonical (object (field "source_key" (text source_key) (field "document" document empty))))
