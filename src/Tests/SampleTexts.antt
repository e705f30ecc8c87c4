-- ===== src/Tests/SampleTexts.antt =====
-- Texts that satisfy the laws: a number is written with as many strokes.
use Prim.Native.String.{◌++◌}
use s1t_python_backend_templ.Base.{ℕ, zero, suc, ◌≡◌, refl, ap, String, none, some, true, false}
use s1t_python_backend_templ.Shared.Json.{
  Json, null, boolean, number, text, array, object, Items, nil, cons, Fields, empty, field,
}
use s1t_python_backend_templ.Shared.Texts.{Texts, split_bar}

strokes : ℕ → String
strokes zero = ""
strokes (suc n) = String.◌∷◌ "x" (strokes n)

count_strokes : String → ℕ
count_strokes String.[] = 0
count_strokes (String.◌∷◌ c s) = suc (count_strokes s)

count_strokes-strokes : (n : ℕ) → count_strokes (strokes n) ≡ n
unfolding strokes count_strokes
count_strokes-strokes zero = refl
count_strokes-strokes (suc n) = ap suc (count_strokes-strokes n)

split_bar-strokes : (n : ℕ) → split_bar (strokes n) ≡ none
unfolding strokes split_bar
split_bar-strokes zero = refl
split_bar-strokes (suc n) = rw (split_bar-strokes n) refl

mutual
  render : Json → String
  render null = "null"
  render (boolean true) = "true"
  render (boolean false) = "false"
  render (number s) = s
  render (text s) = "'" ++ s ++ "'"
  render (array xs) = "[" ++ render_items xs ++ "]"
  render (object fs) = "{" ++ render_fields fs ++ "}"

  render_items : Items → String
  render_items nil = ""
  render_items (cons x xs) = render x ++ "," ++ render_items xs

  render_fields : Fields → String
  render_fields empty = ""
  render_fields (field k v fs) = k ++ ":" ++ render v ++ "," ++ render_fields fs

unfoldable pub texts : Texts
unfolding strokes count_strokes render count_strokes-strokes split_bar-strokes
texts = record {
  uuid_text = strokes;
  uuid = λ s. some (count_strokes s);
  uuid_law = λ i. ap some (count_strokes-strokes i);
  isoformat = strokes;
  fromisoformat = λ s. some (count_strokes s);
  iso_law = λ t. ap some (count_strokes-strokes t);
  iso_bar = split_bar-strokes;
  b64encode = λ s. s;
  b64decode = λ s. some s;
  b64_law = λ s. refl;
  digest = render;
}
