-- ===== src/Admin/Log/Export/Context.antt =====
-- The context of an entry: what its columns do not show.
use s1t_python_backend_templ.Base.{
  ◌≡◌, refl, Bool, true, false, String, Option, none, some, if◌then◌else◌, ◌is◌, eq_iff, eq_refl,
  ◌∙◌, Bool-cases, inl, inr,
}
use s1t_python_backend_templ.Shared.Json.{Json, Fields}
use s1t_python_backend_templ.Admin.Log.Entry.{get}
use s1t_python_backend_templ.Admin.Log.Export.{is_promoted, context_of}

promoted_or :
    (b : Bool) (key k : String) (v : Json) (rest : Fields)
    → is_promoted k ≡ b
    → get key (if b then rest else Fields.field k v rest)
      ≡ (if b then get key rest else if k is key then some v else get key rest)
promoted_or true key k v rest e = refl
promoted_or false key k v rest e = refl

kept_field :
    (key k : String) (v : Json) (seen raw : Option Json)
    → seen ≡ (if is_promoted key then none else raw)
    → (if is_promoted k then seen else if k is key then some v else seen)
      ≡ (if is_promoted key then none else if k is key then some v else raw)
kept_field key k v seen raw h = elim (Bool-cases (k is key)) [
  | inl same ↦
      rw ((eq_iff k key).0 same, eq_refl key, h)
        (elim (Bool-cases (is_promoted key)) [ inl e ↦ rw e refl | inr e ↦ rw e refl ])
  | inr other ↦
      rw (other, h) (elim (Bool-cases (is_promoted k)) [ inl e ↦ rw e refl | inr e ↦ rw e refl ])
]

-- A field of a log line is in the context exactly if it is not a column of its own.
get-context_of :
    (key : String) (raw : Fields)
    → get key (context_of raw) ≡ (if is_promoted key then none else get key raw)
unfolding context_of
get-context_of key Fields.empty = elim (Bool-cases (is_promoted key)) [
  | inl e ↦ rw e refl
  | inr e ↦ rw e refl
]
get-context_of key (Fields.field k v fs) =
    promoted_or (is_promoted k) key k v (context_of fs) refl
    ∙ kept_field key k v (get key (context_of fs)) (get key fs) (get-context_of key fs)
