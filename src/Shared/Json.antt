-- ===== src/Shared/Json.antt =====
-- JSON values, as `dict[str, Any]` documents hold them. A number is kept as its text.
use s1t_python_backend_templ.Base.{String, Bool}

mutual
  pub data Json : Type 0 where
    null : Json
    boolean : Bool → Json
    number : String → Json
    text : String → Json
    array : Items → Json
    object : Fields → Json

  pub data Items : Type 0 where
    nil : Items
    cons : Json → Items → Items

  -- A dict in its insertion order.
  pub data Fields : Type 0 where
    empty : Fields
    field : String → Json → Fields → Fields
