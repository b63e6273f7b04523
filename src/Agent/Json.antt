-- ===== src/Agent/Json.antt =====
-- The values that Python's json module decodes a text into. An object is the dict that it becomes, in
-- which a name stands once; a float is kept as its text.
use time_weaver.Prelude.{Option, none, some, String, Bool, ℤ, ◌==◌, if◌then◌else◌, text_comparable}

mutual
  pub data Json : Type 0 where
    null : Json
    boolean : Bool → Json
    number : ℤ → Json
    real : String → Json
    text : String → Json
    array : Items → Json
    object : Members → Json

  pub data Items : Type 0 where
    nil : Items
    item : Json → Items → Items

  pub data Members : Type 0 where
    end : Members
    member : String → Json → Members → Members

-- fields.get(name)
unfoldable pub value_at : String → Members → Option Json
value_at name end = none
value_at name (member other value fields) =
    if other == name then some value else value_at name fields

-- fields.get(name, default)
abbrev pub or_default : Json → Option Json → Json
or_default fallback none = fallback
or_default fallback (some value) = value
