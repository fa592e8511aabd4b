-- ===== src/Json.antt =====
-- The values of the JSON library that the program builds. Members keep the order in which they
-- were set; how a value is written out as text is the library's.
use blockchain_indexer.Base.{ℕ, ℤ, pos, Bool, List, [], ◌∷◌, Str, if◌then◌else◌}
use blockchain_indexer.Base.Text.{text, str_eq}
use Prim.Native.String.{String}

mutual
  pub data Json : Type 0 where
    null : Json
    bool : Bool → Json
    number : ℤ → Json
    string : Str → Json
    array : Items → Json
    object : Members → Json

  pub data Items : Type 0 where
    nil : Items
    cons : Json → Items → Items

  pub data Members : Type 0 where
    end : Members
    member : String → Json → Members → Members

abbrev pub items : List Json → Items
items [] = nil
items (j ∷ js) = cons j (items js)

abbrev pub members : List (String × Json) → Members
members [] = end
members ((k, j) ∷ ms) = member k j (members ms)

abbrev pub json_array : List Json → Json
json_array js = array (items js)

abbrev pub json_object : List (String × Json) → Json
json_object ms = object (members ms)

abbrev pub natural : ℕ → Json
natural n = number (pos n)

-- The value of a member, as `txo["name"]` reads it.
unfoldable pub member_of : String → Members → Json
member_of name end = null
member_of name (member k j ms) =
    let rest = member_of name ms in if str_eq (text k) (text name) then j else rest
