-- ===== src/Common/Objects.antt =====
-- Object literals with optional properties, `...(v !== undefined ? { k: v } : {})`, and what is read
-- of them.
use Prim.Native.String.{String}
use mathlib.Core.Path.{◌≡◌, refl, subst}
use mathlib.Core.Bool.{Bool, true, not, ◌&&◌}
use mathlib.Core.Option.{Option, none, some}
use mathlib.Core.List.{List, [], ◌∷◌}
use native.Mathlib.Omega.{arith}
use text.Mathlib.TextEquality.{eq_iff}
use donnav.Common.Tests.{◌==◌, string_eq, if◌then◌else◌}
use donnav.Common.Json.{Value, undefined, Fields, no_fields, field, lookup}

abbrev pub Property : Type 0
Property = String × Option Value

abbrev pub with_property : String → Option Value → Fields → Fields
with_property k none rest = rest
with_property k (some v) rest = field k v rest

unfoldable pub object_of : List Property → Fields
object_of [] = no_fields
object_of ((k, v) ∷ properties) = with_property k v (object_of properties)

abbrev pub or_undefined : Option Value → Value
or_undefined none = undefined
or_undefined (some v) = v

abbrev pub is_absent : String → List Property → Bool
is_absent key [] = true
is_absent key ((k, v) ∷ properties) = not (k == key) && is_absent key properties

abbrev pub all_distinct : List Property → Bool
all_distinct [] = true
all_distinct ((k, v) ∷ properties) = is_absent k properties && all_distinct properties

abbrev pub property_of : List Property → String → Value
property_of [] key = undefined
property_of ((k, v) ∷ properties) key =
    let rest = property_of properties key in if k == key then or_undefined v else rest

property_of-is_absent :
    (properties : List Property) (key : String)
    → is_absent key properties ≡ true
    → property_of properties key ≡ undefined
property_of-is_absent [] key h = refl
property_of-is_absent ((k, v) ∷ properties) key h =
    ground (arith, property_of-is_absent properties key)

lookup-with_property :
    (k key : String) (v : Option Value) (rest : Fields) (read : Value)
    → lookup rest key ≡ read
    → (k ≡ key → read ≡ undefined)
    → lookup (with_property k v rest) key ≡ (if k == key then or_undefined v else read)
unfolding lookup
lookup-with_property k key none rest read e absent = ground (arith, eq_iff k key)
lookup-with_property k key (some v) rest read e absent = ground (arith, eq_iff k key)

fresh_key :
    (k : String) (properties : List Property)
    → (is_absent k properties && all_distinct properties) ≡ true
    → is_absent k properties ≡ true
fresh_key k properties h = ground arith

-- Reading a property of an object literal with different keys gives what was written for it.
pub lookup-object_of :
    (properties : List Property) (key : String)
    → all_distinct properties ≡ true
    → lookup (object_of properties) key ≡ property_of properties key
unfolding object_of lookup
lookup-object_of [] key h = refl
lookup-object_of ((k, v) ∷ properties) key h =
    lookup-with_property k key v (object_of properties) (property_of properties key)
      (lookup-object_of properties key (ground arith))
      (λ e.
        property_of-is_absent properties key
          (subst (λ name. is_absent name properties ≡ true) e (fresh_key k properties h)))
