-- ===== src/Common/Json.antt =====
-- Values of JavaScript as they come from JSON: reading a property that is absent gives `undefined`.
use Prim.Native.Nat.{ℕ}
use Prim.Native.String.{String}
use mathlib.Core.Bool.{Bool}
use donnav.Common.Tests.{◌==◌, string_eq, if◌then◌else◌}

-- A number is whole here, or one of those that are not finite.
pub data Numeric : Type 0 where
  finite : ℕ → Numeric
  not_finite : Numeric

mutual
  pub data Value : Type 0 where
    undefined null : Value
    boolean : Bool → Value
    number : Numeric → Value
    text : String → Value
    array : Values → Value
    object : Fields → Value

  pub data Values : Type 0 where
    no_items : Values
    item : Value → Values → Values

  pub data Fields : Type 0 where
    no_fields : Fields
    field : String → Value → Fields → Fields

-- `record[key]`
unfoldable pub lookup : Fields → String → Value
lookup no_fields key = undefined
lookup (field k v fields) key = if k == key then v else lookup fields key
