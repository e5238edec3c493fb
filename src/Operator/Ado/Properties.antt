-- ===== src/Operator/Ado/Properties.antt =====
-- util/properties.go: a property in the decoded JSON of an agent.
use kube_actions.Prelude.{String, Bool, Option, none, some, if◌then◌else◌, ◌==◌}

-- `interface{}`, as far as the code tells values apart.
mutual
  pub data Value : Type 0 where
    null : Value
    boolean : Bool → Value
    another : String → Value
    object : Fields → Value

  pub data Fields : Type 0 where
    end : Fields
    field : String → Value → Fields → Fields

-- `m[key]` with `ok`
unfoldable pub field_of : Fields → String → Option Value
field_of end key = none
field_of (field k v fields) key = if k == key then some v else field_of fields key

-- `v.(map[string]interface{})` and a lookup in it, null if either fails.
unfoldable pub property_in : Value → String → Value
unfolding field_of
property_in (object fields) key = elim (field_of fields key) [ none ↦ null | some v ↦ v ]
property_in v key = null

unfoldable pub get_property_value : Value → String → Value
unfolding property_in
get_property_value properties key = property_in (property_in properties key) "$value"

-- `v == true`
unfoldable pub is_true : Value → Bool
is_true (boolean b) = b
is_true v = Bool.false
