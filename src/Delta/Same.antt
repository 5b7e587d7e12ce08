-- ===== src/Delta/Same.antt =====
-- `delta_same` and `same_scalar` of viewer.rs: equality of values, numbers by their bits and objects
-- whatever the order of their keys.
use halospawns_infra.Prelude.{Bool, true, false, ◌&&◌, Option, none, some, ◌==◌}
use halospawns_infra.Delta.Codes.{Text}
use halospawns_infra.Delta.Writer.{text_eq}
use halospawns_infra.Delta.Value.{
  Value, null, bool, number, string, array, object, Items, nil, cons, Fields, end, field, number_of,
  items_of, fields_of, length_items, length_fields, field_at,
}

unfoldable pub bool_eq : Bool → Bool → Bool
bool_eq true b = b
bool_eq false true = false
bool_eq false false = true

unfoldable pub is_null : Value → Bool
is_null null = true
is_null (bool b) = false
is_null (number v) = false
is_null (string s) = false
is_null (array vs) = false
is_null (object fs) = false

unfoldable pub is_bool : Bool → Value → Bool
unfolding bool_eq
is_bool a null = false
is_bool a (bool b) = bool_eq a b
is_bool a (number v) = false
is_bool a (string s) = false
is_bool a (array vs) = false
is_bool a (object fs) = false

unfoldable pub is_text : Text → Value → Bool
is_text a null = false
is_text a (bool b) = false
is_text a (number v) = false
is_text a (string s) = text_eq a s
is_text a (array vs) = false
is_text a (object fs) = false

unfoldable mutual
  pub same : Value → Value → Bool
  same null next = is_null next
  same (bool a) next = is_bool a next
  same (number a) next = elim (number_of next) [ none ↦ false | some b ↦ a == b ]
  same (string a) next = is_text a next
  same (array ps) next = elim (items_of next) [
    | none ↦ false
    | some ns ↦ (length_items ps == length_items ns) && items_same ps ns
  ]
  same (object ps) next = elim (fields_of next) [
    | none ↦ false
    | some ns ↦ (length_fields ps == length_fields ns) && fields_same ps ns
  ]

  -- `zip` stops with the shorter side.
  pub items_same : Items → Items → Bool
  items_same nil ns = true
  items_same (cons p ps) nil = true
  items_same (cons p ps) (cons n ns) = same p n && items_same ps ns

  pub fields_same : Fields → Fields → Bool
  fields_same end ns = true
  fields_same (field k v ps) ns =
      (elim (field_at ns k) [ none ↦ false | some w ↦ same v w ]) && fields_same ps ns

-- fn delta_same
unfoldable pub delta_same : Option Value → Value → Bool
delta_same none next = false
delta_same (some previous) next = same previous next
