-- ===== src/Delta/ExactEqual.antt =====
-- `deep_exact_equal` of viewer.rs.
use halospawns_infra.Prelude.{Bool, true, false, ◌&&◌, ◌==◌}
use halospawns_infra.Delta.Writer.{text_eq}
use halospawns_infra.Delta.Same.{bool_eq}
use halospawns_infra.Delta.Value.{
  Value, null, bool, number, string, array, object, Items, nil, cons, Fields, end, field,
}

-- The tests of the lengths are the ends of the lists.
unfoldable mutual
  unfolding text_eq bool_eq

  pub deep_exact_equal : Value → Value → Bool
  deep_exact_equal (number a) (number b) = a == b
  deep_exact_equal (array vs) (array ws) = items_equal vs ws
  deep_exact_equal (object fs) (object gs) = fields_equal fs gs
  deep_exact_equal null null = true
  deep_exact_equal (bool a) (bool b) = bool_eq a b
  deep_exact_equal (string a) (string b) = text_eq a b
  deep_exact_equal v w = false

  pub items_equal : Items → Items → Bool
  items_equal nil nil = true
  items_equal nil (cons w ws) = false
  items_equal (cons v vs) nil = false
  items_equal (cons v vs) (cons w ws) = deep_exact_equal v w && items_equal vs ws

  pub fields_equal : Fields → Fields → Bool
  fields_equal end end = true
  fields_equal end (field k w gs) = false
  fields_equal (field j v fs) end = false
  fields_equal (field j v fs) (field k w gs) =
      text_eq j k && (deep_exact_equal v w && fields_equal fs gs)
