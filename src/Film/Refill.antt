-- ===== src/Film/Refill.antt =====
-- `map` and `value` of lambda/h1_film/encoder/src/recycle.rs: a value filled again in place from another,
-- so that its allocations are kept.
pub mod Filled
use halospawns_infra.Prelude.{Bool, true, false, ◌&&◌, not, ◌==◌, if◌then◌else◌}
use halospawns_infra.Delta.Value.{
  Value, null, bool, number, string, array, object, Items, nil, cons, Fields, end, field,
  length_fields,
}
use halospawns_infra.Film.TextEqual.{equal}
use halospawns_infra.Film.OrderedDelta.{keys_equal}

-- fn value (`refill`) and fn map (`refill_fields`): what the target is afterwards. A clone of the source
-- is the source.
unfoldable mutual
  pub refill : Value → Value → Value
  refill (object target) (object source) =
      if (length_fields target == length_fields source) && keys_equal target source
      then object (refill_values target source)
      else object source
  refill (array target) (array source) = array (refill_items target source)
  refill (string target) (string source) =
      if not (equal target source) then string source else string target
  refill null source = source
  refill (bool b) source = source
  refill (number n) source = source
  refill (string target) null = null
  refill (string target) (bool b) = bool b
  refill (string target) (number n) = number n
  refill (string target) (array source) = array source
  refill (string target) (object source) = object source
  refill (array target) null = null
  refill (array target) (bool b) = bool b
  refill (array target) (number n) = number n
  refill (array target) (string source) = string source
  refill (array target) (object source) = object source
  refill (object target) null = null
  refill (object target) (bool b) = bool b
  refill (object target) (number n) = number n
  refill (object target) (string source) = string source
  refill (object target) (array source) = array source

  -- `resize_with(source.len(), || Value::Null)`, then the items one by one
  pub refill_items : Items → Items → Items
  refill_items target nil = nil
  refill_items nil (cons s source) = cons (refill null s) (refill_items nil source)
  refill_items (cons t target) (cons s source) = cons (refill t s) (refill_items target source)

  -- `target.values_mut().zip(source.values())`: the keys stay those of the target.
  pub refill_values : Fields → Fields → Fields
  refill_values end source = end
  refill_values (field j t target) end = field j t target
  refill_values (field j t target) (field k s source) =
      field j (refill t s) (refill_values target source)
