-- ===== src/Delta/Slots.antt =====
-- The partly filled array of the sparse array branch of `read_patched_value` of viewer.rs.
use halospawns_infra.Prelude.{ℕ, zero, suc, Option, none, some}
use halospawns_infra.Delta.Value.{Value, Items, nil, cons}

-- The `Vec<Option<DecodedValue>>` of a sparse array: some items are not yet read.
pub data Slots : Type 0 where
  stop : Slots
  hole : Slots → Slots
  slot : Value → Slots → Slots

-- `previous.iter().take(length).cloned().map(Some)`, then `resize(length, None)`
unfoldable pub slots_of : ℕ → Items → Slots
slots_of zero vs = stop
slots_of (suc n) nil = hole (slots_of n nil)
slots_of (suc n) (cons v vs) = slot v (slots_of n vs)

-- `output[index] = Some(value)`
unfoldable pub put_slot : Slots → ℕ → Value → Slots
put_slot stop i w = stop
put_slot (hole ss) zero w = slot w ss
put_slot (slot v ss) zero w = slot w ss
put_slot (hole ss) (suc i) w = hole (put_slot ss i w)
put_slot (slot v ss) (suc i) w = slot v (put_slot ss i w)

abbrev cons_some : Value → Option Items → Option Items
cons_some v none = none
cons_some v (some vs) = some (cons v vs)

-- `into_iter().collect::<Option<Vec<_>>>()`
unfoldable pub all_slots : Slots → Option Items
all_slots stop = some nil
all_slots (hole ss) = none
all_slots (slot v ss) = cons_some v (all_slots ss)
