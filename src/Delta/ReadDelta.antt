-- ===== src/Delta/ReadDelta.antt =====
-- `read_patched_value` of viewer.rs: a value from what differs from the one before.
use halospawns_infra.Prelude.{
  ℕ, zero, suc, ◌+◌, Bool, true, false, Option, some, List, ltb, ◌==◌, if◌then◌else◌,
}
use halospawns_infra.Prelude.Results.{ok_or}
use halospawns_infra.Delta.Error.{
  patch_depth, missing_same_base, malformed_object_base, malformed_array_base,
  malformed_array_index, undefined_item, malformed_dense_base, unknown_delta_tag,
}
use halospawns_infra.Delta.Codes.{
  delta_same, delta_replace, delta_object, delta_array, delta_number_xor, delta_float32_xor,
  delta_integer_difference, delta_dense_array, delta_dense_float32_difference_array,
  delta_float32_difference, delta_dense_float32_xor_array, delta_dense_float32_bit_prediction_array,
  delta_dense_float32_value_prediction_array, delta_float32_bit_prediction,
  delta_float32_value_prediction, delta_dense_float32_bitpacked_array,
}
use halospawns_infra.Delta.Floats.{Floats}
use halospawns_infra.Delta.Value.{
  Value, array, object, Items, nil, cons, Fields, items_of, fields_of, and_then, item_at, field_at,
  insert, shift_remove,
}
use halospawns_infra.Delta.Reader
use halospawns_infra.Delta.Reader.{M, ◌>>=◌, pure, raise, lift_result, byte, varuint}
use halospawns_infra.Delta.Read.{read_value}
use halospawns_infra.Delta.Slots.{Slots, slots_of, put_slot, all_slots}
use halospawns_infra.Delta.PatchNumber.{
  read_number_xor, read_float32_delta, read_integer_delta, read_prediction,
}
use halospawns_infra.Delta.PatchFloats.{read_float_array}

-- A patch of the value at one place: the value there before, and the one before that.
abbrev pub Patcher : Type 0
Patcher = Option Value → Option Value → M Value

module _ (F : Floats) (is_utf8 : List ℕ → Bool) where
  -- `for _ in 0..reader.varuint()? { output.shift_remove(reader.string()?) }`
  unfoldable pub read_deletions : ℕ → Fields → M Fields
  read_deletions zero output = pure output
  read_deletions (suc n) output = do
    k ← Reader.string is_utf8
    read_deletions n (shift_remove output k)

  unfoldable pub read_changes : ℕ → Patcher → Fields → Option Fields → Fields → M Fields
  read_changes zero patch previous before output = pure output
  read_changes (suc n) patch previous before output = do
    k ← Reader.string is_utf8
    v ← patch (field_at previous k) (and_then before (λ bs. field_at bs k))
    read_changes n patch previous before (insert output k v)

  -- DELTA_OBJECT
  unfoldable pub patch_object : Patcher → Option Value → Option Value → M Value
  patch_object patch previous before = do
    ps ← lift_result (ok_or (and_then previous fields_of) malformed_object_base)
    deletions ← varuint
    kept ← read_deletions deletions ps
    changes ← varuint
    fs ← read_changes changes patch ps (and_then before fields_of) kept
    pure (object fs)

  unfoldable pub read_slots : ℕ → Patcher → ℕ → Items → Option Items → Slots → M Slots
  read_slots zero patch length previous before output = pure output
  read_slots (suc n) patch length previous before output = do
    index ← varuint
    if ltb index length
        then (do
          v ← patch (item_at previous index) (and_then before (λ bs. item_at bs index))
          read_slots n patch length previous before (put_slot output index v))
        else raise malformed_array_index

  -- DELTA_ARRAY
  unfoldable pub patch_array : Patcher → Option Value → Option Value → M Value
  patch_array patch previous before = do
    ps ← lift_result (ok_or (and_then previous items_of) malformed_array_base)
    length ← varuint
    changes ← varuint
    slots ← read_slots changes patch length ps (and_then before items_of) (slots_of length ps)
    vs ← lift_result (ok_or (all_slots slots) undefined_item)
    pure (array vs)

  unfoldable pub read_dense : Items → ℕ → Patcher → Option Items → M Items
  read_dense nil i patch before = pure nil
  read_dense (cons p ps) i patch before = do
    v ← patch (some p) (and_then before (λ bs. item_at bs i))
    vs ← read_dense ps (i + 1) patch before
    pure (cons v vs)

  -- DELTA_DENSE_ARRAY
  unfoldable pub patch_dense : Patcher → Option Value → Option Value → M Value
  patch_dense patch previous before = do
    ps ← lift_result (ok_or (and_then previous items_of) malformed_dense_base)
    vs ← read_dense ps 0 patch (and_then before items_of)
    pure (array vs)

  -- The match on the tag; `patch` reads a value one level further down, `replaced` one at this level.
  unfoldable pub patch_tagged : Patcher → M Value → Option Value → Option Value → ℕ → M Value
  patch_tagged patch replaced previous before tag =
      if tag == delta_same
      then lift_result (ok_or previous missing_same_base)
      else if tag == delta_replace
      then replaced
      else if tag == delta_object
      then patch_object patch previous before
      else if tag == delta_array
      then patch_array patch previous before
      else if tag == delta_number_xor
      then read_number_xor previous
      else if tag == delta_float32_xor
      then read_float32_delta F previous true
      else if tag == delta_integer_difference
      then read_integer_delta F previous
      else if tag == delta_dense_array
      then patch_dense patch previous before
      else if tag == delta_float32_difference
      then read_float32_delta F previous false
      else if tag == delta_float32_bit_prediction
      then read_prediction F previous before true
      else if tag == delta_float32_value_prediction
      then read_prediction F previous before false
      else if tag == delta_dense_float32_difference_array
      then read_float_array F tag previous before
      else if tag == delta_dense_float32_xor_array
      then read_float_array F tag previous before
      else if tag == delta_dense_float32_bit_prediction_array
      then read_float_array F tag previous before
      else if tag == delta_dense_float32_value_prediction_array
      then read_float_array F tag previous before
      else if tag == delta_dense_float32_bitpacked_array
      then read_float_array F tag previous before
      else raise unknown_delta_tag

  -- fn read_patched_value, with the levels that are left as in `read_value`.
  unfoldable pub read_patched : ℕ → Option Value → Option Value → M Value
  read_patched zero previous before = raise patch_depth
  read_patched (suc levels) previous before = do
    tag ← byte
    patch_tagged (read_patched levels) (read_value F is_utf8 (suc levels)) previous before tag
