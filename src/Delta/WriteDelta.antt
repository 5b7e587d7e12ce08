-- ===== src/Delta/WriteDelta.antt =====
-- `write_delta` of viewer.rs: a value as what differs from the one before.
use halospawns_infra.Prelude.{
  ℕ, suc, ◌+◌, ◌/◌, ◌&&◌, not, Option, none, some, List, ltb, ◌==◌, length, if◌then◌else◌,
}
use halospawns_infra.Delta.Codes.{
  delta_same, delta_replace, delta_object, delta_array, delta_dense_array,
}
use halospawns_infra.Delta.Floats.{Floats}
use halospawns_infra.Delta.Value.{
  Value, null, bool, number, string, array, object, Items, nil, cons, Fields, end, field, number_of,
  items_of, fields_of, and_then, length_items, item_at, field_at, has_key,
}
use halospawns_infra.Delta.Same.{delta_same as is_same}
use halospawns_infra.Delta.Writer
use halospawns_infra.Delta.Writer.{Write, ◌>>◌, done, byte, varuint}
use halospawns_infra.Delta.Write.{write_value}
use halospawns_infra.Delta.Numbers.{write_number_delta}
use halospawns_infra.Delta.FloatArray.{exact_numbers, write_float_array}

-- How many of `next`, from index i on, differ from the item in the same place.
unfoldable pub count_changed : Items → ℕ → Items → ℕ
count_changed nil i ps = 0
count_changed (cons v vs) i ps =
    let rest = count_changed vs (i + 1) ps in if is_same (item_at ps i) v then rest else suc rest

-- `next.iter().filter(|(key, value)| !delta_same(previous.get(*key), value))`
unfoldable pub count_changes : Fields → Fields → ℕ
count_changes end ps = 0
count_changes (field k v fs) ps =
    let rest = count_changes fs ps in if is_same (field_at ps k) v then rest else suc rest

-- `previous.keys().filter(|key| !next.contains_key(*key))`
unfoldable pub count_deletions : Fields → Fields → ℕ
count_deletions end next = 0
count_deletions (field k v ps) next =
    let rest = count_deletions ps next in if has_key next k then rest else suc rest

unfoldable pub write_deletions : Fields → Fields → Write
write_deletions end next = done
write_deletions (field k v ps) next =
    let rest = write_deletions ps next in
    if has_key next k then rest else (do Writer.string k; rest)

-- `filter(|values| values.len() == previous.len())`
unfoldable pub same_length : ℕ → Option (List ℕ) → Option (List ℕ)
same_length n none = none
same_length n (some hs) = if length hs == n then some hs else none

module _ (F : Floats) where
  -- The history of a float array.
  unfoldable pub float_history : Items → Option Value → Option (List ℕ)
  float_history ps before =
      same_length (length_items ps) (and_then (and_then before items_of) (exact_numbers F))

  -- Both arrays are f32 arrays of one length, and not empty: their numbers.
  unfoldable pub float_arrays : Items → Items → Option (List ℕ × List ℕ)
  float_arrays ps vs =
      if (length_items ps == length_items vs) && not (length_items vs == 0)
      then and_then (exact_numbers F ps) (λ a. and_then (exact_numbers F vs) (λ b. some (a, b)))
      else none

  -- The branch for two numbers, and `DELTA_REPLACE`.
  unfoldable pub write_number_or_replace : Option Value → ℕ → Option Value → Write
  write_number_or_replace previous v before = elim (and_then previous number_of) [
    | none ↦ (do byte delta_replace; write_value F (number v))
    | some p ↦ write_number_delta F p v (and_then before number_of)
  ]

  unfoldable pub write_replace : Option Value → Value → Write
  write_replace previous next =
      if is_same previous next then byte delta_same else (do byte delta_replace; write_value F next)

  -- fn write_delta; the loops over `changed` and `changes` pass over what has not changed.
  unfoldable mutual
    pub write_delta : Option Value → Value → Option Value → Write
    write_delta previous null before = write_replace previous null
    write_delta previous (bool b) before = write_replace previous (bool b)
    write_delta previous (number v) before =
        if is_same previous (number v)
        then byte delta_same
        else write_number_or_replace previous v before
    write_delta previous (string s) before = write_replace previous (string s)
    write_delta previous (array vs) before =
        if is_same previous (array vs) then byte delta_same else elim (and_then previous items_of) [
          | none ↦ (do byte delta_replace; write_value F (array vs))
          | some ps ↦ elim (float_arrays ps vs) [
            | some (a, b) ↦ write_float_array F (float_history ps before) a b
            | none ↦
                if (length_items ps == length_items vs)
                  && ltb (length_items vs / 2) (count_changed vs 0 ps)
                then (do byte delta_dense_array; write_dense vs 0 ps (and_then before items_of))
                else (do
                  byte delta_array
                  varuint (length_items vs)
                  varuint (count_changed vs 0 ps)
                  write_changed vs 0 ps (and_then before items_of))
          ]
        ]
    write_delta previous (object fs) before =
        if is_same previous (object fs)
        then byte delta_same
        else elim (and_then previous fields_of) [
          | none ↦ (do byte delta_replace; write_value F (object fs))
          | some ps ↦ (do
            byte delta_object
            varuint (count_deletions ps fs)
            write_deletions ps fs
            varuint (count_changes fs ps)
            write_changes fs ps (and_then before fields_of))
        ]

    pub write_dense : Items → ℕ → Items → Option Items → Write
    write_dense nil i ps before = done
    write_dense (cons v vs) i ps before = do
      write_delta (item_at ps i) v (and_then before (λ bs. item_at bs i))
      write_dense vs (i + 1) ps before

    pub write_changed : Items → ℕ → Items → Option Items → Write
    write_changed nil i ps before = done
    write_changed (cons v vs) i ps before =
        let rest = write_changed vs (i + 1) ps before in
        if is_same (item_at ps i) v then rest else (do
          varuint i
          write_delta (item_at ps i) v (and_then before (λ bs. item_at bs i))
          rest)

    pub write_changes : Fields → Fields → Option Fields → Write
    write_changes end ps before = done
    write_changes (field k v fs) ps before =
        let rest = write_changes fs ps before in
        if is_same (field_at ps k) v then rest else (do
          Writer.string k
          write_delta (field_at ps k) v (and_then before (λ bs. field_at bs k))
          rest)
