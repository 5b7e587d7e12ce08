-- ===== src/Delta/Read.antt =====
-- Reading values: `decoded_number` and `read_value` of viewer.rs.
use halospawns_infra.Prelude.{
  ℕ, zero, suc, ◌+◌, ◌*◌, Bool, true, false, List, [], ◌∷◌, ltb, ◌==◌, if◌then◌else◌,
}
use halospawns_infra.Prelude.Int.{ℤ, pos, sub_ℕ}
use halospawns_infra.Delta.Error.{
  decoded_depth, malformed_sign, decoded_nonfinite, unknown_value_tag,
}
use halospawns_infra.Delta.Codes.{
  value_null, value_false, value_true, value_integer, value_float32, value_float64, value_string,
  value_array, value_object,
}
use halospawns_infra.Delta.Floats.{Floats, is_finite}
use halospawns_infra.Delta.Value.{
  Value, null, bool, number, string, array, object, Items, nil, cons, Fields, end, insert,
}
use halospawns_infra.Delta.Reader
use halospawns_infra.Delta.Reader.{M, ◌>>=◌, pure, raise, byte, varuint}

-- `from_le_bytes`
unfoldable pub from_le : List ℕ → ℕ
from_le [] = 0
from_le (b ∷ bs) = b + 256 * from_le bs

-- fn decoded_number
unfoldable pub decoded_number : ℕ → M Value
decoded_number v = if is_finite v then pure (number v) else raise decoded_nonfinite

-- `i64::try_from(magnitude)` cannot fail, since `varuint` is at most 2^53 - 1; -0 is 0.
unfoldable pub signed_integer : ℕ → ℕ → ℤ
signed_integer sign magnitude = if sign == 1 then sub_ℕ 0 magnitude else pos magnitude

module _ (F : Floats) (is_utf8 : List ℕ → Bool) where
  unfoldable pub read_integer : M Value
  unfolding decoded_number signed_integer
  read_integer = do
    sign ← byte
    if ltb 1 sign
        then raise malformed_sign
        else do magnitude ← varuint; decoded_number (F.of_i64 (signed_integer sign magnitude))

  unfoldable pub read_float32 : M Value
  unfolding decoded_number from_le
  read_float32 = do bs ← Reader.bytes 4; decoded_number (F.widen (from_le bs))

  unfoldable pub read_float64 : M Value
  unfolding decoded_number from_le
  read_float64 = do bs ← Reader.bytes 8; decoded_number (from_le bs)

  unfoldable pub read_string : M Value
  read_string = do s ← Reader.string is_utf8; pure (string s)

  -- `for _ in 0..length { values.push(read_value(..)?) }`
  unfoldable pub read_items : ℕ → M Value → M Items
  read_items zero rec = pure nil
  read_items (suc n) rec = do v ← rec; vs ← read_items n rec; pure (cons v vs)

  -- `for _ in 0..length { values.insert(reader.string()?, read_value(..)?) }`
  unfoldable pub read_fields : ℕ → M Value → Fields → M Fields
  read_fields zero rec values = pure values
  read_fields (suc n) rec values = do
    k ← Reader.string is_utf8
    v ← rec
    read_fields n rec (insert values k v)

  unfoldable pub read_array : M Value → M Value
  read_array rec = do n ← varuint; vs ← read_items n rec; pure (array vs)

  unfoldable pub read_object : M Value → M Value
  read_object rec = do n ← varuint; fs ← read_fields n rec end; pure (object fs)

  -- The match on the tag; `rec` reads a value one level further down.
  unfoldable pub read_tagged : M Value → ℕ → M Value
  read_tagged rec tag =
      if tag == value_null
      then pure null
      else if tag == value_false
      then pure (bool false)
      else if tag == value_true
      then pure (bool true)
      else if tag == value_integer
      then read_integer
      else if tag == value_float32
      then read_float32
      else if tag == value_float64
      then read_float64
      else if tag == value_string
      then read_string
      else if tag == value_array
      then read_array rec
      else if tag == value_object
      then read_object rec
      else raise unknown_value_tag

  -- fn read_value. The argument is how many levels are left, MAX_JSON_DEPTH + 1 - depth.
  unfoldable pub read_value : ℕ → M Value
  read_value zero = raise decoded_depth
  read_value (suc levels) = do tag ← byte; read_tagged (read_value levels) tag
