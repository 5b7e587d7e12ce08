-- ===== src/Delta/Write.antt =====
-- Writing values: `write_number` and `write_value` of viewer.rs.
use halospawns_infra.Prelude.{
  ℕ, zero, suc, ◌+◌, ◌/◌, ◌%◌, true, false, ◌&&◌, not, List, [], ◌∷◌, if◌then◌else◌,
}
use halospawns_infra.Prelude.Int.{ℤ, pos, negsuc, pos_part, neg_part}
use halospawns_infra.Delta.Error.{nonfinite_number}
use halospawns_infra.Delta.Codes.{
  value_null, value_false, value_true, value_integer, value_float32, value_float64, value_string,
  value_array, value_object,
}
use halospawns_infra.Delta.Floats.{Floats, is_finite, negative_zero, exact_f32, is_safe_integer}
use halospawns_infra.Delta.Value.{
  Value, null, bool, number, string, array, object, Items, nil, cons, Fields, end, field,
  length_items, length_fields,
}
use halospawns_infra.Delta.Writer
use halospawns_infra.Delta.Writer.{Write, ◌>>◌, done, raise, byte, bytes, varuint}

-- `to_le_bytes` of a number of n bytes
unfoldable pub to_le : ℕ → ℕ → List ℕ
to_le zero v = []
to_le (suc n) v = (v % 256) ∷ to_le n (v / 256)

-- `unsigned_abs`
abbrev pub unsigned_abs : ℤ → ℕ
unsigned_abs i = pos_part i + neg_part i

-- `u8::from(integer < 0)`
abbrev pub sign_byte : ℤ → ℕ
sign_byte (pos n) = 0
sign_byte (negsuc n) = 1

module _ (F : Floats) where
  -- fn write_number
  unfoldable pub write_number : ℕ → Write
  unfolding to_le
  write_number v =
      if not (is_finite v)
      then raise nonfinite_number
      else if is_safe_integer F v
      then (do
        byte value_integer
        byte (sign_byte (F.to_i64 v))
        varuint (unsigned_abs (F.to_i64 v)))
      else if exact_f32 F v && not (negative_zero v)
      then (do byte value_float32; bytes (to_le 4 (F.narrow v)))
      else (do byte value_float64; bytes (to_le 8 v))

  -- fn write_value
  unfoldable mutual
    pub write_value : Value → Write
    write_value null = byte value_null
    write_value (bool false) = byte value_false
    write_value (bool true) = byte value_true
    write_value (number v) = write_number v
    write_value (string s) = do byte value_string; Writer.string s
    write_value (array vs) = do byte value_array; varuint (length_items vs); write_items vs
    write_value (object fs) = do byte value_object; varuint (length_fields fs); write_fields fs

    pub write_items : Items → Write
    write_items nil = done
    write_items (cons v vs) = do write_value v; write_items vs

    pub write_fields : Fields → Write
    write_fields end = done
    write_fields (field k v fs) = do Writer.string k; write_value v; write_fields fs
