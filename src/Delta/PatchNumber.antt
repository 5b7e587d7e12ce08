-- ===== src/Delta/PatchNumber.antt =====
-- Reading the delta of one number: the number branches of `read_patched_value` of viewer.rs.
use halospawns_infra.Prelude.{
  ℕ, ◌+◌, ◌*◌, ◌/◌, ◌%◌, ◌^◌, Bool, false, Option, none, some, bit_and, bit_xor, ltb, if◌then◌else◌,
}
use halospawns_infra.Prelude.Results.{Result, ok, err}
use halospawns_infra.Prelude.Int.{◌+ℤ◌}
use halospawns_infra.Delta.Error.{
  Error, missing_xor_base, malformed_xor_base, malformed_xor, missing_float32_base,
  malformed_float32_base, missing_integer_base, malformed_integer_base, unsafe_integer_delta,
  missing_prediction_base, malformed_prediction_base, missing_history, malformed_history,
}
use halospawns_infra.Delta.Codes.{safe_integer_max}
use halospawns_infra.Delta.Floats.{Floats, exact_f32}
use halospawns_infra.Delta.Value.{Value, number_of}
use halospawns_infra.Delta.Reader
use halospawns_infra.Delta.Reader.{M, ◌>>=◌, pure, raise, lift_result, byte, varuint}
use halospawns_infra.Delta.Read.{from_le, decoded_number}
use halospawns_infra.Delta.Difference.{decode_signed_difference, patched_float32_bits}
use halospawns_infra.Delta.Numbers.{predict_bits, predict_value_bits}

-- `previous.ok_or(missing)?.number().ok_or(malformed)?`
unfoldable pub base_number : Option Value → Error → Error → Result Error ℕ
base_number none missing malformed = err missing
base_number (some v) missing malformed = elim (number_of v) [ none ↦ err malformed | some n ↦ ok n ]

-- `.filter(test).ok_or(malformed)`
unfoldable pub filtered : (ℕ → Bool) → Error → Result Error ℕ → Result Error ℕ
filtered test malformed (ok n) = if test n then ok n else err malformed
filtered test malformed (err e) = err e

-- DELTA_NUMBER_XOR
unfoldable pub xor_significant : ℕ → ℕ → ℕ → M Value
unfolding decoded_number from_le
xor_significant base trailing significant =
    if ltb 8 (trailing + significant) then raise malformed_xor else do
      bs ← Reader.bytes significant
      decoded_number (bit_xor base (from_le bs * 256 ^ trailing % 2 ^ 64))

unfoldable pub read_number_xor : Option Value → M Value
read_number_xor previous = do
  base ← lift_result (base_number previous missing_xor_base malformed_xor_base)
  descriptor ← byte
  xor_significant base (descriptor / 16) (bit_and descriptor 0x0f + 1)

module _ (F : Floats) where
  -- fn float32_value
  unfoldable pub float32_value : ℕ → M Value
  unfolding decoded_number
  float32_value bits = decoded_number (F.widen bits)

  -- fn float32_bits, with the error for a base that is missing
  unfoldable pub float32_bits : Option Value → M ℕ
  float32_bits previous = do
    v ← lift_result (
        filtered (exact_f32 F) malformed_float32_base
          (base_number previous missing_float32_base malformed_float32_base))
    pure (F.narrow v)

  -- `float32_value(patched_float32_bits(base, reader.varuint()?, xor)?)`
  unfoldable pub read_patched_bits : ℕ → Bool → M Value
  unfolding float32_value
  read_patched_bits base is_xor = do
    encoded ← varuint
    bits ← lift_result (patched_float32_bits base encoded is_xor)
    float32_value bits

  -- DELTA_FLOAT32_XOR and DELTA_FLOAT32_DIFFERENCE
  unfoldable pub read_float32_delta : Option Value → Bool → M Value
  read_float32_delta previous is_xor = do
    base ← float32_bits previous
    read_patched_bits base is_xor

  -- `value.fract() == 0.0 && value.abs() <= SAFE_INTEGER_MAX`
  unfoldable pub is_integer : ℕ → Bool
  is_integer v = if F.fract_zero v then F.abs_le v safe_integer_max else false

  -- DELTA_INTEGER_DIFFERENCE: the sum of two numbers of 53 bits fits an i64.
  unfoldable pub read_integer_delta : Option Value → M Value
  unfolding is_integer decoded_number
  read_integer_delta previous = do
    base ← lift_result (
        filtered is_integer malformed_integer_base
          (base_number previous missing_integer_base malformed_integer_base))
    encoded ← varuint
    d ← lift_result (decode_signed_difference encoded)
    if F.abs_le (F.of_i64 (F.to_i64 base +ℤ d)) safe_integer_max
        then decoded_number (F.of_i64 (F.to_i64 base +ℤ d))
        else raise unsafe_integer_delta

  -- DELTA_FLOAT32_BIT_PREDICTION and DELTA_FLOAT32_VALUE_PREDICTION
  unfoldable pub read_prediction : Option Value → Option Value → Bool → M Value
  read_prediction previous before by_bits = do
    p ← lift_result (
        filtered (exact_f32 F) malformed_prediction_base
          (base_number previous missing_prediction_base malformed_prediction_base))
    b ← lift_result (
        filtered (exact_f32 F) malformed_history
          (base_number before missing_history malformed_history))
    read_patched_bits (if by_bits then predict_bits F b p else predict_value_bits F b p) false
