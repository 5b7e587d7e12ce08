-- ===== src/Delta/Numbers.antt =====
-- Deltas of one number: `write_number_xor`, `write_number_delta` and the predictions of viewer.rs.
pub mod Bytes
pub mod Xor
use halospawns_infra.Prelude.{
  ℕ, zero, suc, ◌+◌, ◌-◌, ◌*◌, ◌/◌, ◌%◌, ◌^◌, Bool, true, false, ◌&&◌, Option, none, some, min,
  bit_or, bit_xor, ltb, ◌==◌, take, if◌then◌else◌,
}
use halospawns_infra.Delta.Error.{empty_xor}
use halospawns_infra.Delta.Codes.{
  safe_integer_max, delta_number_xor, delta_float32_xor, delta_integer_difference,
  delta_float32_difference, delta_float32_bit_prediction, delta_float32_value_prediction,
}
use halospawns_infra.Delta.Floats.{Floats, exact_f32, is_safe_integer}
use halospawns_infra.Delta.Writer.{Write, ◌>>◌, raise, byte, bytes, varuint}
use halospawns_infra.Delta.Write.{to_le}
use halospawns_infra.Delta.Difference.{
  bit_length, varuint_length, signed_uint32_difference, signed_difference,
}

-- `trailing_zeros` of a u64: the rounds left bound the digits.
unfoldable pub trailing_zeros_loop : ℕ → ℕ → ℕ
trailing_zeros_loop zero v = 0
trailing_zeros_loop (suc rounds) v =
    let rest = trailing_zeros_loop rounds (v / 2) in if v % 2 == 1 then 0 else suc rest

unfoldable pub trailing_bytes : ℕ → ℕ
trailing_bytes x = min (trailing_zeros_loop 64 x / 8) 7

-- `(64 - significant.leading_zeros()).div_ceil(8)`
unfoldable pub significant_bytes : ℕ → ℕ
significant_bytes s = (bit_length s + 7) / 8

-- What `write_number_xor` writes for an exclusive or x: `x >> (8 * k)` is `x / 256 ^ k`.
unfoldable pub write_xor : ℕ → Write
write_xor x = if x == 0 then raise empty_xor else do
  byte (bit_or (trailing_bytes x * 16) (significant_bytes (x / 256 ^ trailing_bytes x) - 1) % 256)
  bytes
      (take (significant_bytes (x / 256 ^ trailing_bytes x)) (to_le 8 (x / 256 ^ trailing_bytes x)))

-- fn write_number_xor
unfoldable pub write_number_xor : ℕ → ℕ → Write
write_number_xor previous next = write_xor (bit_xor previous next)

-- A tag with the number that goes with it.
pub record Choice : Type 0 where
  pub tag : ℕ
  pub residual : ℕ

-- The later choice wins if its number is strictly shorter.
unfoldable pub shorter : Choice → Choice → Choice
shorter selected c =
    if ltb (varuint_length c.residual) (varuint_length selected.residual) then c else selected

module _ (F : Floats) where
  -- fn predict_bits, in wrapping arithmetic of 32 bits
  unfoldable pub predict_bits : ℕ → ℕ → ℕ
  predict_bits before previous =
      (2 * F.narrow previous % 2 ^ 32 + 2 ^ 32 - F.narrow before) % 2 ^ 32

  -- fn predict_value_bits
  unfoldable pub predict_value_bits : ℕ → ℕ → ℕ
  predict_value_bits before previous = F.narrow (F.sub (F.double previous) before)

  difference_to : ℕ → ℕ → ℕ
  difference_to base next = signed_difference (signed_uint32_difference base (F.narrow next))

  unfoldable pub xor_choice : ℕ → ℕ → Choice
  xor_choice previous next = record {
    tag = delta_float32_xor;
    residual = bit_xor (F.narrow previous) (F.narrow next);
  }

  unfoldable pub difference_choice : ℕ → ℕ → Choice
  unfolding difference_to
  difference_choice previous next = record {
    tag = delta_float32_difference;
    residual = difference_to (F.narrow previous) next;
  }

  unfoldable pub bit_choice : ℕ → ℕ → ℕ → Choice
  unfolding difference_to
  bit_choice before previous next = record {
    tag = delta_float32_bit_prediction;
    residual = difference_to (predict_bits before previous) next;
  }

  unfoldable pub value_choice : ℕ → ℕ → ℕ → Choice
  unfolding difference_to
  value_choice before previous next = record {
    tag = delta_float32_value_prediction;
    residual = difference_to (predict_value_bits before previous) next;
  }

  -- `before_previous.filter(|value| exact_f32(*value))`
  unfoldable pub exact_history : Option ℕ → Option ℕ
  exact_history none = none
  exact_history (some b) = if exact_f32 F b then some b else none

  unfoldable pub float32_choice : ℕ → ℕ → Option ℕ → Choice
  float32_choice previous next none =
      shorter (xor_choice previous next) (difference_choice previous next)
  float32_choice previous next (some before) =
      shorter
        (shorter (shorter (xor_choice previous next) (difference_choice previous next))
          (bit_choice before previous next))
        (value_choice before previous next)

  -- The test of `write_number_delta` for the integer form.
  unfoldable pub integers_apart : ℕ → ℕ → Bool
  integers_apart previous next =
      (is_safe_integer F previous && is_safe_integer F next)
      && (F.fract_zero (F.sub next previous)
          && F.abs_le (F.sub next previous) (safe_integer_max / 2))

  unfoldable pub write_choice : Choice → Write
  write_choice c = do byte c.tag; varuint c.residual

  -- fn write_number_delta
  unfoldable pub write_number_delta : ℕ → ℕ → Option ℕ → Write
  write_number_delta previous next before =
      if integers_apart previous next
      then (do
        byte delta_integer_difference
        varuint (signed_difference (F.to_i64 (F.sub next previous))))
      else if exact_f32 F previous && exact_f32 F next
      then write_choice (float32_choice previous next (exact_history before))
      else (do byte delta_number_xor; write_number_xor previous next)
