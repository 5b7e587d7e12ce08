-- ===== src/Delta/Difference.antt =====
-- Differences of bit patterns: the helper functions of viewer.rs that turn two patterns into a small
-- unsigned number and back.
pub mod Laws
use halospawns_infra.Prelude.{
  ℕ, zero, suc, ◌+◌, ◌-◌, ◌*◌, ◌/◌, ◌%◌, ◌^◌, ◌≤◌, ◌<◌, ◌≡◌, Bool, true, false, max, bit_xor, ltb,
  ◌==◌, arith, if◌then◌else◌,
}
use halospawns_infra.Prelude.Words.{bit_xor-lt, bit_xor_twice}
use halospawns_infra.Prelude.Results.{Result, ok, err, ◌>>=◌}
use halospawns_infra.Prelude.Int.{ℤ, pos, negsuc, pos_part, neg_part, sub_ℕ, ◌+ℤ◌, ◌-ℤ◌, ltb_ℤ}
use halospawns_infra.Delta.Error.{
  Error, malformed_float32_xor, malformed_float32_difference, integer_out_of_range,
}

-- `64 - value.leading_zeros()` of a u64: the rounds left bound the digits.
unfoldable pub bit_length_loop : ℕ → ℕ → ℕ
bit_length_loop zero v = 0
bit_length_loop (suc rounds) v =
    let rest = bit_length_loop rounds (v / 2) in if v == 0 then 0 else suc rest

unfoldable pub bit_length : ℕ → ℕ
bit_length v = bit_length_loop 64 v

-- fn varuint_length: `max(1).div_ceil(7)`
unfoldable pub varuint_length : ℕ → ℕ
varuint_length v = (max (bit_length v) 1 + 6) / 7

-- fn signed_uint32_difference
unfoldable pub signed_uint32_difference : ℕ → ℕ → ℤ
unfolding ◌+ℤ◌ ◌-ℤ◌
signed_uint32_difference previous next =
    let d = sub_ℕ next previous in
    let d' = (if ltb_ℤ (pos 0x7fff_ffff) d then d -ℤ pos 0x1_0000_0000 else d) in
    if ltb_ℤ d' (negsuc 0x7fff_ffff) then d' +ℤ pos 0x1_0000_0000 else d'

-- fn signed_difference, from i64 to u64
unfoldable pub signed_difference : ℤ → ℕ
signed_difference (pos n) = n * 2 % 2 ^ 64
signed_difference (negsuc n) = (suc n * 2 + 2 ^ 64 - 1) % 2 ^ 64

-- fn decode_signed_difference; `i64::try_from` fails from 2^63 on.
unfoldable pub decode_signed_difference : ℕ → Result Error ℤ
decode_signed_difference v =
    if v % 2 == 0
    then (if ltb (v / 2) (2 ^ 63) then ok (pos (v / 2)) else err integer_out_of_range)
    else if ltb ((v + 1) / 2) (2 ^ 63)
    then ok (sub_ℕ 0 ((v + 1) / 2))
    else err integer_out_of_range

-- `wrapping_add_signed` of a u32 and an i32
unfoldable pub wrapping_add_signed : ℕ → ℤ → ℕ
wrapping_add_signed base (pos n) = (base + n) % 2 ^ 32
wrapping_add_signed base (negsuc n) = (base + 2 ^ 32 - suc n) % 2 ^ 32

-- `i32::try_from(difference)`, then the sum
unfoldable pub add_difference : ℕ → ℤ → Result Error ℕ
unfolding wrapping_add_signed
add_difference base d =
    if ltb_ℤ d (negsuc 0x7fff_ffff)
    then err malformed_float32_difference
    else if ltb_ℤ (pos 0x7fff_ffff) d
    then err malformed_float32_difference
    else ok (wrapping_add_signed base d)

-- fn patched_float32_bits
unfoldable pub patched_float32_bits : ℕ → ℕ → Bool → Result Error ℕ
unfolding add_difference decode_signed_difference
patched_float32_bits base encoded true =
    if ltb encoded (2 ^ 32) then ok (bit_xor base encoded) else err malformed_float32_xor
patched_float32_bits base encoded false = do
  d ← decode_signed_difference encoded
  add_difference base d
