-- ===== src/Delta/Difference/Laws.antt =====
-- The differences of two patterns lead back to the second.
use halospawns_infra.Prelude.{ℕ, ◌+◌, ◌^◌, ◌≤◌, ◌<◌, ◌≡◌, true, false, bit_xor, arith}
use halospawns_infra.Prelude.Words.{bit_xor-lt, bit_xor_twice}
use halospawns_infra.Prelude.Results.{ok}
use halospawns_infra.Prelude.Int.{ℤ, pos, negsuc, pos_part, neg_part}
use halospawns_infra.Delta.Difference.{
  signed_uint32_difference, signed_difference, decode_signed_difference, add_difference,
  patched_float32_bits,
}

-- An integer whose magnitude is below 2^63 is decoded from its unsigned code.
pub decode-signed_difference :
    (d : ℤ)
    → pos_part d + neg_part d < 2 ^ 63
    → decode_signed_difference (signed_difference d) ≡ ok d
unfolding decode_signed_difference signed_difference
decode-signed_difference (pos n) h = ground arith
decode-signed_difference (negsuc n) h = ground arith

pub signed_uint32_difference_small :
    (a b : ℕ)
    → a < 2 ^ 32
    → b < 2 ^ 32
    → pos_part (signed_uint32_difference a b) + neg_part (signed_uint32_difference a b) ≤ 2 ^ 31
unfolding signed_uint32_difference
signed_uint32_difference_small a b p q = ground arith

add_difference-signed :
    (a b : ℕ) → a < 2 ^ 32 → b < 2 ^ 32 → add_difference a (signed_uint32_difference a b) ≡ ok b
unfolding signed_uint32_difference add_difference
add_difference-signed a b p q = ground arith

-- For two patterns of 32 bits, the coded difference is accepted and leads from the first to the
-- second.
pub patched-difference :
    (a b : ℕ)
    → a < 2 ^ 32
    → b < 2 ^ 32
    → patched_float32_bits a (signed_difference (signed_uint32_difference a b)) false ≡ ok b
unfolding patched_float32_bits
patched-difference a b p q =
    rw
      (decode-signed_difference (signed_uint32_difference a b)
        (omega (arith, signed_uint32_difference_small a b p q)))
      (add_difference-signed a b p q)

-- For two patterns of 32 bits, their exclusive or is accepted and leads from the first to the
-- second.
pub patched-xor :
    (a b : ℕ) → a < 2 ^ 32 → b < 2 ^ 32 → patched_float32_bits a (bit_xor a b) true ≡ ok b
unfolding patched_float32_bits
patched-xor a b p q = ground (arith, bit_xor-lt 32 a b p q, bit_xor_twice a b)
