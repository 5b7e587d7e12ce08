-- ===== src/Delta/Packed.antt =====
-- Numbers of a fixed width packed into bytes: `write_packed` of viewer.rs, and the accumulator of
-- the loop in `read_patched_value` that reads them.
pub mod Writing
pub mod Reading
use halospawns_infra.Prelude.{
  ℕ, zero, suc, ◌+◌, ◌-◌, ◌*◌, ◌/◌, ◌%◌, ◌^◌, List, [], ◌∷◌, ◌++◌, bit_or, ltb, leb, ◌==◌,
  if◌then◌else◌,
}
use halospawns_infra.Delta.Writer.{Write, done, bytes}
use halospawns_infra.Delta.Reader.{M, ◌>>=◌, pure, byte}

-- `accumulator` and `accumulator_bits`.
pub record Accumulator : Type 0 where
  pub digits : ℕ
  pub count : ℕ

-- `while accumulator_bits >= 8`, with the rounds that are left: 8 digits go in each.
unfoldable pub flush : ℕ → Accumulator → List ℕ × Accumulator
flush zero a = ([], a)
flush (suc rounds) a =
    let rest = flush rounds (record { digits = a.digits / 256; count = a.count - 8 }) in
    if leb 8 a.count then (a.digits % 256 ∷ rest.0, rest.1) else ([], a)

-- `accumulator |= u128::from(value) << accumulator_bits`
unfoldable pub joined : ℕ → Accumulator → ℕ → Accumulator
joined width a v = record {
  digits = bit_or a.digits (v * 2 ^ a.count % 2 ^ 128);
  count = a.count + width;
}

-- A width of at most 64 leaves at most 71 digits, and 9 rounds flush these.
unfoldable pub pack_loop : ℕ → Accumulator → List ℕ → List ℕ
unfolding flush joined
pack_loop width a [] = if ltb 0 a.count then a.digits % 256 ∷ [] else []
pack_loop width a (v ∷ vs) =
    let flushed = flush 9 (joined width a v) in flushed.0 ++ pack_loop width flushed.1 vs

abbrev pub empty : Accumulator
empty = record { digits = 0; count = 0 }

-- fn write_packed, on the values at 0..count
unfoldable pub write_packed : ℕ → List ℕ → Write
write_packed width vs = if width == 0 then done else bytes (pack_loop width empty vs)

-- `while accumulator_bits < bit_width`, with the rounds that are left: 8 digits come in each, so
-- the width itself is enough.
unfoldable pub fill : ℕ → ℕ → Accumulator → M Accumulator
fill zero width a = pure a
fill (suc rounds) width a =
    if ltb a.count width
    then (do
      b ← byte
      fill rounds width
          (record { digits = bit_or a.digits (b * 2 ^ a.count % 2 ^ 64); count = a.count + 8 }))
    else pure a

-- `accumulator & mask` and what is left; the mask is 2^width - 1.
unfoldable pub residual : ℕ → Accumulator → ℕ
residual width a = a.digits % 2 ^ width

unfoldable pub shifted : ℕ → Accumulator → Accumulator
shifted width a = record { digits = a.digits / 2 ^ width; count = a.count - width }
