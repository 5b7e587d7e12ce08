-- ===== src/Delta/Floats.antt =====
-- The floats of the codec as bit patterns: an f64 is a number below 2^64 and an f32 one below 2^32,
-- so that `to_bits`, `from_bits`, `to_le_bytes` and the tests on the pattern are plain arithmetic.
-- What Rust computes with them (casts, subtraction, `fract`, `abs`) is a parameter of the model.
use halospawns_infra.Prelude.{
  ℕ, ◌+◌, ◌-◌, ◌/◌, ◌%◌, ◌^◌, ◌≤◌, ◌<◌, ◌≡◌, Bool, true, ◌&&◌, not, leb, ◌==◌,
}
use halospawns_infra.Prelude.Int.{ℤ, pos_part, neg_part, ◌-ℤ◌}
use halospawns_infra.Delta.Codes.{safe_integer_max}

pub record Floats : Type 0 where
  -- `x.fract() == 0.0`
  pub fract_zero : ℕ → Bool
  -- `x.abs() <= n` for an integer n of at most 53 bits
  pub abs_le : ℕ → ℕ → Bool
  -- `x as i64` and `i as f64`
  pub to_i64 : ℕ → ℤ
  pub of_i64 : ℤ → ℕ
  -- `(x as f32).to_bits()` and `f64::from(f32::from_bits(b))`
  pub narrow : ℕ → ℕ
  pub widen : ℕ → ℕ
  -- `sub x y` is `x - y`, and `2.0 * x`
  pub sub : ℕ → ℕ → ℕ
  pub double : ℕ → ℕ

abbrev pub IsF64 : ℕ → Type 0
IsF64 v = v < 2 ^ 64

-- `is_finite`: the exponent is not all ones.
unfoldable pub is_finite : ℕ → Bool
is_finite v = not (v / 2 ^ 52 % 2 ^ 11 == 2 ^ 11 - 1)

-- fn negative_zero: `value == 0.0 && value.is_sign_negative()`
unfoldable pub negative_zero : ℕ → Bool
negative_zero v = (v % 2 ^ 63 == 0) && leb (2 ^ 63) v

module _ (F : Floats) where
  open F use {fract_zero, abs_le, to_i64, of_i64, narrow, widen, sub, double}

  -- fn exact_f32
  unfoldable pub exact_f32 : ℕ → Bool
  exact_f32 v = widen (narrow v) == v

  -- the test of `write_number` for the integer form
  unfoldable pub is_safe_integer : ℕ → Bool
  is_safe_integer v = fract_zero v && abs_le v safe_integer_max && not (negative_zero v)

-- What IEEE 754 and Rust's casts promise of these operations.
pub record Lawful (F : Floats) : Type 0 where
  -- an f32 has 32 bits
  pub narrow_lt : (v : ℕ) → F.narrow v < 2 ^ 32
  -- an integer of at most 53 bits converts to i64 and back without loss, except for -0.0
  pub integer_back : (v : ℕ) → IsF64 v → is_safe_integer F v ≡ true → F.of_i64 (F.to_i64 v) ≡ v
  pub integer_small :
      (v : ℕ)
      → IsF64 v
      → is_safe_integer F v ≡ true
      → pos_part (F.to_i64 v) + neg_part (F.to_i64 v) ≤ safe_integer_max
  -- the difference of two such integers is exact where it fits 52 bits
  pub integer_difference :
      (a b : ℕ)
      → IsF64 a
      → IsF64 b
      → is_safe_integer F a ≡ true
      → is_safe_integer F b ≡ true
      → F.abs_le (F.sub b a) (safe_integer_max / 2) ≡ true
      → F.to_i64 (F.sub b a) ≡ F.to_i64 b -ℤ F.to_i64 a
