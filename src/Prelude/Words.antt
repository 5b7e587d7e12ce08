-- ===== src/Prelude/Words.antt =====
-- Laws of `bit_and`, `bit_or` and `bit_xor` for every width, from the digit recursion that they stand for.
use Prim.Native.Nat.{
  ℕ, zero, suc, ◌+◌, ◌*◌, ◌/◌, ◌%◌, ◌^◌, ◌≤◌, ◌<◌, max, min, bit_and, bit_or, bit_xor, digits,
  differ, bit_and-bitwise, bit_or-bitwise, bit_xor-bitwise,
}
use mathlib.Core.Path.{◌≡◌, refl, ap, ◌∙◌}
use native.Mathlib.Nat.{pow-suc}
use native.Mathlib.Omega.{arith}

-- Two numbers joined digit by digit; where the first has run out, `last` of the second is left.
module _ (last : ℕ → ℕ) (f : ℕ → ℕ → ℕ)
    (last_step : (y : ℕ) → last y ≡ last (y / 2) * 2 + f 0 (y % 2)) where
  abbrev join : ℕ → ℕ → ℕ → ℕ
  join n a b = digits last f n a b

  join_fuel : (n m a b : ℕ) → a ≤ n → a ≤ m → join n a b ≡ join m a b
  join_fuel zero zero a b p q = refl
  join_fuel zero (suc m) zero b p q = refl
  join_fuel zero (suc m) (suc a) b p q = absurd (omega arith)
  join_fuel (suc n) zero zero b p q = refl
  join_fuel (suc n) zero (suc a) b p q = absurd (omega arith)
  join_fuel (suc n) (suc m) zero b p q = refl
  join_fuel (suc n) (suc m) (suc a) b p q =
      omega (arith, join_fuel n m (suc a / 2) (b / 2) (omega arith) (omega arith))

  join_step : (a b : ℕ) → join a a b ≡ join (a / 2) (a / 2) (b / 2) * 2 + f (a % 2) (b % 2)
  join_step zero b = last_step b
  join_step (suc a) b =
      omega (arith, join_fuel a (suc a / 2) (suc a / 2) (b / 2) (omega arith) (omega arith))

kept_step : (f : ℕ → ℕ → ℕ) → ((y : ℕ) → f 0 y ≡ y) → (y : ℕ) → y ≡ y / 2 * 2 + f 0 (y % 2)
kept_step f h y = omega (arith, h (y % 2))

max_zero : (y : ℕ) → max 0 y ≡ y
max_zero y = omega arith

pub bit_or_step : (a b : ℕ) → bit_or a b ≡ bit_or (a / 2) (b / 2) * 2 + max (a % 2) (b % 2)
bit_or_step a b = omega (
  arith,
  bit_or-bitwise a b,
  bit_or-bitwise (a / 2) (b / 2),
  join_step (λ y. y) max (kept_step max max_zero) a b,
)

pub bit_xor_step : (a b : ℕ) → bit_xor a b ≡ bit_xor (a / 2) (b / 2) * 2 + differ (a % 2) (b % 2)
bit_xor_step a b = omega (
  arith,
  bit_xor-bitwise a b,
  bit_xor-bitwise (a / 2) (b / 2),
  join_step (λ y. y) differ (kept_step differ (λ y. refl)) a b,
)

pub bit_and_step : (a b : ℕ) → bit_and a b ≡ bit_and (a / 2) (b / 2) * 2 + min (a % 2) (b % 2)
bit_and_step a b = omega (
  arith,
  bit_and-bitwise a b,
  bit_and-bitwise (a / 2) (b / 2),
  join_step (λ y. 0) min (λ y. omega arith) a b,
)

pub zero-bit_or : (b : ℕ) → bit_or 0 b ≡ b
zero-bit_or b = bit_or-bitwise 0 b

pub zero-bit_xor : (b : ℕ) → bit_xor 0 b ≡ b
zero-bit_xor b = bit_xor-bitwise 0 b

-- The digits of a number of k digits and of a multiple of 2 ^ k do not meet.
pub bit_or_disjoint : (k a b : ℕ) → a < 2 ^ k → bit_or a (b * 2 ^ k) ≡ a + b * 2 ^ k
bit_or_disjoint zero zero b h = omega (arith, zero-bit_or (b * 1))
bit_or_disjoint zero (suc a) b h = absurd (omega arith)
bit_or_disjoint (suc k) a b h =
    let twice = ap (λ (t : ℕ). b * t) (pow-suc 2 k) in
    let half : b * 2 ^ suc k / 2 ≡ b * 2 ^ k = omega (arith, twice) in
    let even : b * 2 ^ suc k % 2 ≡ 0 = omega (arith, twice) in
    rw (bit_or_step a (b * 2 ^ suc k), half, even)
      (omega (arith, twice, bit_or_disjoint k (a / 2) b (omega arith)))

differ_lt : (x y : ℕ) → x < 2 → y < 2 → differ x y < 2
differ_lt zero y p q = q
differ_lt (suc zero) zero p q = omega arith
differ_lt (suc zero) (suc zero) p q = omega arith
differ_lt (suc zero) (suc (suc y)) p q = absurd (omega arith)
differ_lt (suc (suc x)) y p q = absurd (omega arith)

differ_twice : (x y : ℕ) → x < 2 → y < 2 → differ x (differ x y) ≡ y
differ_twice zero y p q = refl
differ_twice (suc zero) zero p q = refl
differ_twice (suc zero) (suc zero) p q = refl
differ_twice (suc zero) (suc (suc y)) p q = absurd (omega arith)
differ_twice (suc (suc x)) y p q = absurd (omega arith)

pub bit_xor-lt : (k a b : ℕ) → a < 2 ^ k → b < 2 ^ k → bit_xor a b < 2 ^ k
bit_xor-lt zero zero b p q = omega (arith, zero-bit_xor b)
bit_xor-lt zero (suc a) b p q = absurd (omega arith)
bit_xor-lt (suc k) a b p q = omega (
  arith,
  bit_xor_step a b,
  bit_xor-lt k (a / 2) (b / 2) (omega arith) (omega arith),
  differ_lt (a % 2) (b % 2) (omega arith) (omega arith),
)

xor_twice_fuel : (n a b : ℕ) → a ≤ n → bit_xor a (bit_xor a b) ≡ b
xor_twice_fuel n zero b h = zero-bit_xor (bit_xor 0 b) ∙ zero-bit_xor b
xor_twice_fuel zero (suc a) b h = absurd (omega arith)
xor_twice_fuel (suc n) (suc a) b h =
    let c = bit_xor (suc a) b in
    let below = differ_lt (suc a % 2) (b % 2) (omega arith) (omega arith) in
    let half : c / 2 ≡ bit_xor (suc a / 2) (b / 2) = omega (arith, bit_xor_step (suc a) b, below) in
    let odd : c % 2 ≡ differ (suc a % 2) (b % 2) = omega (arith, bit_xor_step (suc a) b, below) in
    rw (bit_xor_step (suc a) c, half, odd)
      (omega (
        arith,
        xor_twice_fuel n (suc a / 2) (b / 2) (omega arith),
        differ_twice (suc a % 2) (b % 2) (omega arith) (omega arith),
      ))

-- Exclusive or with the same number twice.
pub bit_xor_twice : (a b : ℕ) → bit_xor a (bit_xor a b) ≡ b
bit_xor_twice a b = xor_twice_fuel a a b (omega arith)
