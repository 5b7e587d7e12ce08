-- ===== src/Delta/Numbers/Bytes.antt =====
-- Counting digits: `bit_length` and the bytes that `write_number_xor` keeps.
use native.Mathlib.Nat.{pow-suc}
use native.Mathlib.Numerals.{towards_suc}
use halospawns_infra.Prelude.{
  ℕ, zero, suc, ◌+◌, ◌*◌, ◌/◌, ◌^◌, ◌≤◌, ◌<◌, ◌≡◌, refl, ◌==◌, take, arith, Bool-cases, inl, inr,
}
use halospawns_infra.Delta.Difference.{bit_length_loop}
use halospawns_infra.Delta.Read.{from_le}
use halospawns_infra.Delta.Write.{to_le}

-- A number of at most `rounds` digits has `bit_length` digits, and no fewer.
pub lt-pow-bit_length : (rounds v : ℕ) → v < 2 ^ rounds → v < 2 ^ bit_length_loop rounds v
unfolding bit_length_loop
lt-pow-bit_length zero v h = h
lt-pow-bit_length (suc rounds) v h = elim (Bool-cases (v == 0)) [
  | inl e ↦ rw e (ground arith)
  | inr e ↦ rw e (
      omega (
        arith,
        pow-suc 2 (bit_length_loop rounds (v / 2)),
        lt-pow-bit_length rounds (v / 2) (omega (arith, pow-suc 2 rounds)),
      ))
]

pub bit_length-le : (rounds k v : ℕ) → v < 2 ^ k → bit_length_loop rounds v ≤ k
unfolding bit_length_loop
bit_length-le zero k v h = omega arith
bit_length-le (suc rounds) zero v h = ground arith
bit_length-le (suc rounds) (suc k) v h =
    ground (arith, bit_length-le rounds k (v / 2) (omega (arith, pow-suc 2 k)))

pub pow_bytes : (n : ℕ) → 2 ^ (8 * n) ≡ 256 ^ n
pow_bytes zero = refl
pow_bytes (suc n) =
    let e : 8 * suc n ≡ 8 * n + 8 = omega arith in
    rw e (simp towards_suc (omega (arith, pow_bytes n)))

pub one_le-pow : (b : ℕ) → 1 ≤ 2 ^ b
one_le-pow zero = omega arith
one_le-pow (suc b) = omega (arith, one_le-pow b)

pub pow-le : (a b : ℕ) → a ≤ b → 2 ^ a ≤ 2 ^ b
pow-le zero b h = one_le-pow b
pow-le (suc a) zero h = absurd (omega arith)
pow-le (suc a) (suc b) h = omega (arith, pow-suc 2 a, pow-suc 2 b, pow-le a b (omega arith))

pub from_le-take : (m n v : ℕ) → n ≤ m → v < 256 ^ n → from_le (take n (to_le m v)) ≡ v
unfolding from_le to_le
from_le-take m zero v h lt = omega arith
from_le-take zero (suc n) v h lt = absurd (omega arith)
from_le-take (suc m) (suc n) v h lt =
    omega (arith, from_le-take m n (v / 256) (omega arith) (omega (arith, pow-suc 256 n)))
