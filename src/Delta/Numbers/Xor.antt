-- ===== src/Delta/Numbers/Xor.antt =====
-- What `write_number_xor` writes, the reader takes apart again.
use native.Mathlib.Nat.{pow-suc, div-le_self}
use halospawns_infra.Prelude.{
  ℕ, zero, suc, ◌+◌, ◌-◌, ◌*◌, ◌/◌, ◌%◌, ◌^◌, ◌≤◌, ◌<◌, ◌≡◌, ap, ◌∙◌, false, min, ◌==◌, take, arith,
  Bool-cases, inl, inr,
}
use halospawns_infra.Delta.Difference.{bit_length_loop, bit_length}
use halospawns_infra.Delta.Numbers.{trailing_zeros_loop, trailing_bytes, significant_bytes}
use halospawns_infra.Delta.Numbers.Bytes.{
  lt-pow-bit_length, bit_length-le, pow_bytes, pow-le, one_le-pow, from_le-take,
}
use halospawns_infra.Delta.Read.{from_le}
use halospawns_infra.Delta.Write.{to_le}

double_of_half : (v q m : ℕ) → (v % 2 == 1) ≡ false → v / 2 ≡ q * 2 ^ m → v ≡ q * 2 ^ suc m
double_of_half v q m even e =
    let ev : v % 2 ≡ 0 = ground arith in omega (arith, ap (λ (t : ℕ). q * t) (pow-suc 2 m))

-- At most as many digits as there are trailing zeros divide off.
divides-trailing_zeros :
    (rounds v m : ℕ) → m ≤ trailing_zeros_loop rounds v → (q : ℕ) × (v ≡ q * 2 ^ m)
unfolding trailing_zeros_loop
divides-trailing_zeros rounds v zero h = (v, omega arith)
divides-trailing_zeros zero v (suc m) h = absurd (omega arith)
divides-trailing_zeros (suc rounds) v (suc m) h = elim (Bool-cases (v % 2 == 1)) [
  | inl odd ↦ absurd (omega (arith, (rw odd at h)))
  | inr even ↦
      let (q, e) = divides-trailing_zeros rounds (v / 2) m (omega (arith, (rw even at h))) in
      (q, double_of_half v q m even e)
]

exact_quotient : (q p : ℕ) → 1 ≤ p → q * p / p * p ≡ q * p
exact_quotient q p h = grind arith

shifted_back : (s x : ℕ) → 8 * s ≤ trailing_zeros_loop 64 x → x / 256 ^ s * 256 ^ s ≡ x
shifted_back s x h =
    let (q, e) = divides-trailing_zeros 64 x (8 * s) h in
    let e' : x ≡ q * 256 ^ s = e ∙ ap (λ (t : ℕ). q * t) (pow_bytes s) in
    rw e' (exact_quotient q (256 ^ s) (rw (← pow_bytes s) (one_le-pow (8 * s))))

-- The bytes that are left when s of 8 are shifted out.
quotient_bytes : (s x : ℕ) → s ≤ 7 → x < 2 ^ 64 → x / 256 ^ s < 2 ^ (8 * (8 - s))
quotient_bytes zero x h b = omega arith
quotient_bytes (suc zero) x h b = omega arith
quotient_bytes (suc (suc zero)) x h b = omega arith
quotient_bytes (suc (suc (suc zero))) x h b = omega arith
quotient_bytes (suc (suc (suc (suc zero)))) x h b = omega arith
quotient_bytes (suc (suc (suc (suc (suc zero))))) x h b = omega arith
quotient_bytes (suc (suc (suc (suc (suc (suc zero)))))) x h b = omega arith
quotient_bytes (suc (suc (suc (suc (suc (suc (suc zero))))))) x h b = omega arith
quotient_bytes (suc (suc (suc (suc (suc (suc (suc (suc s)))))))) x h b = absurd (omega arith)

pub lt-significant_bytes : (s : ℕ) → s < 2 ^ 64 → s < 256 ^ significant_bytes s
unfolding significant_bytes bit_length
lt-significant_bytes s h = rw (← pow_bytes ((bit_length_loop 64 s + 7) / 8)) (
    omega (
      arith,
      lt-pow-bit_length 64 s h,
      pow-le (bit_length_loop 64 s) (8 * ((bit_length_loop 64 s + 7) / 8)) (omega arith),
    ))

significant_bytes-le : (s n : ℕ) → s < 2 ^ (8 * n) → significant_bytes s ≤ n
unfolding significant_bytes bit_length
significant_bytes-le s n h = omega (arith, bit_length-le 64 (8 * n) s h)

pub trailing_bytes-le : (x : ℕ) → trailing_bytes x ≤ 7
unfolding trailing_bytes
trailing_bytes-le x = omega arith

module _ (x : ℕ) (bits : x < 2 ^ 64) where
  pub significant_back : x / 256 ^ trailing_bytes x * 256 ^ trailing_bytes x ≡ x
  unfolding trailing_bytes
  significant_back = shifted_back (min (trailing_zeros_loop 64 x / 8) 7) x (omega arith)

  pub bytes_fit : trailing_bytes x + significant_bytes (x / 256 ^ trailing_bytes x) ≤ 8
  bytes_fit = omega (
    arith,
    trailing_bytes-le x,
    significant_bytes-le (x / 256 ^ trailing_bytes x) (8 - trailing_bytes x)
        (quotient_bytes (trailing_bytes x) x (trailing_bytes-le x) bits),
  )

  pub significant-lt : x / 256 ^ trailing_bytes x < 2 ^ 64
  significant-lt = omega (arith, div-le_self x (256 ^ trailing_bytes x))

  pub significant_read :
      from_le (
        take
          (significant_bytes (x / 256 ^ trailing_bytes x))
          (to_le 8 (x / 256 ^ trailing_bytes x)))
      ≡ x / 256 ^ trailing_bytes x
  significant_read =
      from_le-take 8 _ _ (omega (arith, bytes_fit)) (lt-significant_bytes _ significant-lt)
