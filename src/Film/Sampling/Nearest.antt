-- ===== src/Film/Sampling/Nearest.antt =====
-- How far the sample of `output_tick` of sampling.rs is from its tick.
use native.Mathlib.Omega.{min_cases}
use native.Mathlib.Nat.{div-add-mod, mod-lt, min-le_left, mul-le-mul_left, mul-zero}
use halospawns_infra.Prelude.{
  ℕ, zero, suc, ◌+◌, ◌-◌, ◌*◌, ◌%◌, ◌≤◌, ◌<◌, ◌≡◌, ◌⊎◌, inl, inr, min, arith,
}
use halospawns_infra.Film.Sampling.{div_ceil, sample_count, output_tick}

div_ceil_bounds :
    (a s : ℕ) → (a ≤ suc s * div_ceil a (suc s)) × (suc s * div_ceil a (suc s) < a + suc s)
unfolding div_ceil
div_ceil_bounds a s =
    let e = div-add-mod (a + (suc s - 1)) (suc s) in
    let r : (a + (suc s - 1)) % suc s < suc s = mod-lt (a + (suc s - 1)) (omega arith) in
    (omega (arith, e, r), omega (arith, e, r))

clamped :
    (t s x c : ℕ)
    → t ≤ suc s * x
    → suc s * x < t + suc s
    → 0 < c
    → (min x (c - 1) < c)
      × ((t ≤ suc s * min x (c - 1)) ⊎ (suc (min x (c - 1)) ≡ c))
      × (suc s * min x (c - 1) < t + suc s)
clamped t s x c above close some_sample =
    min_cases x (c - 1) _ (λ le e. (omega (arith, e), inl (rw (e) above), rw (e) close))
      (λ le e. (
        omega (arith, e),
        inr (omega (arith, e)),
        omega (arith, mul-le-mul_left (suc s) (min-le_left x (c - 1)), close),
      ))

some_samples : (s c n t : ℕ) → n < t → t ≤ suc s * c → 0 < c
some_samples s zero n t lt le = let z = mul-zero (suc s) in omega (arith, z)
some_samples s (suc c) n t lt le = omega arith

-- For a tick of the source and a stride of at least one, `output_tick` is one of the samples that
-- `sample_count` counts, less than a stride behind the tick, and not before the tick unless it is
-- the last sample.
pub output_tick_nearest :
    (ordinal source_ticks s : ℕ)
    → ordinal < source_ticks
    → (output_tick ordinal (suc s) (sample_count source_ticks (suc s))
        < sample_count source_ticks (suc s))
      × ((ordinal ≤ suc s * output_tick ordinal (suc s) (sample_count source_ticks (suc s)))
          ⊎ (suc (output_tick ordinal (suc s) (sample_count source_ticks (suc s)))
              ≡ sample_count source_ticks (suc s)))
      × (suc s * output_tick ordinal (suc s) (sample_count source_ticks (suc s)) < ordinal + suc s)
unfolding output_tick sample_count
output_tick_nearest ordinal source_ticks s lt =
    let b = div_ceil_bounds ordinal s in
    clamped ordinal s _ _ b.0 b.1
      (some_samples s _ ordinal source_ticks lt ((div_ceil_bounds source_ticks s).0))
