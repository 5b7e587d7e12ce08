-- ===== src/Film/OrderedDelta/Marks.antt =====
-- The bits that ordered_delta.rs sets for the values that differ.
use native.Mathlib.Nat.{pow-suc}
use halospawns_infra.Prelude.{
  ℕ, zero, suc, ◌+◌, ◌*◌, ◌/◌, ◌%◌, ◌^◌, ◌≤◌, ◌<◌, ◌≡◌, refl, ap, bit_and, bit_or, ◌==◌, arith,
  Bool-cases, inl, inr, if◌then◌else◌,
}
use halospawns_infra.Prelude.Words.{bit_and_step, bit_or_disjoint}
use halospawns_infra.Delta.Value.{Fields, end, field, length_fields}
use halospawns_infra.Film.OrderedDelta.{same, mark, is_marked, count_ones_loop, count_ones}

-- The bits from the one of the first value on.
unfoldable pub marks : Fields → Fields → ℕ
marks end bs = 0
marks (field j a qs) end = 0
marks (field j a qs) (field k b bs) = (if same a b then 0 else 1) + 2 * marks qs bs

bit_and-zero : (n x : ℕ) → x ≤ n → bit_and x 0 ≡ 0
bit_and-zero n zero h = refl
bit_and-zero zero (suc x) h = absurd (omega arith)
bit_and-zero (suc n) (suc x) h =
    omega (arith, bit_and_step (suc x) 0, bit_and-zero n (suc x / 2) (omega arith))

-- A bit is read from where it was set.
bit_and_pow : (i low m : ℕ) → low < 2 ^ i → (bit_and (low + m * 2 ^ i) (2 ^ i) == 0) ≡ (m % 2 == 0)
bit_and_pow zero low m h = ground (
  arith,
  bit_and_step (low + m * 1) 1,
  bit_and-zero ((low + m * 1) / 2) ((low + m * 1) / 2) (omega arith),
)
bit_and_pow (suc i) low m h =
    let twice = ap (λ (t : ℕ). m * t) (pow-suc 2 i) in
    let half : (low + m * 2 ^ suc i) / 2 ≡ low / 2 + m * 2 ^ i = omega (arith, twice) in
    let odd : 2 ^ suc i % 2 ≡ 0 = omega (arith, pow-suc 2 i) in
    let next : 2 ^ suc i / 2 ≡ 2 ^ i = omega (arith, pow-suc 2 i) in
    let step : bit_and (low + m * 2 ^ suc i) (2 ^ suc i)
        ≡ bit_and (low / 2 + m * 2 ^ i) (2 ^ i) * 2 =
      omega (arith, (rw (half, next, odd) at (bit_and_step (low + m * 2 ^ suc i) (2 ^ suc i)))) in
    let rest = bit_and_pow i (low / 2) m (omega (arith, pow-suc 2 i)) in ground (arith, step, rest)

pub is_marked_lem : (i low m : ℕ) → low < 2 ^ i → is_marked (low + m * 2 ^ i) i ≡ (m % 2 == 1)
unfolding is_marked
is_marked_lem i low m h = rw (bit_and_pow i low m h) (ground arith)

pow_next : (i : ℕ) → 2 ^ (i + 1) ≡ 2 * 2 ^ i
pow_next i = let e : i + 1 ≡ suc i = omega arith in rw e (omega (arith, pow-suc 2 i))

mark_lem :
    (i : ℕ) (qs bs : Fields) (changed : ℕ)
    → changed < 2 ^ i
    → mark i qs bs changed ≡ changed + marks qs bs * 2 ^ i
unfolding mark marks
mark_lem i end bs changed h = omega arith
mark_lem i (field j a qs) end changed h = omega arith
mark_lem i (field j a qs) (field k b bs) changed h =
    let twice = ap (λ (t : ℕ). marks qs bs * t) (pow_next i) in
    elim (Bool-cases (same a b)) [
      | inl e ↦
          rw e (omega (arith, twice, mark_lem (i + 1) qs bs changed (omega (arith, pow_next i))))
      | inr e ↦
          let one : 1 * 2 ^ i ≡ 2 ^ i = omega arith in
          let set : bit_or changed (2 ^ i) ≡ changed + 2 ^ i =
            (rw one at (bit_or_disjoint i changed 1 h)) in
          rw (e, set)
            (omega
              (arith, twice, mark_lem (i + 1) qs bs (changed + 2 ^ i) (omega (arith, pow_next i))))
    ]

pub mark-start : (qs bs : Fields) → mark 0 qs bs 0 ≡ marks qs bs
mark-start qs bs = omega (arith, mark_lem 0 qs bs 0 (omega arith))

-- The bits behind the one at hand.
pub mark_next :
    (i low d m : ℕ)
    → low < 2 ^ i
    → d < 2
    → (low + d * 2 ^ i < 2 ^ (i + 1))
      × (low + (d + 2 * m) * 2 ^ i ≡ low + d * 2 ^ i + m * 2 ^ (i + 1))
mark_next i low zero m h hd =
    (omega (arith, pow_next i), omega (arith, ap (λ (t : ℕ). m * t) (pow_next i)))
mark_next i low (suc zero) m h hd =
    (omega (arith, pow_next i), omega (arith, ap (λ (t : ℕ). m * t) (pow_next i)))
mark_next i low (suc (suc d)) m h hd = absurd (omega arith)

-- How many values differ.
unfoldable pub count_different : Fields → Fields → ℕ
count_different end bs = 0
count_different (field j a qs) end = 0
count_different (field j a qs) (field k b bs) = (if same a b then 0 else 1) + count_different qs bs

count_ones_loop-zero : (rounds : ℕ) → count_ones_loop rounds 0 ≡ 0
unfolding count_ones_loop
count_ones_loop-zero zero = refl
count_ones_loop-zero (suc rounds) = omega (arith, count_ones_loop-zero rounds)

count_ones-marks :
    (rounds : ℕ) (qs bs : Fields)
    → length_fields qs ≤ rounds
    → count_ones_loop rounds (marks qs bs) ≡ count_different qs bs
unfolding count_ones_loop marks count_different length_fields
count_ones-marks zero end bs h = refl
count_ones-marks (suc rounds) end bs h = omega (arith, count_ones_loop-zero rounds)
count_ones-marks zero (field j a qs) bs h = absurd (omega arith)
count_ones-marks (suc rounds) (field j a qs) end h = omega (arith, count_ones_loop-zero rounds)
count_ones-marks (suc rounds) (field j a qs) (field k b bs) h =
    let rest = count_ones-marks rounds qs bs (omega (arith, h)) in
    let even : (0 + 2 * marks qs bs) / 2 ≡ marks qs bs = omega arith in
    let odd : (1 + 2 * marks qs bs) / 2 ≡ marks qs bs = omega arith in
    elim (Bool-cases (same a b)) [
      | inl e ↦ rw e (rw even (omega (arith, rest)))
      | inr e ↦ rw e (rw odd (omega (arith, rest)))
    ]

pub count_ones_lem :
    (qs bs : Fields) → length_fields qs ≤ 64 → count_ones (marks qs bs) ≡ count_different qs bs
unfolding count_ones
count_ones_lem = count_ones-marks 64
