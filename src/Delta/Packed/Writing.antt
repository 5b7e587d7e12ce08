-- ===== src/Delta/Packed/Writing.antt =====
-- What `write_packed` writes: the bytes of one large number that holds the values side by side.
use native.Mathlib.Nat.{pow-suc, zero-add}
use halospawns_infra.Prelude.{
  ℕ, zero, suc, ◌+◌, ◌-◌, ◌*◌, ◌/◌, ◌%◌, ◌^◌, ◌≤◌, ◌<◌, ◌≡◌, refl, ap, ◌∙◌, List, [], ◌∷◌, ◌++◌,
  length, arith, All, leb, ltb, Bool-cases, inl, inr,
}
use halospawns_infra.Prelude.Words.{bit_or_disjoint}
use halospawns_infra.Delta.Write.{to_le}
use halospawns_infra.Delta.Packed.{Accumulator, empty, flush, joined, pack_loop}
use halospawns_infra.Delta.Numbers.Bytes.{pow-le}

-- The values side by side, the first in the lowest digits.
unfoldable pub side_by_side : ℕ → List ℕ → ℕ
side_by_side width [] = 0
side_by_side width (v ∷ vs) = v + 2 ^ width * side_by_side width vs

pub pow-add : (a b : ℕ) → 2 ^ (a + b) ≡ 2 ^ a * 2 ^ b
pow-add zero b = rw zero-add (omega arith)
pow-add (suc a) b =
    let e : suc a + b ≡ suc (a + b) = omega arith in
    rw e (omega (arith, pow-suc 2 (a + b), pow-add a b, ap (λ (t : ℕ). t * 2 ^ b) (pow-suc 2 a)))

pow_count : (n c : ℕ) → n ≡ 8 + c → 2 ^ n ≡ 256 * 2 ^ c
pow_count n c e = rw e (pow-add 8 c)

-- A full byte leaves the low end.
full_byte :
    (d n c more digits : ℕ)
    → n ≡ 8 + c
    → to_le ((n + digits + 7) / 8) (d + 2 ^ n * more)
      ≡ d % 256 ∷ to_le ((c + digits + 7) / 8) (d / 256 + 2 ^ c * more)
unfolding to_le
full_byte d n c more digits e =
    let size : (n + digits + 7) / 8 ≡ suc ((c + digits + 7) / 8) = omega arith in
    let high = ap (λ (t : ℕ). t * more) (pow_count n c e) in
    let low : (d + 2 ^ n * more) % 256 ≡ d % 256 = omega (arith, high) in
    let rest : (d + 2 ^ n * more) / 256 ≡ d / 256 + 2 ^ c * more = omega (arith, high) in
    rw (size, low, rest)

-- Bytes that still have to be written, with `more` behind the accumulator in `digits` digits.
abbrev pending : Accumulator → ℕ → ℕ → List ℕ
pending a more digits = to_le ((a.count + digits + 7) / 8) (a.digits + 2 ^ a.count * more)

flush-pending :
    (rounds : ℕ) (a : Accumulator) (more digits : ℕ)
    → pending a more digits ≡ (flush rounds a).0 ++ pending (flush rounds a).1 more digits
unfolding flush to_le
flush-pending zero a more digits = refl
flush-pending (suc rounds) a more digits = elim (Bool-cases (leb 8 a.count)) [
  | inl full ↦ rw full (
      full_byte a.digits a.count (a.count - 8) more digits (ground arith)
      ∙ ap (λ t. a.digits % 256 ∷ t)
          (flush-pending rounds (record { digits = a.digits / 256; count = a.count - 8 }) more
            digits))
  | inr few ↦ rw few refl
]

flush-IsSmall :
    (rounds : ℕ) (a : Accumulator)
    → a.digits < 2 ^ a.count
    → a.count < 8 * rounds + 8
    → ((flush rounds a).1.digits < 2 ^ (flush rounds a).1.count) × ((flush rounds a).1.count < 8)
unfolding flush
flush-IsSmall zero a small h = (small, omega arith)
flush-IsSmall (suc rounds) a small h = elim (Bool-cases (leb 8 a.count)) [
  | inl full ↦
      let count : a.count ≡ 8 + (a.count - 8) = ground arith in
      rw full (
        flush-IsSmall rounds (record { digits = a.digits / 256; count = a.count - 8 })
          (omega (arith, pow_count a.count (a.count - 8) count)) (omega arith))
  | inr few ↦ rw few (small, ground arith)
]

le_mul_right : (v p q : ℕ) → p ≤ q → v * p ≤ v * q
le_mul_right v p q h = grind arith

-- A value above the accumulator's digits.
module _ (width : ℕ) (a : Accumulator) (v : ℕ) (narrow : width ≤ 64) (fits : v < 2 ^ width)
    (small : a.digits < 2 ^ a.count) (few : a.count < 8) where
  joined_digits : (joined width a v).digits ≡ a.digits + v * 2 ^ a.count
  unfolding joined
  joined_digits =
      let word = pow-le width 64 narrow in
      let byte = le_mul_right v (2 ^ a.count) 128 (pow-le a.count 7 (omega arith)) in
      let exact : v * 2 ^ a.count % 2 ^ 128 ≡ v * 2 ^ a.count = omega (arith, word, byte) in
      rw exact (bit_or_disjoint a.count a.digits v small)

  joined-IsSmall : (joined width a v).digits < 2 ^ (joined width a v).count
  joined-IsSmall = rw joined_digits (
      unfold joined in
      let top = le_mul_left (suc v) (2 ^ width) (2 ^ a.count) fits in
      omega (arith, pow-add a.count width, top))
    where
      le_mul_left : (p q n : ℕ) → p ≤ q → n * p ≤ n * q
      le_mul_left p q n h = le_mul_right n p q h

  joined-pending :
      (more n : ℕ)
      → pending a (v + 2 ^ width * more) (width * suc n)
        ≡ pending (joined width a v) more (width * n)
  joined-pending more n = rw joined_digits (
      unfold joined in
      let size : (a.count + width * suc n + 7) / 8 ≡ (a.count + width + width * n + 7) / 8 =
        omega arith in
      let sum : a.digits + 2 ^ a.count * (v + 2 ^ width * more)
          ≡ a.digits + v * 2 ^ a.count + 2 ^ (a.count + width) * more =
        omega (arith, ap (λ (t : ℕ). t * more) (pow-add a.count width)) in
      rw (size, sum))

pack_loop-pending :
    (width : ℕ) (a : Accumulator) (vs : List ℕ)
    → width ≤ 64
    → All (λ v. v < 2 ^ width) vs
    → a.digits < 2 ^ a.count
    → a.count < 8
    → pack_loop width a vs ≡ pending a (side_by_side width vs) (width * length vs)
unfolding pack_loop side_by_side
pack_loop-pending width a [] narrow fits small few = elim (Bool-cases (ltb 0 a.count)) [
  | inl some_left ↦
      let size : (a.count + width * 0 + 7) / 8 ≡ 1 = ground arith in
      let low : (a.digits + 2 ^ a.count * 0) % 256 ≡ a.digits % 256 = omega arith in
      rw (some_left, size) (unfold to_le in rw low)
  | inr none_left ↦
      let size : (a.count + width * 0 + 7) / 8 ≡ 0 = ground arith in
      rw (none_left, size) (unfold to_le in refl)
]
pack_loop-pending width a (v ∷ vs) narrow (fv, fvs) small few =
    let j = joined width a v in
    let (small', few') =
      flush-IsSmall 9 j (joined-IsSmall width a v narrow fv small few)
        (unfold joined in omega arith) in
    rw
      (
        joined-pending width a v narrow fv small few (side_by_side width vs) (length vs),
        flush-pending 9 j (side_by_side width vs) (width * length vs),
      )
      (ap (λ t. (flush 9 j).0 ++ t)
        (pack_loop-pending width (flush 9 j).1 vs narrow fvs small' few'))

-- If the width is at most 64 and each value has at most that many digits, then the bytes of
-- `write_packed` are those of the one number that holds the values side by side, least byte first,
-- and no more of them than are needed.
pub pack_loop-side_by_side :
    (width : ℕ) (vs : List ℕ)
    → width ≤ 64
    → All (λ v. v < 2 ^ width) vs
    → pack_loop width empty vs ≡ to_le ((width * length vs + 7) / 8) (side_by_side width vs)
pack_loop-side_by_side width vs narrow fits =
    let size : (0 + width * length vs + 7) / 8 ≡ (width * length vs + 7) / 8 = omega arith in
    let sum : 0 + 2 ^ 0 * side_by_side width vs ≡ side_by_side width vs = omega arith in
    pack_loop-pending width empty vs narrow fits (omega arith) (omega arith) ∙ rw (size, sum)
