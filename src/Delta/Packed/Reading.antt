-- ===== src/Delta/Packed/Reading.antt =====
-- The reader's accumulator takes the values out of the number that holds them side by side.
use native.Mathlib.Nat.{div-add-mod, mod-lt, div-eq_of_lt, add-mul-div_left, div-mul-le_self}
use halospawns_infra.Prelude.{
  ℕ, zero, suc, ◌+◌, ◌-◌, ◌*◌, ◌/◌, ◌%◌, ◌^◌, ◌≤◌, ◌<◌, ◌≡◌, refl, ap, sym, ◌∙◌, List, ◌++◌, arith,
  bit_or, ltb, Bool-cases, inl, inr, false, dec_lt,
}
use halospawns_infra.Prelude.Results.{ok}
use halospawns_infra.Prelude.Words.{bit_or_disjoint}
use halospawns_infra.Delta.Codes.{Text}
use halospawns_infra.Delta.Reader.{M as Read, byte}
use halospawns_infra.Delta.Wire.{reader}
use halospawns_infra.Delta.Write.{to_le}
use halospawns_infra.Delta.Numbers.Bytes.{pow-le, one_le-pow}
use halospawns_infra.Delta.Packed.{Accumulator, fill, residual, shifted}
use halospawns_infra.Delta.Packed.Writing.{pow-add}

-- The accumulator `a` with the m bytes of M behind it holds X.
abbrev pub Holds : Accumulator → ℕ → ℕ → Type 0
Holds a M X = (a.digits < 2 ^ a.count) × (a.digits + 2 ^ a.count * M ≡ X)

-- What `fill` gives: `width` digits at least, and the same number in all.
pub record Filled (width X left : ℕ) (r : Read Accumulator) (all rest : List ℕ) (ss : List Text)
    : Type 0 where
  pub after : Accumulator
  pub bytes_left : ℕ
  pub high : ℕ
  pub holds : Holds after high X
  pub enough : width ≤ after.count
  pub count : after.count + 8 * bytes_left ≡ left
  pub runs : r (reader (all ++ rest) ss) ≡ ok (after, reader (to_le bytes_left high ++ rest) ss)

le_mul : (v p q : ℕ) → p ≤ q → v * p ≤ v * q
le_mul v p q h = grind arith

lt_of_mul : (p q n d : ℕ) → p * q ≤ d → d < p * n → q < n
lt_of_mul p q n d h k = elim (dec_lt q n) [
  | yes l ↦ l
  | no l ↦ absurd (omega (arith, le_mul p n q (omega arith)))
]

div-eq_zero : (r p : ℕ) → r < p → r / p ≡ 0
div-eq_zero r p h = div-eq_of_lt h

-- A quotient and a remainder determine one another.
quotient_unique : (p r s a b : ℕ) → r < p → s < p → r + p * a ≡ s + p * b → (a ≡ b) × (r ≡ s)
quotient_unique p r s a b hr hs e =
    let ea : (r + p * a) / p ≡ a =
      add-mul-div_left r a (omega arith) ∙ rw (div-eq_zero r p hr) (omega arith) in
    let eb : (s + p * b) / p ≡ b =
      add-mul-div_left s b (omega arith) ∙ rw (div-eq_zero s p hs) (omega arith) in
    let same : a ≡ b = sym ea ∙ ap (λ (t : ℕ). t / p) e ∙ eb in
    (same, omega (arith, e, ap (λ (t : ℕ). p * t) same))

next_byte : ℕ → Accumulator → Accumulator
next_byte b a = record { digits = bit_or a.digits (b * 2 ^ a.count % 2 ^ 64); count = a.count + 8 }

next_byte-Holds :
    (a : Accumulator) (M X : ℕ)
    → a.count ≤ 32
    → Holds a M X
    → Holds (next_byte (M % 256) a) (M / 256) X
unfolding next_byte
next_byte-Holds a M X few (small, e) =
    let word = le_mul (M % 256) (2 ^ a.count) (2 ^ 32) (pow-le a.count 32 few) in
    let exact : M % 256 * 2 ^ a.count % 2 ^ 64 ≡ M % 256 * 2 ^ a.count = omega (arith, word) in
    let digits : bit_or a.digits (M % 256 * 2 ^ a.count % 2 ^ 64)
        ≡ a.digits + M % 256 * 2 ^ a.count =
      rw exact (bit_or_disjoint a.count a.digits (M % 256) small) in
    rw digits (
      omega (arith, pow-add a.count 8, le_mul (2 ^ a.count) (M % 256) 255 (omega arith)),
      omega (
        arith,
        e,
        ap (λ (t : ℕ). t * (M / 256)) (pow-add a.count 8),
        ap (λ (t : ℕ). 2 ^ a.count * t) (div-add-mod M 256),
      ),
    )

pub fill-Filled :
    (rounds width m M X left : ℕ) (a : Accumulator) (rest : List ℕ) (ss : List Text)
    → width ≤ 32
    → width ≤ a.count + 8 * rounds
    → width ≤ left
    → a.count + 8 * m ≡ left
    → Holds a M X
    → Filled width X left (fill rounds width a) (to_le m M) rest ss
unfolding fill to_le byte next_byte
fill-Filled zero width m M X left a rest ss narrow h room count holds = record {
  after = a;
  bytes_left = m;
  high = M;
  holds = holds;
  enough = omega arith;
  count = count;
  runs = refl;
}
fill-Filled (suc rounds) width zero M X left a rest ss narrow h room count holds = record {
  after = a;
  bytes_left = 0;
  high = M;
  holds = holds;
  enough = omega arith;
  count = count;
  runs = rw full;
}
  where
    full : ltb a.count width ≡ false
    full = ground arith
fill-Filled (suc rounds) width (suc m) M X left a rest ss narrow h room count holds =
    elim (Bool-cases (ltb a.count width)) [
      | inl more ↦
          let next =
            fill-Filled rounds width m (M / 256) X left (next_byte (M % 256) a) rest ss narrow
              (omega arith) room (omega arith) (next_byte-Holds a M X (ground arith) holds) in
          record {
            after = next.after;
            bytes_left = next.bytes_left;
            high = next.high;
            holds = next.holds;
            enough = next.enough;
            count = next.count;
            runs = rw more next.runs;
          }
      | inr full ↦ record {
        after = a;
        bytes_left = suc m;
        high = M;
        holds = holds;
        enough = ground arith;
        count = count;
        runs = rw full;
      }
    ]

-- The lowest `width` digits are the first value, and the others hold the rest.
pub residual-Holds :
    (width v more M : ℕ) (a : Accumulator)
    → width ≤ a.count
    → v < 2 ^ width
    → Holds a M (v + 2 ^ width * more)
    → (residual width a ≡ v) × Holds (shifted width a) M more
unfolding residual shifted
residual-Holds width v more M a enough fits (small, e) =
    let c = a.count - width in
    let power : 2 ^ a.count ≡ 2 ^ width * 2 ^ c =
      ap (λ (t : ℕ). 2 ^ t) (omega arith) ∙ pow-add width c in
    let (rest, low) =
      quotient_unique (2 ^ width) (a.digits % 2 ^ width) v (a.digits / 2 ^ width + 2 ^ c * M) more
        (mod-lt a.digits (one_le-pow width)) fits
        (omega (arith, e, div-add-mod a.digits (2 ^ width), ap (λ (t : ℕ). t * M) power)) in
    (
      low,
      (
        lt_of_mul (2 ^ width) (a.digits / 2 ^ width) (2 ^ c) a.digits
            (omega (arith, div-mul-le_self a.digits (2 ^ width))) (omega (arith, power)),
        rest,
      ),
    )
