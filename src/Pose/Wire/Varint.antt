-- ===== src/Pose/Wire/Varint.antt =====
-- What `Writer::signed` of wire.rs writes, `Reader::signed` reads back.
use mathlib.Core.WellFounded.{Acc}
use mathlib.Core.Logic.{dif_pos, dif_neg}
use native.Mathlib.Nat.{div-add-mod}
use native.Mathlib.Bridge.{le_prop}
use halospawns_infra.Prelude.{
  ℕ, zero, suc, ◌+◌, ◌*◌, ◌/◌, ◌%◌, ◌^◌, ◌≤◌, ◌<◌, ◌≡◌, refl, ap, ◌∙◌, true, false, ◌&&◌, List, [],
  ◌∷◌, ◌++◌, arith, ltb, ◌==◌, bit_or, bit_and, lt_wf, dec_lt,
}
use halospawns_infra.Prelude.Results.{ok}
use halospawns_infra.Prelude.Bits.{low_bits, set_top_bit}
use halospawns_infra.Prelude.Words.{bit_or_disjoint}
use halospawns_infra.Prelude.Int.{ℤ}
use halospawns_infra.Delta.Packed.Writing.{pow-add}
use halospawns_infra.Pose.Wire.{
  groups, quotient_shrinks, unzigzag, signed_loop, signed, write_signed, zigzag,
}
use halospawns_infra.Pose.Wire.Bytes.{u8-byte, IsI64, code, zigzag_lem, code-lt, unzigzag-code}

groups_last : (v : ℕ) (w : Acc ◌<◌ v) → v ≤ 127 → groups v w ≡ v % 256 ∷ []
unfolding groups
groups_last v (Acc.intro _ smaller) h = dif_neg (dec_lt 127 v) (omega arith) _ _

groups_inner :
    (v : ℕ) (w : Acc ◌<◌ v)
    → 127 < v
    → (w' : Acc ◌<◌ (v / 128)) × (groups v w ≡ bit_or (v % 256) 128 ∷ groups (v / 128) w')
unfolding groups
groups_inner v (Acc.intro _ smaller) h =
    (smaller (v / 128) (quotient_shrinks v h), dif_pos (dec_lt 127 v) le_prop h _ _)

-- The digits of one byte above the ones that are known.
module _ (shift n g : ℕ) (small : n < 2 ^ shift) (fits : n + g * 2 ^ shift < 2 ^ 64) where
  joined : bit_or n (g * 2 ^ shift % 2 ^ 64) ≡ n + g * 2 ^ shift
  joined =
      let exact : g * 2 ^ shift % 2 ^ 64 ≡ g * 2 ^ shift = omega arith in
      rw exact (bit_or_disjoint shift n g small)

  last_byte :
      (rounds : ℕ) (rest : List ℕ)
      → g ≤ 127
      → ((shift == 63) && ltb 1 g) ≡ false
      → signed_loop (suc rounds) shift n (g % 256 ∷ rest) ≡ ok (unzigzag (n + g * 2 ^ shift), rest)
  unfolding signed_loop
  last_byte rounds rest h guard =
      let byte : g % 256 ≡ g = omega arith in
      let low : bit_and g 127 ≡ g = omega (arith, low_bits g) in
      let last : ltb g 128 ≡ true = ground arith in
      rw (byte, u8-byte g rest, guard, low, joined, last) refl

  inner_byte :
      (rounds : ℕ) (rest : List ℕ)
      → g ≤ 127
      → (shift == 63) ≡ false
      → signed_loop (suc rounds) shift n ((g + 128) ∷ rest)
        ≡ signed_loop rounds (shift + 7) (n + g * 2 ^ shift) rest
  unfolding signed_loop
  inner_byte rounds rest h guard =
      let low : bit_and (g + 128) 127 ≡ g = omega (arith, low_bits (g + 128)) in
      let more : ltb (g + 128) 128 ≡ false = ground arith in
      rw (u8-byte (g + 128) rest, guard, low, joined, more) refl

regroup : (v shift : ℕ) → v * 2 ^ shift ≡ v % 128 * 2 ^ shift + v / 128 * 2 ^ (shift + 7)
regroup v shift = omega (
  arith,
  ap (λ (t : ℕ). t * 2 ^ shift) (div-add-mod v 128),
  ap (λ (t : ℕ). v / 128 * t) (pow-add shift 7),
)

le_mul : (q p : ℕ) → 1 ≤ q → p ≤ q * p
le_mul q p h = grind arith

below_product : (a b p : ℕ) → a ≤ b → a * p ≤ b * p
below_product a b p h = grind arith

-- `rounds` more bytes are enough from this shift on.
signed_loop-groups :
    (rounds v shift n : ℕ) (w : Acc ◌<◌ v) (rest : List ℕ)
    → shift + 7 * suc rounds ≡ 70
    → n < 2 ^ shift
    → n + v * 2 ^ shift < 2 ^ 64
    → signed_loop (suc rounds) shift n (groups v w ++ rest)
      ≡ ok (unzigzag (n + v * 2 ^ shift), rest)
signed_loop-groups zero v shift n w rest e small fits =
    let at_63 : shift ≡ 63 = omega arith in
    let bit : v ≤ 1 = omega (arith, fits, (rw at_63 at fits)) in
    let guard : ((shift == 63) && ltb 1 v) ≡ false = ground arith in
    rw (groups_last v w (omega arith)) (last_byte shift n v small fits 0 rest (omega arith) guard)
signed_loop-groups (suc rounds) v shift n w rest e small fits =
    let guard : (shift == 63) ≡ false = ground arith in
    elim (dec_lt 127 v) [
      | yes more ↦
          let (w', eg) = groups_inner v w more in
          let byte : bit_or (v % 256) 128 ≡ v % 128 + 128 = omega (arith, set_top_bit (v % 256)) in
          let low = regroup v shift in
          let sum : n + v % 128 * 2 ^ shift + v / 128 * 2 ^ (shift + 7) ≡ n + v * 2 ^ shift =
            omega (arith, low) in
          let room : n + v % 128 * 2 ^ shift < 2 ^ (shift + 7) =
            omega (arith, pow-add shift 7, below_product (v % 128) 127 (2 ^ shift) (omega arith)) in
          rw (eg, byte)
            (inner_byte shift n (v % 128) small (omega (arith, low)) (suc rounds)
                (groups (v / 128) w' ++ rest) (omega arith) guard
              ∙ signed_loop-groups rounds (v / 128) (shift + 7) (n + v % 128 * 2 ^ shift) w' rest
                  (omega (arith, e)) room (omega (arith, sum))
              ∙ rw sum refl)
      | no few ↦
          let guard' : ((shift == 63) && ltb 1 v) ≡ false = rw guard refl in
          rw (groups_last v w (omega arith))
            (last_byte shift n v small fits (suc rounds) rest (omega arith) guard')
    ]

-- For an i64, the reader's `signed` takes exactly the bytes that the writer's `signed` writes and
-- gives the integer.
pub signed-write :
    (v : ℤ) (rest : List ℕ) → IsI64 v → signed (write_signed v ++ rest) ≡ ok (v, rest)
unfolding signed write_signed
signed-write v rest h =
    let whole : 0 + zigzag v * 2 ^ 0 ≡ code v = omega (arith, zigzag_lem v h) in
    signed_loop-groups 9 (zigzag v) 0 0 (lt_wf.apply (zigzag v)) rest (omega arith) (omega arith)
      (omega (arith, code-lt v h, zigzag_lem v h))
    ∙ ap (λ (t : ℤ). ok (t, rest)) (ap unzigzag whole ∙ unzigzag-code v h)
