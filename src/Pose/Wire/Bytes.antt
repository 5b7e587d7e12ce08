-- ===== src/Pose/Wire/Bytes.antt =====
-- Words of a fixed width are read back, and the sign goes through two's complement.
use native.Mathlib.Nat.{pow-suc}
use Prim.Native.Nat.{differ}
use halospawns_infra.Delta.Numbers.Bytes.{one_le-pow}
use halospawns_infra.Prelude.{
  ℕ, zero, suc, ◌+◌, ◌-◌, ◌*◌, ◌/◌, ◌%◌, ◌^◌, ◌≤◌, ◌<◌, ◌≡◌, refl, ap, ◌∙◌, List, ◌∷◌, ◌++◌,
  bit_xor, arith, ltb, ◌==◌, true, false,
}
use halospawns_infra.Prelude.Results.{ok}
use halospawns_infra.Prelude.Int.{ℤ, pos, negsuc, pos_part, neg_part}
use halospawns_infra.Prelude.Words.{bit_xor_step}
use halospawns_infra.Delta.Write.{to_le}
use halospawns_infra.Delta.Read.{from_le}
use halospawns_infra.Pose.Wire.{
  bits_of, of_bits, write_u16, write_u32, write_i32, bytes, u8, u16, u32, i32, zigzag, unzigzag,
  sign_mask,
}

pub u8-byte : (b : ℕ) (rest : List ℕ) → u8 (b ∷ rest) ≡ ok (b, rest)
unfolding u8 bytes
u8-byte b rest = ground arith

pub u16-write : (v : ℕ) (rest : List ℕ) → v < 2 ^ 16 → u16 (write_u16 v ++ rest) ≡ ok (v, rest)
unfolding u16 write_u16 bytes to_le from_le
u16-write v rest h = ground arith

pub u32-write : (v : ℕ) (rest : List ℕ) → v < 2 ^ 32 → u32 (write_u32 v ++ rest) ≡ ok (v, rest)
unfolding u32 write_u32 bytes to_le from_le
u32-write v rest h = ground arith

-- What an i32 holds.
abbrev pub IsI32 : ℤ → Type 0
IsI32 v = (pos_part v < 2 ^ 31) × (neg_part v ≤ 2 ^ 31)

abbrev pub IsI64 : ℤ → Type 0
IsI64 v = (pos_part v < 2 ^ 63) × (neg_part v ≤ 2 ^ 63)

of_bits-bits_of : (v : ℤ) → IsI32 v → of_bits 32 (bits_of 32 v) ≡ v
unfolding of_bits bits_of
of_bits-bits_of (pos n) h = ground arith
of_bits-bits_of (negsuc n) h = ground arith

bits_of-lt : (v : ℤ) → bits_of 32 v < 2 ^ 32
unfolding bits_of
bits_of-lt (pos n) = omega arith
bits_of-lt (negsuc n) = omega arith

i32-word : (v : ℕ) (rest : List ℕ) → v < 2 ^ 32 → i32 (to_le 4 v ++ rest) ≡ ok (of_bits 32 v, rest)
unfolding i32 bytes to_le
i32-word v rest h =
    let back : from_le (to_le 4 v) ≡ v = (unfold to_le from_le in omega arith) in
    ground (arith, back)

pub i32-write : (v : ℤ) (rest : List ℕ) → IsI32 v → i32 (write_i32 v ++ rest) ≡ ok (v, rest)
unfolding write_i32
i32-write v rest h =
    i32-word (bits_of 32 v) rest (bits_of-lt v) ∙ ap (λ (t : ℤ). ok (t, rest)) (of_bits-bits_of v h)

differ_one : (d : ℕ) → d < 2 → differ d 1 ≡ 1 - d
differ_one zero h = refl
differ_one (suc zero) h = refl
differ_one (suc (suc d)) h = absurd (omega arith)

-- All ones turn a number of k digits into what is missing to them.
pub bit_xor-ones : (k x : ℕ) → x < 2 ^ k → bit_xor x (2 ^ k - 1) ≡ 2 ^ k - 1 - x
bit_xor-ones zero x h = let e : x ≡ 0 = omega arith in rw e refl
bit_xor-ones (suc k) x h =
    let half : (2 ^ suc k - 1) / 2 ≡ 2 ^ k - 1 = omega (arith, pow-suc 2 k, one_le-pow k) in
    let odd : (2 ^ suc k - 1) % 2 ≡ 1 = omega (arith, pow-suc 2 k, one_le-pow k) in
    omega (
      arith,
      pow-suc 2 k,
      (rw (half, odd) at (bit_xor_step x (2 ^ suc k - 1))),
      differ_one (x % 2) (omega arith),
      bit_xor-ones k (x / 2) (omega (arith, pow-suc 2 k)),
    )

pub bit_xor_zero : (n x : ℕ) → x ≤ n → bit_xor x 0 ≡ x
bit_xor_zero n zero h = refl
bit_xor_zero zero (suc x) h = absurd (omega arith)
bit_xor_zero (suc n) (suc x) h = omega (
  arith,
  bit_xor_step (suc x) 0,
  differ_zero (suc x % 2) (omega arith),
  bit_xor_zero n (suc x / 2) (omega arith),
)
  where
    differ_zero : (d : ℕ) → d < 2 → differ d 0 ≡ d
    differ_zero zero k = refl
    differ_zero (suc zero) k = refl
    differ_zero (suc (suc d)) k = absurd (omega arith)

-- The code of an integer: twice its magnitude, and one more below 0.
unfoldable pub code : ℤ → ℕ
code (pos n) = n * 2
code (negsuc n) = n * 2 + 1

pub zigzag_lem : (v : ℤ) → IsI64 v → zigzag v ≡ code v
unfolding zigzag bits_of sign_mask code
zigzag_lem (pos n) h =
    omega (arith, bit_xor_zero (n % 2 ^ 64 * 2 % 2 ^ 64) (n % 2 ^ 64 * 2 % 2 ^ 64) (omega arith))
zigzag_lem (negsuc n) h =
    let ones = bit_xor-ones 64 ((2 ^ 64 - 1 - n % 2 ^ 64) * 2 % 2 ^ 64) (omega arith) in
    omega (arith, ones)

pub code-lt : (v : ℤ) → IsI64 v → code v < 2 ^ 64
unfolding code
code-lt (pos n) h = omega arith
code-lt (negsuc n) h = omega arith

pub unzigzag-code : (v : ℤ) → IsI64 v → unzigzag (code v) ≡ v
unfolding unzigzag of_bits code
unzigzag-code (pos n) h =
    let half : n * 2 / 2 ≡ n = omega arith in
    let even : (n * 2 % 2 == 1) ≡ false = ground arith in
    let small : ltb n (2 ^ 63) ≡ true = ground arith in
    rw (half, even, bit_xor_zero n n (omega arith), small) refl
unzigzag-code (negsuc n) h =
    let half : (n * 2 + 1) / 2 ≡ n = omega arith in
    let odd : ((n * 2 + 1) % 2 == 1) ≡ true = ground arith in
    let large : ltb (2 ^ 64 - 1 - n) (2 ^ 63) ≡ false = ground arith in
    let back : 2 ^ 64 - 1 - (2 ^ 64 - 1 - n) ≡ n = omega arith in
    rw (half, odd, bit_xor-ones 64 n (omega arith), large, back) refl
