-- ===== src/Pose/Wire.antt =====
-- `Writer` and `Reader` of lambda/h1_film/pose_codec/src/wire.rs. A write is the bytes that it appends;
-- the reader's state is the bytes behind `at`.
pub mod Bytes
pub mod Varint
pub mod Gives
use mathlib.Core.WellFounded.{Acc}
use halospawns_infra.Prelude.{
  ℕ, zero, suc, ◌+◌, ◌-◌, ◌*◌, ◌/◌, ◌%◌, ◌^◌, ◌≤◌, ◌<◌, Bool, true, false, ◌&&◌, List, [], ◌∷◌,
  ◌++◌, length, take, drop, bit_and, bit_or, bit_xor, ltb, leb, ◌==◌, arith, dec_lt, dite, lt_wf,
  if◌then◌else◌,
}
use halospawns_infra.Prelude.Results.{Result, ok, err}
use halospawns_infra.Prelude.Int.{ℤ, pos, negsuc}
use halospawns_infra.Delta.Write.{to_le}
use halospawns_infra.Delta.Read.{from_le}
use halospawns_infra.Pose.Error.{Error, truncated, varint_overflow, invalid_varint, trailing_bytes}

-- An integer as w bits in two's complement, and back.
unfoldable pub bits_of : ℕ → ℤ → ℕ
bits_of w (pos n) = n % 2 ^ w
bits_of w (negsuc n) = 2 ^ w - 1 - n % 2 ^ w

unfoldable pub of_bits : ℕ → ℕ → ℤ
of_bits w p = if ltb p (2 ^ (w - 1)) then pos p else negsuc (2 ^ w - 1 - p)

-- Writer::u16, u32 and i32
unfoldable pub write_u16 : ℕ → List ℕ
write_u16 v = to_le 2 v

unfoldable pub write_u32 : ℕ → List ℕ
write_u32 v = to_le 4 v

unfoldable pub write_i32 : ℤ → List ℕ
unfolding bits_of
write_i32 v = to_le 4 (bits_of 32 v)

-- All ones if v is negative: `v >> 63`.
unfoldable pub sign_mask : ℤ → ℕ
sign_mask (pos n) = 0
sign_mask (negsuc n) = 2 ^ 64 - 1

-- `((v << 1) ^ (v >> 63)) as u64`
unfoldable pub zigzag : ℤ → ℕ
unfolding bits_of
zigzag v = bit_xor (bits_of 64 v * 2 % 2 ^ 64) (sign_mask v)

pub quotient_shrinks : (v : ℕ) → 127 < v → v / 128 < v
quotient_shrinks v h = omega arith

-- `while n >= 128`
unfoldable pub groups : (v : ℕ) → Acc ◌<◌ v → List ℕ
groups v (Acc.intro _ smaller) =
    dite (dec_lt 127 v)
      (λ more.
        bit_or (v % 256) 128 ∷ groups (v / 128) (smaller (v / 128) (quotient_shrinks v more)))
      (λ _. (v % 256) ∷ [])

-- Writer::signed
unfoldable pub write_signed : ℤ → List ℕ
unfolding groups lt_wf dec_lt zigzag
write_signed v = groups (zigzag v) (lt_wf.apply (zigzag v))

abbrev pub M : Type 0 → Type 0
M A = List ℕ → Result Error (A × List ℕ)

abbrev pub continue :
    {A B : Type 0} → Result Error (A × List ℕ) → (A → M B) → Result Error (B × List ℕ)
continue (ok (a, r)) f = f a r
continue (err e) f = err e

infixl 5 ◌>>=◌ ◌>>◌
abbrev pub ◌>>=◌ : {A B : Type 0} → M A → (A → M B) → M B
◌>>=◌ m f r = continue (m r) f

abbrev pub ◌>>◌ : {B : Type 0} → M (Unit {0}) → M B → M B
m >> k = m >>= λ _. k

abbrev pub pure : {A : Type 0} → A → M A
pure a r = ok (a, r)

abbrev pub raise : {A : Type 0} → Error → M A
raise e r = err e

-- Reader::bytes; `at + n` stays far below 2^64, since n is at most u32::MAX.
unfoldable pub bytes : ℕ → M (List ℕ)
bytes n r = if leb n (length r) then ok (take n r, drop n r) else err truncated

abbrev pub head_or_zero : List ℕ → ℕ
head_or_zero [] = 0
head_or_zero (b ∷ bs) = b

-- Reader::u8, u16, u32 and i32
unfoldable pub u8 : M ℕ
unfolding bytes
u8 = do bs ← bytes 1; pure (head_or_zero bs)

unfoldable pub u16 : M ℕ
unfolding bytes
u16 = do bs ← bytes 2; pure (from_le bs)

unfoldable pub u32 : M ℕ
unfolding bytes
u32 = do bs ← bytes 4; pure (from_le bs)

unfoldable pub i32 : M ℤ
unfolding bytes of_bits
i32 = do bs ← bytes 4; pure (of_bits 32 (from_le bs))

-- `((n >> 1) as i64) ^ -((n & 1) as i64)`
unfoldable pub unzigzag : ℕ → ℤ
unfolding of_bits
unzigzag n = of_bits 64 (bit_xor (n / 2) (if n % 2 == 1 then 2 ^ 64 - 1 else 0))

-- The rounds of `for shift in (0..=63).step_by(7)` that are left, and the shift of the first.
unfoldable pub signed_loop : ℕ → ℕ → ℕ → M ℤ
unfolding u8 unzigzag
signed_loop zero shift n = raise invalid_varint
signed_loop (suc rounds) shift n = do
  b ← u8
  if (shift == 63) && ltb 1 b
      then raise varint_overflow
      else (let next =
            signed_loop rounds (shift + 7) (bit_or n (bit_and b 127 * 2 ^ shift % 2 ^ 64)) in
          if ltb b 128
          then pure (unzigzag (bit_or n (bit_and b 127 * 2 ^ shift % 2 ^ 64)))
          else next)

-- Reader::signed
unfoldable pub signed : M ℤ
unfolding signed_loop
signed = signed_loop 10 0 0

-- Reader::end
unfoldable pub end_of_bytes : M (Unit {0})
end_of_bytes [] = ok (tt, [])
end_of_bytes (b ∷ r) = err trailing_bytes
