-- ===== src/Delta/XorTrip.antt =====
-- A number that `write_number_xor` of viewer.rs wrote is read back.
use native.Mathlib.Nat.{mod-eq_of_lt}
use halospawns_infra.Prelude.{
  ℕ, zero, suc, ◌+◌, ◌-◌, ◌*◌, ◌/◌, ◌%◌, ◌^◌, ◌≤◌, ◌<◌, ◌≡◌, ◌≢◌, refl, ap, true, false, some, inl,
  inr, List, length, take, dec_lt, arith, ltb, ◌==◌, Bool-cases, bit_or, bit_and, bit_xor,
}
use halospawns_infra.Prelude.Results.{ok}
use halospawns_infra.Prelude.Bits.{low_nibble, nibbles}
use halospawns_infra.Prelude.Words.{bit_xor-lt, bit_xor_twice}
use halospawns_infra.Delta.Reader.{M, byte}
use halospawns_infra.Delta.Writer
use halospawns_infra.Delta.Writer.{Write}
use halospawns_infra.Delta.Sync.{Reads, Reads-bind, Reads-bind_done, Reads-pure}
use halospawns_infra.Delta.Wire.{Reads-slice}
use halospawns_infra.Delta.Floats.{IsF64, is_finite}
use halospawns_infra.Delta.Value.{number, number_of}
use halospawns_infra.Delta.Read.{from_le, decoded_number}
use halospawns_infra.Delta.Write.{to_le}
use halospawns_infra.Delta.Values.{Reads-byte}
use halospawns_infra.Delta.Numbers.{trailing_bytes, significant_bytes, write_xor, write_number_xor}
use halospawns_infra.Delta.Numbers.Xor.{
  significant_back, bytes_fit, significant_read, lt-significant_bytes, significant-lt,
}
use halospawns_infra.Delta.PatchNumber.{base_number, xor_significant, read_number_xor}

-- A write that fails is read by anything.
pub Reads-raise :
    {A : Type 0} {P : A → Type 0} (m : Write) (r : M A)
    → ((t : Writer.Table) (out : List ℕ) (t' : Writer.Table) → m t ≢ ok (out, t'))
    → Reads m r P
Reads-raise m r fails = record { reading = λ t t' out e. absurd (fails t out t' e) }

pub Reads-decoded :
    (v w : ℕ)
    → is_finite v ≡ true
    → w ≡ v
    → Reads Writer.done (decoded_number w) (λ a. a ≡ number v)
unfolding decoded_number
Reads-decoded v w fin e = rw (e, fin) (Reads-pure (number v) refl)

length-take-to_le : (m n v : ℕ) → n ≤ m → length (take n (to_le m v)) ≡ n
unfolding to_le
length-take-to_le m zero v h = omega arith
length-take-to_le zero (suc n) v h = absurd (omega arith)
length-take-to_le (suc m) (suc n) v h = omega (arith, length-take-to_le m n (v / 256) (omega arith))

-- The bytes of an exclusive or x, of which `shift` low ones are left out.
module _ (p n x shift count significant : ℕ) (fin : is_finite n ≡ true) (bits : x < 2 ^ 64)
    (meets : bit_xor p x ≡ n) (pos : 1 ≤ count) (fit : shift + count ≤ 8)
    (back : significant * 256 ^ shift ≡ x)
    (bytes_back : from_le (take count (to_le 8 significant)) ≡ significant) where
  Reads-significant :
      Reads
        (Writer.bytes (take count (to_le 8 significant)))
        (xor_significant p shift count)
        (λ a. a ≡ number n)
  unfolding xor_significant
  Reads-significant =
      let fits : ltb 8 (shift + count) ≡ false = ground arith in
      rw fits (
        Reads-bind_done _ _ _
          (Reads-slice _ count (length-take-to_le 8 count significant (omega arith)))
          λ bs e. Reads-decoded n _ fin (rw (e, bytes_back, back, mod-eq_of_lt bits) meets))

  Reads-descriptor :
      Reads
        (Writer.◌>>◌
          (Writer.byte (bit_or (shift * 16) (count - 1) % 256))
          (Writer.bytes (take count (to_le 8 significant))))
        (read_number_xor (some (number p)))
        (λ a. a ≡ number n)
  unfolding read_number_xor base_number number_of
  Reads-descriptor =
      Reads-bind _ (Writer.bytes (take count (to_le 8 significant))) byte
        (λ d. xor_significant p (d / 16) (bit_and d 0x0f + 1)) (Reads-byte _)
        λ d e.
          let both : d ≡ shift * 16 + (count - 1) =
            omega (arith, e, nibbles shift (count - 1) (omega arith) (omega arith)) in
          let high : d / 16 ≡ shift = omega (arith, both) in
          let low : bit_and d 0x0f + 1 ≡ count =
            omega (arith, both, low_nibble d (omega (arith, both))) in
          rw (high, low) Reads-significant

significant_bytes-pos :
    (x : ℕ) → x < 2 ^ 64 → (x == 0) ≡ false → 1 ≤ significant_bytes (x / 256 ^ trailing_bytes x)
significant_bytes-pos x bits some_bit =
    elim (dec_lt 0 (significant_bytes (x / 256 ^ trailing_bytes x))) [
      | yes h ↦ h
      | no h ↦
          let none_left : significant_bytes (x / 256 ^ trailing_bytes x) ≡ 0 = omega arith in
          let small =
            rw none_left at
              (lt-significant_bytes (x / 256 ^ trailing_bytes x) (significant-lt x bits)) in
          let nothing : x / 256 ^ trailing_bytes x ≡ 0 = omega (arith, small) in
          let x_zero : x ≡ 0 =
            omega (
              arith,
              significant_back x bits,
              ap (λ (t : ℕ). t * 256 ^ trailing_bytes x) nothing,
            ) in
          ground arith
    ]

-- For two numbers of 64 bits, the second finite: whenever `write_number_xor` succeeds, the branch
-- for it takes exactly its bytes and gives the second number over the same base.
pub Reads-number_xor :
    (p n : ℕ)
    → IsF64 p
    → IsF64 n
    → is_finite n ≡ true
    → Reads (write_number_xor p n) (read_number_xor (some (number p))) (λ a. a ≡ number n)
unfolding write_number_xor write_xor
Reads-number_xor p n hp hn fin = elim (Bool-cases (bit_xor p n == 0)) [
  | inl zero_xor ↦ rw zero_xor (Reads-raise _ _ (λ t out t' e. cc e))
  | inr some_bit ↦
      let x = bit_xor p n in
      let bits = bit_xor-lt 64 p n hp hn in
      rw some_bit (
        Reads-descriptor p n x (trailing_bytes x) (significant_bytes (x / 256 ^ trailing_bytes x))
          (x / 256 ^ trailing_bytes x) fin bits (bit_xor_twice p n)
          (significant_bytes-pos x bits some_bit) (bytes_fit x bits) (significant_back x bits)
          (significant_read x bits))
]
