-- ===== src/Delta/DifferenceTrip.antt =====
-- The differences, exclusive ors and integers of `write_number_delta` of viewer.rs are read back.
use halospawns_infra.Prelude.{
  ℕ, ◌+◌, ◌/◌, ◌^◌, ◌≤◌, ◌<◌, ◌≡◌, refl, Bool, true, false, some, arith, ==_iff, bit_xor,
  if◌then◌else◌,
}
use halospawns_infra.Prelude.Results.{ok}
use halospawns_infra.Prelude.Int.{ℤ, pos_part, neg_part, ◌+ℤ◌, ◌-ℤ◌, int_laws}
use halospawns_infra.Delta.Codes.{safe_integer_max}
use halospawns_infra.Delta.Error.{unsafe_integer_delta}
use halospawns_infra.Delta.Reader
use halospawns_infra.Delta.Reader.{M, ◌>>=◌, pure, byte}
use halospawns_infra.Delta.Writer
use halospawns_infra.Delta.Writer.{Write}
use halospawns_infra.Delta.Sync.{Reads, Reads-bind_done}
use halospawns_infra.Delta.Wire.{Reads-varuint}
use halospawns_infra.Delta.Floats.{Floats, Lawful, IsF64, is_finite, is_safe_integer, exact_f32}
use halospawns_infra.Delta.Value.{number, number_of}
use halospawns_infra.Delta.Read.{decoded_number}
use halospawns_infra.Delta.Difference.{
  patched_float32_bits, signed_difference, signed_uint32_difference,
}
use halospawns_infra.Delta.Difference.Laws.{
  patched-difference, patched-xor, decode-signed_difference,
}
use halospawns_infra.Delta.Numbers.{integers_apart}
use halospawns_infra.Delta.PatchNumber.{
  read_integer_delta, filtered, base_number, read_patched_bits,
}
use halospawns_infra.Delta.XorTrip.{Reads-decoded}

abs-sub :
    (a b : ℤ)
    → pos_part (a -ℤ b) + neg_part (a -ℤ b) ≤ pos_part a + neg_part a + pos_part b + neg_part b
unfolding ◌-ℤ◌
abs-sub a b = ground arith

sub-add : (a b : ℤ) → b +ℤ (a -ℤ b) ≡ a
sub-add a b = omega int_laws

module _ (F : Floats) (L : Lawful F) where
  -- A pattern that is patched to that of n is read as n.
  Reads-bits :
      (base n encoded : ℕ) (is_xor : Bool)
      → patched_float32_bits base encoded is_xor ≡ ok (F.narrow n)
      → exact_f32 F n ≡ true
      → is_finite n ≡ true
      → Reads (Writer.varuint encoded) (read_patched_bits F base is_xor) (λ a. a ≡ number n)
  unfolding read_patched_bits exact_f32
  Reads-bits base n encoded is_xor patched exact fin =
      Reads-bind_done _ _ _ (Reads-varuint encoded)
        λ e ee. rw (ee, patched) (Reads-decoded n _ fin ((==_iff _ n).0 exact))

  -- The same by a difference, from any base of 32 bits, and by exclusive or.
  pub Reads-difference :
      (base n : ℕ)
      → base < 2 ^ 32
      → exact_f32 F n ≡ true
      → is_finite n ≡ true
      → Reads
          (Writer.varuint (signed_difference (signed_uint32_difference base (F.narrow n))))
          (read_patched_bits F base false)
          (λ a. a ≡ number n)
  Reads-difference base n h exact fin =
      Reads-bits base n _ false (patched-difference base (F.narrow n) h (L.narrow_lt n)) exact fin

  pub Reads-exclusive :
      (base n : ℕ)
      → base < 2 ^ 32
      → exact_f32 F n ≡ true
      → is_finite n ≡ true
      → Reads
          (Writer.varuint (bit_xor base (F.narrow n)))
          (read_patched_bits F base true)
          (λ a. a ≡ number n)
  Reads-exclusive base n h exact fin =
      Reads-bits base n _ true (patched-xor base (F.narrow n) h (L.narrow_lt n)) exact fin

  -- The integer form.
  integer_decoded :
      (p n : ℕ)
      → is_finite n ≡ true
      → F.abs_le n safe_integer_max ≡ true
      → F.of_i64 (F.to_i64 n) ≡ n
      → Reads Writer.done
          (if F.abs_le (F.of_i64 (F.to_i64 p +ℤ (F.to_i64 n -ℤ F.to_i64 p))) safe_integer_max
            then decoded_number (F.of_i64 (F.to_i64 p +ℤ (F.to_i64 n -ℤ F.to_i64 p)))
            else Reader.raise unsafe_integer_delta)
          (λ a. a ≡ number n)
  integer_decoded p n fin size back =
      rw (sub-add (F.to_i64 n) (F.to_i64 p), back, size) (Reads-decoded n n fin refl)

  pub Reads-integers :
      (p n : ℕ)
      → IsF64 p
      → IsF64 n
      → is_finite n ≡ true
      → integers_apart F p n ≡ true
      → Reads
          (Writer.varuint (signed_difference (F.to_i64 (F.sub n p))))
          (read_integer_delta F (some (number p)))
          (λ a. a ≡ number n)
  unfolding read_integer_delta base_number number_of filtered
  Reads-integers p n hp hn fin apart =
      let safe_p : is_safe_integer F p ≡ true = unfold integers_apart in ground arith in
      let safe_n : is_safe_integer F n ≡ true = unfold integers_apart in ground arith in
      let near : F.abs_le (F.sub n p) (safe_integer_max / 2) ≡ true =
        unfold integers_apart in ground arith in
      let fract : F.fract_zero p ≡ true = unfold is_safe_integer in ground arith in
      let size : F.abs_le p safe_integer_max ≡ true = unfold is_safe_integer in ground arith in
      let size_n : F.abs_le n safe_integer_max ≡ true = unfold is_safe_integer in ground arith in
      let difference = L.integer_difference p n hp hn safe_p safe_n near in
      let decoded = decode-signed_difference (F.to_i64 n -ℤ F.to_i64 p) (
        omega (
          arith,
          abs-sub (F.to_i64 n) (F.to_i64 p),
          L.integer_small p hp safe_p,
          L.integer_small n hn safe_n,
        )) in
      rw (fract, size, difference)
        (Reads-bind_done _ _ _ (Reads-varuint _)
          λ e ee. rw (ee, decoded) (integer_decoded p n fin size_n (L.integer_back n hn safe_n)))
