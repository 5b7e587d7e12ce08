-- ===== src/Delta/Examples/Toy.antt =====
-- A small arithmetic of bit patterns with the laws that the codec relies on: an integer is its sign
-- and its magnitude, and the f32 numbers are a range of patterns of their own.
use halospawns_infra.Prelude.{
  ℕ, suc, ◌+◌, ◌-◌, ◌%◌, ◌^◌, ◌≤◌, ◌<◌, ◌≡◌, true, ltb, leb, arith, if◌then◌else◌,
}
use halospawns_infra.Prelude.Int.{ℤ, pos, negsuc, pos_part, neg_part, sub_ℕ, ◌+ℤ◌, ◌-ℤ◌}
use halospawns_infra.Delta.Codes.{safe_integer_max}
use halospawns_infra.Delta.Floats.{Floats, Lawful, IsF64, is_safe_integer, negative_zero}

abbrev pub toy_to_i64 : ℕ → ℤ
toy_to_i64 v = if ltb v (2 ^ 63) then pos v else sub_ℕ 0 (v - 2 ^ 63)

abbrev pub toy_of_i64 : ℤ → ℕ
toy_of_i64 (pos n) = n
toy_of_i64 (negsuc n) = 2 ^ 63 + suc n

abbrev pub toy : Floats
toy = record {
  fract_zero = λ v. ltb (v % 2 ^ 63) (2 ^ 40);
  abs_le = λ v n. leb (v % 2 ^ 63) n;
  to_i64 = toy_to_i64;
  of_i64 = toy_of_i64;
  narrow = λ v. v % 2 ^ 32;
  widen = λ b. b + 2 ^ 60;
  sub = λ a b. toy_of_i64 (toy_to_i64 a -ℤ toy_to_i64 b);
  double = λ v. toy_of_i64 (toy_to_i64 v +ℤ toy_to_i64 v);
}

to_i64-of_i64 : (z : ℤ) → pos_part z + neg_part z < 2 ^ 63 → toy_to_i64 (toy_of_i64 z) ≡ z
to_i64-of_i64 (pos n) h = ground arith
to_i64-of_i64 (negsuc n) h = ground arith

toy-back : (v : ℕ) → IsF64 v → is_safe_integer toy v ≡ true → toy_of_i64 (toy_to_i64 v) ≡ v
unfolding is_safe_integer negative_zero
toy-back v h safe = ground arith

toy-small :
    (v : ℕ)
    → IsF64 v
    → is_safe_integer toy v ≡ true
    → pos_part (toy_to_i64 v) + neg_part (toy_to_i64 v) ≤ safe_integer_max
unfolding is_safe_integer
toy-small v h safe = ground arith

sub-small :
    (a b : ℤ)
    → pos_part (a -ℤ b) + neg_part (a -ℤ b) ≤ pos_part a + neg_part a + pos_part b + neg_part b
unfolding ◌-ℤ◌
sub-small a b = ground arith

pub toy-Lawful : Lawful toy
toy-Lawful = record {
  narrow_lt = λ v. omega arith;
  integer_back = toy-back;
  integer_small = toy-small;
  integer_difference = λ a b ha hb sa sb near. to_i64-of_i64 (toy_to_i64 b -ℤ toy_to_i64 a) (
      omega (arith, sub-small (toy_to_i64 b) (toy_to_i64 a), toy-small a ha sa, toy-small b hb sb));
}
