-- ===== src/Delta/Reader.antt =====
-- `BinaryReader` of viewer.rs. `bytes` holds what stands behind the offset, so that the offset is at
-- the end exactly when it is empty; `strings` are the texts read so far, in the order of their
-- indices. An action that fails has no state: every caller leaves by `?` and drops the reader.
use halospawns_infra.Prelude.{
  ℕ, zero, suc, ◌+◌, ◌-◌, ◌*◌, ◌/◌, ◌%◌, ◌^◌, bit_and, Bool, Option, none, some, List, [], ◌∷◌,
  ◌++◌, get_elem?, length, take, drop, ltb, leb, ◌==◌, if◌then◌else◌,
}
use halospawns_infra.Prelude.Results.{Result, ok, err}
use halospawns_infra.Delta.Error.{
  Error, unexpected_end, integer_overflow, unsafe_integer, malformed_integer,
  malformed_string_reference, invalid_utf8,
}
use halospawns_infra.Delta.Codes.{Text, safe_integer_max}

pub record BinaryReader : Type 0 where
  pub bytes : List ℕ
  pub strings : List Text

abbrev pub M : Type 0 → Type 0
M A = BinaryReader → Result Error (A × BinaryReader)

abbrev pub continue :
    {A B : Type 0} → Result Error (A × BinaryReader) → (A → M B) → Result Error (B × BinaryReader)
continue (ok (a, r)) f = f a r
continue (err e) f = err e

infixl 5 ◌>>=◌ ◌>>◌
abbrev pub ◌>>=◌ : {A B : Type 0} → M A → (A → M B) → M B
◌>>=◌ m f r = continue (m r) f

abbrev pub ◌>>◌ : {B : Type 0} → M (Unit {0}) → M B → M B
m >> k = m >>= λ _. k

abbrev pub pure : {A : Type 0} → A → M A
pure a r = ok (a, r)

abbrev pub raise : {A : Type 0} → Error → M A
raise e r = err e

abbrev pub lift_result : {A : Type 0} → Result Error A → M A
lift_result (ok a) r = ok (a, r)
lift_result (err e) r = err e

-- fn byte
byte_of : List ℕ → List Text → Result Error (ℕ × BinaryReader)
byte_of [] s = err unexpected_end
byte_of (b ∷ rest) s = ok (b, record { bytes = rest; strings = s })

unfoldable pub byte : M ℕ
unfolding byte_of
byte r = byte_of r.bytes r.strings

-- fn bytes
unfoldable pub bytes : ℕ → M (List ℕ)
bytes n r =
    if leb n (length r.bytes)
    then ok (take n r.bytes, record r { bytes = drop n r.bytes })
    else err unexpected_end

-- `checked_add` and `checked_mul` of u64
checked : ℕ → M ℕ
checked n = if ltb n (2 ^ 64) then pure n else raise integer_overflow

-- The rounds of `for _ in 0..8` that are left.
unfoldable pub varuint_loop : ℕ → ℕ → ℕ → M ℕ
unfolding checked
varuint_loop zero value factor = raise malformed_integer
varuint_loop (suc rounds) value factor = do
  b ← byte
  value' ← checked (value + bit_and b 0x7f * factor % 2 ^ 64)
  if ltb b 128
      then (if ltb safe_integer_max value' then raise unsafe_integer else pure value')
      else do factor' ← checked (factor * 128); varuint_loop rounds value' factor'

-- fn varuint
unfoldable pub varuint : M ℕ
unfolding varuint_loop
varuint = varuint_loop 8 0 1

reference : Option Text → M Text
reference none = raise malformed_string_reference
reference (some s) = pure s

intern : Text → M Text
intern s r = ok (s, record r { strings = r.strings ++ (s ∷ []) })

-- `std::str::from_utf8` is a parameter: the test whether bytes are valid UTF-8.
module _ (is_utf8 : List ℕ → Bool) where
  pub literal : List ℕ → M Text
  unfolding intern
  literal s = if is_utf8 s then intern s else raise invalid_utf8

  -- fn string
  unfoldable pub string : M Text
  unfolding reference literal
  string = do
    token ← varuint
    if token % 2 == 0
        then (λ r. reference (get_elem? r.strings (token / 2)) r)
        else do s ← bytes ((token - 1) / 2); literal s
