-- ===== src/Delta/Examples.antt =====
-- Tests of the codec, and each theorem applied at concrete values.
pub mod Toy
use halospawns_infra.Delta.Safety.{validate_json_safety, validate_items}
use halospawns_infra.Delta.Safety.Accepts.{ShortTexts, validate_json_safety-accepts}
use halospawns_infra.Prelude.{
  ℕ, zero, suc, ◌+◌, ◌*◌, ◌^◌, ◌≤◌, ◌<◌, ◌≡◌, refl, Bool, true, false, Option, none, some, List, [],
  ◌∷◌, length, arith,
}
use halospawns_infra.Prelude.Results.{ok, err}
use halospawns_infra.Delta.Error.{Error, source_depth}
use halospawns_infra.Delta.Floats.{Floats, IsF64, is_finite, exact_f32}
use halospawns_infra.Delta.Value.{
  Value, null, bool, number, string, array, object, Items, nil, cons, end, field, IsJson, AllJson,
  has_key, depth,
}
use halospawns_infra.Delta.Chunk.{encode_chunk, decode_chunk}
use halospawns_infra.Prelude.Int.{◌-ℤ◌, ◌+ℤ◌}
use halospawns_infra.Delta.Error.{malformed_history_length}
use halospawns_infra.Delta.Reader
use halospawns_infra.Delta.Reader.{BinaryReader}
use halospawns_infra.Delta.Writer
use halospawns_infra.Delta.Writer.{lookup, text_eq}
use halospawns_infra.Delta.Sync.{Reads}
use halospawns_infra.Delta.Floats.{is_safe_integer, negative_zero}
use halospawns_infra.Delta.Value.{
  length_fields, length_items, fields_of, items_of, number_of, and_then,
}
use halospawns_infra.Delta.Write.{write_value, write_number, to_le}
use halospawns_infra.Delta.Read.{read_value}
use halospawns_infra.Delta.Same.{delta_same, same, is_null, is_bool, is_text}
use halospawns_infra.Delta.Difference.{
  signed_difference, signed_uint32_difference, patched_float32_bits,
}
use halospawns_infra.Delta.Numbers.{integers_apart, write_number_delta, write_number_xor}
use halospawns_infra.Delta.PatchNumber.{read_number_xor}
use halospawns_infra.Delta.WriteDelta.{
  write_delta, write_replace, write_number_or_replace, float_arrays, float_history,
}
use halospawns_infra.Delta.ReadDelta.{read_patched}
use halospawns_infra.Delta.FloatArray.{
  exact_number, exact_numbers, write_float_array, float_base, float_residual, residuals, max_width,
}
use halospawns_infra.Delta.PatchFloats.{read_float_array, read_packed}
use halospawns_infra.Delta.Packed.{empty, pack_loop, write_packed}
use halospawns_infra.Delta.Packed.Writing.{side_by_side, pack_loop-side_by_side}
use halospawns_infra.Delta.Chunk.{write_ticks}
use halospawns_infra.Delta.Chunk.Scalars.{AllScalar, decode_chunk-encode_chunk}
use halospawns_infra.Delta.Values.{Reads-value}
use halospawns_infra.Delta.Wire.{Reads-varuint, Reads-string}
use halospawns_infra.Delta.Difference.Laws.{patched-difference}
use halospawns_infra.Delta.XorTrip.{Reads-number_xor}
use halospawns_infra.Delta.NumberTrip.{Reads-number_delta}
use halospawns_infra.Delta.ScalarTrip.{IsScalar, Reads-scalar_delta}
use halospawns_infra.Delta.FloatTrip.{number_items, Lead, Reads-packed}
use halospawns_infra.Delta.FloatModes.{patched-float_residual, max_width-le}
use halospawns_infra.Delta.FloatDelta.{Settled, Reads-float_delta, history_lengths_differ}
use halospawns_infra.Delta.Examples.Toy.{toy, toy-Lawful}

abbrev any_text : List ℕ → Bool
any_text s = true

abbrev first_value : Value
first_value = object (
    field (b'a' ∷ []) (array (cons (number 5) (cons (bool true) nil))) (field (b'b' ∷ []) null end))

abbrev later_values : List Value
later_values = number 5 ∷ number 9 ∷ string (b'a' ∷ []) ∷ []

abbrev chunk_bytes : List ℕ
chunk_bytes =
    72 ∷ 83 ∷ 82 ∷ 68 ∷ 1 ∷ 7 ∷ 4 ∷ 8 ∷ 2 ∷ 3 ∷ 97 ∷ 7 ∷ 2 ∷ 3 ∷ 0 ∷ 5 ∷ 2 ∷ 3 ∷ 98 ∷ 0 ∷ 1 ∷ 3 ∷ 0
    ∷ 5 ∷ 6 ∷ 8 ∷ 1 ∷ 6 ∷ 0 ∷ []

chunk_written : encode_chunk toy (first_value ∷ later_values) 7 ≡ ok chunk_bytes
unfolding encode_chunk is_finite Writer.varuint Writer.string lookup text_eq write_value
    write_number length_fields length_items fields_of items_of number_of is_safe_integer
    negative_zero write_ticks write_delta write_replace write_number_or_replace delta_same same
    is_null is_bool is_text write_number_delta integers_apart signed_difference ◌-ℤ◌
chunk_written = refl

first-IsJson : IsJson any_text first_value
unfolding IsJson has_key text_eq is_finite
first-IsJson = (refl, refl, ((omega arith, refl), (tt, tt)), (refl, refl, tt, tt))

first_deep : depth first_value ≤ 32
unfolding depth
first_deep = omega arith

later_scalar : AllScalar any_text later_values
unfolding AllScalar IsScalar IsJson is_finite
later_scalar = ((tt, (omega arith, refl)), ((tt, (omega arith, refl)), ((tt, refl), tt)))

decode_chunk-encode_chunk_example :
    decode_chunk toy any_text chunk_bytes ≡ ok (7, first_value ∷ later_values)
decode_chunk-encode_chunk_example =
    decode_chunk-encode_chunk toy toy-Lawful any_text 7 first_value later_values chunk_bytes
      first-IsJson first_deep later_scalar (omega arith) chunk_written

Reads-value_example :
    Reads (write_value toy first_value) (read_value toy any_text 32) (λ a. a ≡ first_value)
Reads-value_example = Reads-value toy toy-Lawful any_text 32 first_value first-IsJson first_deep

-- A few f32 numbers.
abbrev f1 : ℕ
f1 = 2 ^ 60 + 1

abbrev f2 : ℕ
f2 = 2 ^ 60 + 5

abbrev f3 : ℕ
f3 = 2 ^ 60 + 9

f3_finite : is_finite f3 ≡ true
unfolding is_finite
f3_finite = refl

Reads-number_delta_example :
    Reads
      (write_number_delta toy f2 f3 (some f1))
      (read_patched toy any_text 32 (some (number f2)) (some (number f1)))
      (λ a. a ≡ number f3)
unfolding number_of
Reads-number_delta_example =
    Reads-number_delta toy toy-Lawful any_text 31 f2 f3 (some (number f1)) (omega arith)
      (omega arith) f3_finite

Reads-number_xor_example :
    Reads (write_number_xor f2 f3) (read_number_xor (some (number f2))) (λ a. a ≡ number f3)
Reads-number_xor_example = Reads-number_xor f2 f3 (omega arith) (omega arith) f3_finite

five-IsJson : IsJson any_text (number 5)
unfolding IsJson is_finite
five-IsJson = (omega arith, refl)

five-IsScalar : IsScalar (number 5)
unfolding IsScalar
five-IsScalar = tt

no_number : (p : ℕ) → ◌≡◌ {A = Option Value} (some (array nil)) (some (number p)) → IsF64 p
no_number p e = cc

Reads-scalar_delta_example :
    Reads
      (write_delta toy (some (array nil)) (number 5) none)
      (read_patched toy any_text 32 (some (array nil)) none)
      (λ a. a ≡ number 5)
Reads-scalar_delta_example =
    Reads-scalar_delta toy toy-Lawful any_text 31 (some (array nil)) none (number 5) five-IsScalar
      five-IsJson no_number

abbrev two_before : Items
two_before = cons (number f1) (cons (number f2) nil)

abbrev two_next : Items
two_next = cons (number f2) (cons (number f3) nil)

two_json : AllJson any_text two_next
unfolding IsJson is_finite
two_json = ((omega arith, refl), ((omega arith, refl), tt))

two-Settled : Settled toy (length_items two_before) (and_then (some (array two_before)) items_of)
unfolding items_of exact_numbers exact_number number_of exact_f32 length_items
two-Settled = (refl, (f1 ∷ f2 ∷ [], refl))

two_arrays : float_arrays toy two_before two_next ≡ some (f1 ∷ f2 ∷ [], f2 ∷ f3 ∷ [])
unfolding float_arrays exact_numbers exact_number number_of exact_f32 length_items
two_arrays = refl

Reads-float_delta_example :
    Reads
      (write_float_array toy
        (float_history toy two_before (some (array two_before)))
        (f1 ∷ f2 ∷ [])
        (f2 ∷ f3 ∷ []))
      (read_patched toy any_text 32 (some (array two_before)) (some (array two_before)))
      (λ v. v ≡ array two_next)
Reads-float_delta_example =
    Reads-float_delta toy toy-Lawful any_text 31 two_before two_next (some (array two_before))
      (f1 ∷ f2 ∷ []) (f2 ∷ f3 ∷ []) two_json two-Settled two_arrays

two_numbers : exact_numbers toy two_before ≡ some (f1 ∷ f2 ∷ [])
unfolding exact_numbers exact_number number_of exact_f32
two_numbers = refl

history_lengths_differ_example :
    (float_history toy two_before (some (array (cons (number f1) nil))) ≡ none)
    × ((tag : ℕ) (r : BinaryReader)
        → read_float_array toy tag (some (array two_before)) (some (array (cons (number f1) nil))) r
          ≡ err malformed_history_length)
history_lengths_differ_example =
    history_lengths_differ toy toy-Lawful two_before (cons (number f1) nil) (f1 ∷ f2 ∷ [])
      two_numbers (unfold length_items in refl)

leads : Lead toy true (1 ∷ 2 ∷ []) (4 ∷ 1 ∷ []) (f2 ∷ (2 ^ 60 + 3) ∷ [])
unfolding Lead patched_float32_bits is_finite
leads = (refl, refl, refl, (refl, refl, refl, tt))

Reads-packed_example :
    Reads
      (write_packed 3 (4 ∷ 1 ∷ []))
      (read_packed toy 3 empty (1 ∷ 2 ∷ []) true)
      (λ vs. vs ≡ number_items (f2 ∷ (2 ^ 60 + 3) ∷ []))
Reads-packed_example =
    Reads-packed toy 3 true (1 ∷ 2 ∷ []) (4 ∷ 1 ∷ []) (f2 ∷ (2 ^ 60 + 3) ∷ []) (omega arith)
      (omega arith, (omega arith, tt)) leads

pack_loop-side_by_side_example :
    pack_loop 3 empty (5 ∷ 2 ∷ []) ≡ to_le 1 (side_by_side 3 (5 ∷ 2 ∷ []))
pack_loop-side_by_side_example =
    pack_loop-side_by_side 3 (5 ∷ 2 ∷ []) (omega arith) (omega arith, (omega arith, tt))

patched-float_residual_example :
    patched_float32_bits (float_base toy 2 f1 f2) (float_residual toy 2 f1 f2 f3) (false) ≡ ok 9
patched-float_residual_example = patched-float_residual toy toy-Lawful 2 f1 f2 f3

max_width-le_example : max_width (residuals toy 2 (f1 ∷ []) (f2 ∷ []) (f3 ∷ [])) ≤ 32
max_width-le_example = max_width-le toy toy-Lawful 2 (f1 ∷ []) (f2 ∷ []) (f3 ∷ [])

patched-difference_example :
    patched_float32_bits 1 (signed_difference (signed_uint32_difference 1 4294967295)) false
    ≡ ok 4294967295
patched-difference_example = patched-difference 1 4294967295 (omega arith) (omega arith)

Reads-varuint_example : Reads (Writer.varuint 300) Reader.varuint (λ a. a ≡ 300)
Reads-varuint_example = Reads-varuint 300

Reads-string_example :
    Reads (Writer.string (b'a' ∷ [])) (Reader.string any_text) (λ a. a ≡ b'a' ∷ [])
Reads-string_example = Reads-string any_text (b'a' ∷ []) refl

short_texts : ShortTexts (λ s. length s) (array (cons (string (104 ∷ [])) nil))
unfolding ShortTexts
short_texts = (omega arith, tt)

-- `project_tick` starts at 3.
validate_json_safety-accepts_example :
    (validate_json_safety (λ s. length s) (array (cons (string (104 ∷ [])) nil)) 3 ≡ ok tt
      → (3 + depth (array (cons (string (104 ∷ [])) nil)) ≤ 33)
        × ShortTexts (λ s. length s) (array (cons (string (104 ∷ [])) nil)))
    × (3 + depth (array (cons (string (104 ∷ [])) nil)) ≤ 33
        → ShortTexts (λ s. length s) (array (cons (string (104 ∷ [])) nil))
        → validate_json_safety (λ s. length s) (array (cons (string (104 ∷ [])) nil)) 3 ≡ ok tt)
validate_json_safety-accepts_example =
    validate_json_safety-accepts (λ s. length s) (array (cons (string (104 ∷ [])) nil)) 3

-- The value of the repository's own test: null in as many arrays as `levels`.
unfoldable nested : ℕ → Value
nested zero = null
nested (suc levels) = array (cons (nested levels) nil)

nested_rejected : validate_json_safety (λ s. length s) (nested 31) 3 ≡ err source_depth
unfolding validate_json_safety validate_items nested
nested_rejected = refl

nested_accepted : validate_json_safety (λ s. length s) (nested 29) 3 ≡ ok tt
unfolding validate_json_safety validate_items nested
nested_accepted = refl
