-- ===== src/Delta/FloatArray.antt =====
-- Arrays of f32 values: `exact_float32_array`, `float_residual`, `float_candidate` and the choice
-- among the modes in `write_delta` of viewer.rs.
use halospawns_infra.Prelude.{
  ℕ, ◌+◌, ◌*◌, ◌/◌, Option, none, some, List, [], ◌∷◌, length, max, bit_xor, ltb, leb, ◌==◌,
  if◌then◌else◌,
}
use halospawns_infra.Delta.Codes.{
  delta_dense_float32_xor_array, delta_dense_float32_difference_array,
  delta_dense_float32_bit_prediction_array, delta_dense_float32_value_prediction_array,
  delta_dense_float32_bitpacked_array, float32_mode_xor, float32_mode_difference,
  float32_mode_bit_prediction, float32_mode_value_prediction,
}
use halospawns_infra.Delta.Floats.{Floats, exact_f32}
use halospawns_infra.Delta.Value.{Value, Items, nil, cons, number_of}
use halospawns_infra.Delta.Writer.{Write, ◌>>◌, done, byte, varuint}
use halospawns_infra.Delta.Difference.{
  bit_length, varuint_length, signed_uint32_difference, signed_difference,
}
use halospawns_infra.Delta.Numbers.{predict_bits, predict_value_bits}
use halospawns_infra.Delta.Packed.{write_packed}

pub record FloatCandidate : Type 0 where
  pub kind : ℕ
  pub mode : ℕ
  pub bit_width : ℕ
  pub bytes : ℕ

abbrev pub prepend : ℕ → Option (List ℕ) → Option (List ℕ)
prepend n none = none
prepend n (some ns) = some (n ∷ ns)

-- The first number of a history and the others. Without a history the code has no number, and does
-- not come to the modes that use one; the model has 0.
unfoldable pub first : List ℕ → ℕ
first [] = 0
first (h ∷ hs) = h

unfoldable pub others : List ℕ → List ℕ
others [] = []
others (h ∷ hs) = hs

unfoldable pub sum_lengths : List ℕ → ℕ
sum_lengths [] = 0
sum_lengths (r ∷ rs) = varuint_length r + sum_lengths rs

unfoldable pub max_width : List ℕ → ℕ
max_width [] = 0
max_width (r ∷ rs) = max (bit_length r) (max_width rs)

unfoldable pub write_residuals : List ℕ → Write
write_residuals [] = done
write_residuals (r ∷ rs) = do varuint r; write_residuals rs

-- The kind of a mode where the residuals are not packed.
unfoldable pub kind_of : ℕ → ℕ
kind_of mode =
    if mode == float32_mode_xor
    then delta_dense_float32_xor_array
    else if mode == float32_mode_difference
    then delta_dense_float32_difference_array
    else if mode == float32_mode_bit_prediction
    then delta_dense_float32_bit_prediction_array
    else delta_dense_float32_value_prediction_array

module _ (F : Floats) where
  -- `number(value).is_some_and(exact_f32)`, with the number
  unfoldable pub exact_number : Value → Option ℕ
  exact_number v = elim (number_of v) [
    | none ↦ none
    | some n ↦ if exact_f32 F n then some n else none
  ]

  -- fn exact_float32_array, with the numbers if it is one
  unfoldable pub exact_numbers : Items → Option (List ℕ)
  unfolding exact_number
  exact_numbers nil = some []
  exact_numbers (cons v vs) =
      let rest = exact_numbers vs in elim (exact_number v) [ none ↦ none | some n ↦ prepend n rest ]

  -- What a mode measures the next number from.
  unfoldable pub float_base : ℕ → ℕ → ℕ → ℕ
  float_base mode before previous =
      if mode == float32_mode_bit_prediction
      then predict_bits F before previous
      else if mode == float32_mode_value_prediction
      then predict_value_bits F before previous
      else F.narrow previous

  -- fn float_residual
  unfoldable pub float_residual : ℕ → ℕ → ℕ → ℕ → ℕ
  unfolding float_base
  float_residual mode before previous next =
      if mode == float32_mode_xor
      then bit_xor (F.narrow previous) (F.narrow next)
      else signed_difference
          (signed_uint32_difference (float_base mode before previous) (F.narrow next))

  unfoldable pub residuals : ℕ → List ℕ → List ℕ → List ℕ → List ℕ
  residuals mode history [] next = []
  residuals mode history (p ∷ ps) [] = []
  residuals mode history (p ∷ ps) (n ∷ ns) =
      float_residual mode (first history) p n ∷ residuals mode (others history) ps ns

  abbrev pub packed_size : List ℕ → ℕ
  packed_size rs = 2 + (max_width rs * length rs + 7) / 8

  -- fn float_candidate; `bitpacked as f64 <= varint as f64 * 0.75` is exact at the sizes of arrays.
  unfoldable pub float_candidate : ℕ → List ℕ → List ℕ → List ℕ → FloatCandidate
  unfolding kind_of
  float_candidate mode history previous next =
      let rs = residuals mode history previous next in
      if leb (packed_size rs * 4) (sum_lengths rs * 3)
      then record {
        kind = delta_dense_float32_bitpacked_array;
        mode = mode;
        bit_width = max_width rs;
        bytes = packed_size rs;
      }
      else record {
        kind = kind_of mode;
        mode = mode;
        bit_width = max_width rs;
        bytes = sum_lengths rs;
      }

  unfoldable pub smaller : FloatCandidate → FloatCandidate → FloatCandidate
  smaller selected c = if ltb c.bytes selected.bytes then c else selected

  -- The candidates in the order of their modes; the predictions only with a history.
  unfoldable pub select : Option (List ℕ) → List ℕ → List ℕ → FloatCandidate
  select none ps ns = smaller (float_candidate 0 [] ps ns) (float_candidate 1 [] ps ns)
  select (some hs) ps ns =
      smaller
        (smaller (smaller (float_candidate 0 [] ps ns) (float_candidate 1 hs ps ns))
          (float_candidate 2 hs ps ns))
        (float_candidate 3 hs ps ns)

  abbrev pub numbers_or_none : Option (List ℕ) → List ℕ
  numbers_or_none none = []
  numbers_or_none (some hs) = hs

  unfoldable pub write_candidate : FloatCandidate → List ℕ → Write
  write_candidate c rs =
      if c.kind == delta_dense_float32_bitpacked_array
      then (do byte c.kind; byte c.mode; byte c.bit_width; write_packed c.bit_width rs)
      else (do byte c.kind; write_residuals rs)

  -- The float branch of `write_delta`.
  unfoldable pub write_float_array : Option (List ℕ) → List ℕ → List ℕ → Write
  write_float_array history ps ns =
      let c = select history ps ns in
      write_candidate c (residuals c.mode (numbers_or_none history) ps ns)
