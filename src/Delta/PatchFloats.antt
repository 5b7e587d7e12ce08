-- ===== src/Delta/PatchFloats.antt =====
-- The arm of `read_patched_value` of viewer.rs that reads arrays of f32 values.
use halospawns_infra.Prelude.{
  ℕ, Bool, true, false, Option, none, some, List, [], ◌∷◌, ◌||◌, ltb, leb, ◌==◌, if◌then◌else◌,
}
use halospawns_infra.Prelude.Results.{Result, ok, err, ok_or}
use halospawns_infra.Delta.Error.{
  Error, malformed_float32_array_base, malformed_float32_base, malformed_history_length,
  missing_dense_history, malformed_bitpacked, missing_bitpacked_history,
}
use halospawns_infra.Delta.Codes.{
  delta_dense_float32_difference_array, delta_dense_float32_xor_array,
  delta_dense_float32_bit_prediction_array, delta_dense_float32_bitpacked_array,
  float32_mode_bit_prediction, float32_mode_value_prediction, float32_mode_xor,
}
use halospawns_infra.Delta.Floats.{Floats}
use halospawns_infra.Delta.Value.{Value, array, Items, nil, cons, items_of, and_then, length_items}
use halospawns_infra.Delta.Reader.{M, ◌>>=◌, pure, raise, lift_result, byte}
use halospawns_infra.Delta.Numbers.{predict_bits, predict_value_bits}
use halospawns_infra.Delta.FloatArray.{exact_number}
use halospawns_infra.Delta.PatchNumber.{read_patched_bits, float32_value}
use halospawns_infra.Delta.Packed.{Accumulator, empty, fill, residual, shifted}
use halospawns_infra.Delta.Difference.{patched_float32_bits}

module _ (F : Floats) where
  abbrev narrowed : Option ℕ → Result Error (List ℕ) → Result Error (List ℕ)
  narrowed none rest = err malformed_float32_base
  narrowed (some n) (ok bits) = ok (F.narrow n ∷ bits)
  narrowed (some n) (err e) = err e

  -- fn float32_array_bits; short arrays use a scratch buffer, with the same result.
  unfoldable pub float32_array_bits : Items → Result Error (List ℕ)
  float32_array_bits nil = ok []
  float32_array_bits (cons v vs) = narrowed (exact_number F v) (float32_array_bits vs)

  abbrev pub with_some : Result Error (List ℕ) → Result Error (Option (List ℕ))
  with_some (ok bits) = ok (some bits)
  with_some (err e) = err e

  -- `before_previous_bits`
  unfoldable pub history_bits : Items → Option Items → Result Error (Option (List ℕ))
  unfolding float32_array_bits
  history_bits previous none = ok none
  history_bits previous (some before) =
      if length_items before == length_items previous
      then with_some (float32_array_bits before)
      else err malformed_history_length

  -- What each residual of a mode counts from.
  unfoldable pub patch_base : ℕ → ℕ → ℕ → ℕ
  patch_base mode history previous =
      if mode == float32_mode_bit_prediction
      then predict_bits F (F.widen history) (F.widen previous)
      else if mode == float32_mode_value_prediction
      then predict_value_bits F (F.widen history) (F.widen previous)
      else previous

  abbrev pub head_bits : List ℕ → ℕ
  head_bits [] = 0
  head_bits (h ∷ hs) = h

  abbrev pub tail_bits : List ℕ → List ℕ
  tail_bits [] = []
  tail_bits (h ∷ hs) = hs

  unfoldable pub patch_bases : ℕ → List ℕ → List ℕ → List ℕ
  unfolding patch_base
  patch_bases mode history [] = []
  patch_bases mode history (p ∷ ps) =
      patch_base mode (head_bits history) p ∷ patch_bases mode (tail_bits history) ps

  -- `for base in …: output.push(float32_value(patched_float32_bits(base, varuint, xor)))`
  unfoldable pub read_residuals : List ℕ → Bool → M Items
  read_residuals [] is_xor = pure nil
  read_residuals (base ∷ bases) is_xor = do
    v ← read_patched_bits F base is_xor
    vs ← read_residuals bases is_xor
    pure (cons v vs)

  -- The loop over the packed residuals.
  unfoldable pub read_packed : ℕ → Accumulator → List ℕ → Bool → M Items
  read_packed width a [] is_xor = pure nil
  read_packed width a (base ∷ bases) is_xor = do
    filled ← fill width width a
    bits ← lift_result (patched_float32_bits base (residual width filled) is_xor)
    v ← float32_value F bits
    vs ← read_packed width (shifted width filled) bases is_xor
    pure (cons v vs)

  abbrev pub is_none : Option (List ℕ) → Bool
  is_none none = true
  is_none (some hs) = false

  abbrev pub or_empty : Option (List ℕ) → List ℕ
  or_empty none = []
  or_empty (some hs) = hs

  -- DELTA_DENSE_FLOAT32_BITPACKED_ARRAY
  unfoldable pub read_bitpacked : List ℕ → Option (List ℕ) → M Items
  read_bitpacked previous history = do
    mode ← byte
    width ← byte
    if ltb float32_mode_value_prediction mode || ltb 32 width
        then raise malformed_bitpacked
        else if (if leb float32_mode_bit_prediction mode then is_none history else false)
        then raise missing_bitpacked_history
        else read_packed width empty (patch_bases mode (or_empty history) previous)
            (mode == float32_mode_xor)

  -- The arms after the two tests on `tag`.
  unfoldable pub read_float_kind : ℕ → List ℕ → Option (List ℕ) → M Items
  unfolding read_bitpacked
  read_float_kind tag previous history =
      if tag == delta_dense_float32_difference_array
      then read_residuals (patch_bases 1 [] previous) false
      else if tag == delta_dense_float32_xor_array
      then read_residuals (patch_bases 0 [] previous) true
      else if tag == delta_dense_float32_bitpacked_array
      then read_bitpacked previous history
      else elim history [
        | none ↦ raise missing_dense_history
        | some hs ↦
            read_residuals
              (patch_bases (if tag == delta_dense_float32_bit_prediction_array then 2 else 3) hs
                previous)
              false
      ]

  -- The arm of the five dense float tags.
  unfoldable pub read_float_array : ℕ → Option Value → Option Value → M Value
  read_float_array tag previous before = do
    ps ← lift_result (ok_or (and_then previous items_of) malformed_float32_array_base)
    bits ← lift_result (float32_array_bits ps)
    history ← lift_result (history_bits ps (and_then before items_of))
    vs ← read_float_kind tag bits history
    pure (array vs)
