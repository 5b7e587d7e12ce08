-- ===== src/Film/FloatDelta.antt =====
-- lambda/h1_film/encoder/src/float_delta.rs: arrays of at most 64 f32 numbers, with all modes measured
-- in one pass. The arrays of 64 places that the code fills up to `count` are lists here.
pub mod Measures
pub mod Collects
pub mod Choice
pub mod Equal
use halospawns_infra.Prelude.{
  ℕ, ◌+◌, ◌-◌, ◌*◌, ◌/◌, ◌%◌, ◌^◌, Bool, true, false, ◌&&◌, ◌||◌, not, Option, none, some, List, [],
  ◌∷◌, ◌++◌, bit_or, bit_xor, ltb, leb, ◌==◌, if◌then◌else◌,
}
use halospawns_infra.Delta.Codes.{
  delta_same, delta_dense_float32_xor_array, delta_dense_float32_difference_array,
  delta_dense_float32_bit_prediction_array, delta_dense_float32_value_prediction_array,
  delta_dense_float32_bitpacked_array,
}
use halospawns_infra.Delta.Floats.{Floats, exact_f32}
use halospawns_infra.Delta.Value.{
  Value, array, Items, nil, cons, number_of, items_of, and_then, length_items,
}
use halospawns_infra.Delta.Writer.{Write, ◌>>◌, byte, varuint}
use halospawns_infra.Delta.Difference.{bit_length, varuint_length}
use halospawns_infra.Delta.Numbers.{predict_value_bits}
use halospawns_infra.Delta.FloatArray.{
  FloatCandidate, first, others, exact_numbers, write_residuals,
}
use halospawns_infra.Delta.Packed.{write_packed}

-- `delta >> 31` of an i32, as u32
unfoldable pub sign_mask : ℕ → ℕ
sign_mask delta = if ltb delta (2 ^ 31) then 0 else 2 ^ 32 - 1

-- fn difference
unfoldable pub difference : ℕ → ℕ → ℕ
unfolding sign_mask
difference a b =
    let delta = (b + 2 ^ 32 - a) % 2 ^ 32 in bit_xor (delta * 2 % 2 ^ 32) (sign_mask delta)

-- What the first loop collects: `numbers`, `old_bits`, `new_bits` and `same`.
pub record Collected : Type 0 where
  pub numbers : List ℕ
  pub old_bits : List ℕ
  pub new_bits : List ℕ
  pub same : Bool

-- What the second loop adds up for a mode: `residuals[mode]`, `sizes[mode]` and `unions[mode]`.
pub record Measured : Type 0 where
  pub residuals : List ℕ
  pub size : ℕ
  pub union : ℕ

abbrev pub unmeasured : Measured
unmeasured = record { residuals = []; size = 0; union = 0 }

unfoldable pub add_residual : ℕ → Measured → Measured
add_residual r m = record {
  residuals = m.residuals ++ (r ∷ []);
  size = m.size + varuint_length r;
  union = bit_or m.union r;
}

pub record Modes : Type 0 where
  pub by_xor : Measured
  pub by_difference : Measured
  pub by_bits : Measured
  pub by_value : Measured

abbrev pub no_modes : Modes
no_modes = record {
  by_xor = unmeasured;
  by_difference = unmeasured;
  by_bits = unmeasured;
  by_value = unmeasured;
}

-- `candidate(mode)`
unfoldable pub candidate : ℕ → ℕ → ℕ → Measured → FloatCandidate
candidate count kind mode m =
    let packed = 2 + (bit_length m.union * count + 7) / 8 in
    if leb (packed * 4) (m.size * 3)
    then record {
      kind = delta_dense_float32_bitpacked_array;
      mode = mode;
      bit_width = bit_length m.union;
      bytes = packed;
    }
    else record { kind = kind; mode = mode; bit_width = bit_length m.union; bytes = m.size }

-- `if next.bytes < selected.bytes { selected = next; }`
unfoldable pub lesser : FloatCandidate → FloatCandidate → FloatCandidate
lesser selected next = if ltb next.bytes selected.bytes then next else selected

-- The candidates of the modes in their order.
unfoldable pub choose : ℕ → Bool → Modes → FloatCandidate
unfolding candidate lesser
choose count use_history m =
    let two =
      (lesser (candidate count delta_dense_float32_xor_array 0 m.by_xor)
        (candidate count delta_dense_float32_difference_array 1 m.by_difference)) in
    if use_history
    then lesser (lesser two (candidate count delta_dense_float32_bit_prediction_array 2 m.by_bits))
        (candidate count delta_dense_float32_value_prediction_array 3 m.by_value)
    else two

-- `residuals[selected.mode]`
unfoldable pub residuals_of : ℕ → Modes → List ℕ
residuals_of mode m =
    if mode == 0
    then m.by_xor.residuals
    else if mode == 1
    then m.by_difference.residuals
    else if mode == 2
    then m.by_bits.residuals
    else m.by_value.residuals

unfoldable pub write_selected : FloatCandidate → List ℕ → Write
write_selected selected values =
    if selected.kind == delta_dense_float32_bitpacked_array
    then (do
      byte selected.kind
      byte selected.mode
      byte selected.bit_width
      write_packed selected.bit_width values)
    else (do byte selected.kind; write_residuals values)

module _ (F : Floats) where
  -- The numbers at an index, if both are f32 numbers.
  unfoldable pub exact_pair : Value → Value → Option (ℕ × ℕ)
  exact_pair p v = elim (number_of p) [
    | none ↦ none
    | some a ↦ elim (number_of v) [
      | none ↦ none
      | some b ↦ if not (exact_f32 F a) || not (exact_f32 F b) then none else some (a, b)
    ]
  ]

  unfoldable pub add_pair : Option (ℕ × ℕ) → Option Collected → Option Collected
  add_pair none rest = none
  add_pair (some (a, b)) none = none
  add_pair (some (a, b)) (some c) = some (record {
    numbers = a ∷ c.numbers;
    old_bits = F.narrow a ∷ c.old_bits;
    new_bits = F.narrow b ∷ c.new_bits;
    same = (F.narrow a == F.narrow b) && c.same;
  })

  -- The first loop; the arrays are of one length.
  unfoldable pub collect : Items → Items → Option Collected
  unfolding exact_pair add_pair
  collect nil vs = some (record { numbers = []; old_bits = []; new_bits = []; same = true })
  collect (cons p ps) nil =
      some (record { numbers = []; old_bits = []; new_bits = []; same = true })
  collect (cons p ps) (cons v vs) = add_pair (exact_pair p v) (collect ps vs)

  -- `use_history`, and the history if it is used
  unfoldable pub usable_history : ℕ → Option Value → Option (List ℕ)
  usable_history count before = elim (and_then before items_of) [
    | none ↦ none
    | some hs ↦ if length_items hs == count then exact_numbers F hs else none
  ]

  -- The body of the second loop at an index.
  unfoldable pub measure_at : Bool → ℕ → ℕ → ℕ → ℕ → Modes → Modes
  unfolding difference add_residual
  measure_at use_history h number old new m = record {
    by_xor = add_residual (bit_xor old new) m.by_xor;
    by_difference = add_residual (difference old new) m.by_difference;
    by_bits =
        if use_history
        then add_residual (difference ((old * 2 % 2 ^ 32 + 2 ^ 32 - F.narrow h) % 2 ^ 32) new)
            m.by_bits
        else m.by_bits;
    by_value =
        if use_history
        then add_residual (difference (predict_value_bits F h number) new) m.by_value
        else m.by_value;
  }

  -- The second loop over the lists, which are of one length.
  unfoldable pub measure : Bool → List ℕ → List ℕ → List ℕ → List ℕ → Modes → Modes
  unfolding measure_at
  measure use_history hs [] os ns m = m
  measure use_history hs (a ∷ qs) [] ns m = m
  measure use_history hs (a ∷ qs) (o ∷ os) [] m = m
  measure use_history hs (a ∷ qs) (o ∷ os) (n ∷ ns) m =
      measure use_history (others hs) qs os ns (measure_at use_history (first hs) a o n m)

  abbrev pub write_chosen : FloatCandidate → Modes → Write
  write_chosen selected m = write_selected selected (residuals_of selected.mode m)

  abbrev pub write_changed : ℕ → Option (List ℕ) → Collected → Write
  write_changed count none c =
      let m = measure false [] c.numbers c.old_bits c.new_bits no_modes in
      write_chosen (choose count false m) m
  write_changed count (some hs) c =
      let m = measure true hs c.numbers c.old_bits c.new_bits no_modes in
      write_chosen (choose count true m) m

  abbrev pub write_collected : ℕ → Option Value → Option Collected → Option Write
  write_collected count before none = none
  write_collected count before (some c) =
      some (if c.same then byte delta_same else write_changed count (usable_history count before) c)

  abbrev pub write_items : Items → Items → Option Value → Option Write
  write_items ps vs before =
      if (length_items vs == 0)
        || ltb 64 (length_items vs)
        || not (length_items ps == length_items vs)
      then none
      else write_collected (length_items vs) before (collect ps vs)

  -- fn write: none where it returns `false` and has written nothing
  unfoldable pub write : Option Value → Value → Option Value → Option Write
  write previous next before = elim (and_then previous items_of) [
    | none ↦ none
    | some ps ↦ elim (items_of next) [ none ↦ none | some vs ↦ write_items ps vs before ]
  ]
