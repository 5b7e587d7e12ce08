-- ===== src/Delta/NumberTrip.antt =====
-- A number that `write_number_delta` wrote is read back.
use halospawns_infra.Prelude.{
  ℕ, suc, ◌^◌, ◌<◌, ◌≡◌, refl, ap, Bool, true, ◌&&◌, Option, none, some, inl, inr, List, arith, ltb,
  Bool-cases,
}
use halospawns_infra.Delta.Codes.{delta_integer_difference, delta_number_xor}
use halospawns_infra.Delta.Writer
use halospawns_infra.Delta.Writer.{Write}
use halospawns_infra.Delta.Sync.{Reads, Reads-bind}
use halospawns_infra.Delta.Floats.{Floats, Lawful, IsF64, is_finite, exact_f32}
use halospawns_infra.Delta.Value.{
  Value, null, bool, number, string, array, object, number_of, and_then,
}
use halospawns_infra.Delta.Read.{read_value}
use halospawns_infra.Delta.ReadDelta.{patch_tagged, read_patched}
use halospawns_infra.Delta.Values.{Reads-byte}
use halospawns_infra.Delta.Difference.{varuint_length}
use halospawns_infra.Delta.Numbers.{
  integers_apart, xor_choice, difference_choice, bit_choice, value_choice, float32_choice,
  exact_history, write_choice, write_number_delta, Choice, shorter, predict_bits,
  predict_value_bits,
}
use halospawns_infra.Delta.PatchNumber.{
  read_float32_delta, float32_bits, read_prediction, filtered, base_number,
}
use halospawns_infra.Delta.XorTrip.{Reads-number_xor}
use halospawns_infra.Delta.DifferenceTrip.{Reads-difference, Reads-exclusive, Reads-integers}

module _ (F : Floats) (L : Lawful F) where
  predict_bits-lt : (b p : ℕ) → predict_bits F b p < 2 ^ 32
  unfolding predict_bits
  predict_bits-lt b p = omega arith

  predict_value_bits-lt : (b p : ℕ) → predict_value_bits F b p < 2 ^ 32
  unfolding predict_value_bits
  predict_value_bits-lt b p = L.narrow_lt _

  module _ (is_utf8 : List ℕ → Bool) (levels p n : ℕ) (before : Option Value)
      (exact_p : exact_f32 F p ≡ true) (exact_n : exact_f32 F n ≡ true)
      (fin : is_finite n ≡ true) where
    -- A choice that the reader turns into n.
    abbrev Good : Choice → Type 0
    Good c =
        Reads (write_choice F c) (read_patched F is_utf8 (suc levels) (some (number p)) before)
          (λ a. a ≡ number n)

    Good-tagged :
        (tag residual : ℕ)
        → Reads
            (Writer.varuint residual)
            (patch_tagged F is_utf8
              (read_patched F is_utf8 levels)
              (read_value F is_utf8 (suc levels))
              (some (number p))
              before
              tag)
            (λ a. a ≡ number n)
        → Good (record { tag = tag; residual = residual })
    unfolding write_choice read_patched
    Good-tagged tag residual h = Reads-bind _ _ _ _ (Reads-byte tag) λ t e. rw e h

    Good-shorter : (a b : Choice) → Good a → Good b → Good (shorter a b)
    unfolding shorter
    Good-shorter a b ga gb =
        elim (Bool-cases (ltb (varuint_length b.residual) (varuint_length a.residual))) [
          | inl h ↦ rw h gb
          | inr h ↦ rw h ga
        ]

    Good-xor : Good (xor_choice F p n)
    unfolding xor_choice
    Good-xor = Good-tagged _ _ (
        unfold patch_tagged read_float32_delta float32_bits base_number number_of filtered in
        rw exact_p (Reads-exclusive F L (F.narrow p) n (L.narrow_lt p) exact_n fin))

    Good-difference : Good (difference_choice F p n)
    unfolding difference_choice
    Good-difference = Good-tagged _ _ (
        unfold patch_tagged read_float32_delta float32_bits base_number number_of filtered in
        rw exact_p (Reads-difference F L (F.narrow p) n (L.narrow_lt p) exact_n fin))

    -- The predictions look further back.
    module _ (b : ℕ) (exact_b : exact_f32 F b ≡ true) (before_is : before ≡ some (number b)) where
      Good-bit : Good (bit_choice F b p n)
      unfolding bit_choice
      Good-bit = Good-tagged _ _ (
          unfold patch_tagged read_prediction base_number number_of filtered in
          rw (before_is, exact_p, exact_b)
            (Reads-difference F L (predict_bits F b p) n (predict_bits-lt b p) exact_n fin))

      Good-value : Good (value_choice F b p n)
      unfolding value_choice
      Good-value = Good-tagged _ _ (
          unfold patch_tagged read_prediction base_number number_of filtered in
          rw (before_is, exact_p, exact_b)
            (Reads-difference F L (predict_value_bits F b p) n (predict_value_bits-lt b p) exact_n
              fin))

    Good-float32 :
        (h : Option ℕ)
        → ((b : ℕ) → h ≡ some b → (exact_f32 F b ≡ true) × (before ≡ some (number b)))
        → Good (float32_choice F p n h)
    unfolding float32_choice
    Good-float32 none known = Good-shorter _ _ Good-xor Good-difference
    Good-float32 (some b) known =
        let (exact_b, e) = known b refl in
        Good-shorter _ _
          (Good-shorter _ _ (Good-shorter _ _ Good-xor Good-difference) (Good-bit b exact_b e))
          (Good-value b exact_b e)

number_of-some : (v : Value) (b : ℕ) → number_of v ≡ some b → v ≡ number b
unfolding number_of
number_of-some (number a) b e = ground arith
number_of-some null b e = cc
number_of-some (bool c) b e = cc
number_of-some (string s) b e = cc
number_of-some (array vs) b e = cc
number_of-some (object fs) b e = cc

pub history_number :
    (before : Option Value) (b : ℕ) → and_then before number_of ≡ some b → before ≡ some (number b)
history_number none b e = cc
history_number (some v) b e = ap some (number_of-some v b e)

exact_history-some :
    (F : Floats) (h : Option ℕ) (b : ℕ)
    → exact_history F h ≡ some b
    → (exact_f32 F b ≡ true) × (h ≡ some b)
unfolding exact_history
exact_history-some F none b e = cc
exact_history-some F (some a) b e = ground arith

module _ (F : Floats) (L : Lawful F) (is_utf8 : List ℕ → Bool) where
  -- For any two numbers of 64 bits, the second finite, and any value before them: whichever form
  -- `write_number_delta` chooses, whenever it succeeds, `read_patched_value` takes exactly its
  -- bytes and gives the second number.
  pub Reads-number_delta :
      (levels p n : ℕ) (before : Option Value)
      → IsF64 p
      → IsF64 n
      → is_finite n ≡ true
      → Reads
          (write_number_delta F p n (and_then before number_of))
          (read_patched F is_utf8 (suc levels) (some (number p)) before)
          (λ a. a ≡ number n)
  unfolding write_number_delta read_patched
  Reads-number_delta levels p n before hp hn fin = elim (Bool-cases (integers_apart F p n)) [
    | inl apart ↦ rw apart (
        Reads-bind _ _ _ _ (Reads-byte delta_integer_difference)
          λ t e. rw e (unfold patch_tagged in Reads-integers F L p n hp hn fin apart))
    | inr other ↦ elim (Bool-cases (exact_f32 F p && exact_f32 F n)) [
      | inl exact ↦
          rw (other, exact)
            (Good-float32 F L is_utf8 levels p n before (ground arith) (ground arith) fin
              (exact_history F (and_then before number_of))
              λ b e.
                let (exact_b, back) = exact_history-some F (and_then before number_of) b e in
                (exact_b, history_number before b back))
      | inr rest ↦
          rw (other, rest)
            (Reads-bind _ _ _ _ (Reads-byte delta_number_xor)
              λ t e. rw e (unfold patch_tagged in Reads-number_xor p n hp hn fin))
    ]
  ]
