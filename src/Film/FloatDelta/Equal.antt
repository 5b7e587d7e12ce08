-- ===== src/Film/FloatDelta/Equal.antt =====
-- The fast path of float_delta.rs writes what `write_delta` of viewer.rs writes.
use halospawns_infra.Prelude.{
  ℕ, ◌≡◌, refl, sym, ap, ◌∙◌, Bool, true, false, ◌&&◌, not, Option, none, some, List, [], ◌∷◌, ◌==◌,
  leb, ltb, arith, Bool-cases, Option-cases, inl, inr, if◌then◌else◌,
}
use halospawns_infra.Delta.Codes.{delta_same}
use halospawns_infra.Delta.Floats.{Floats, Lawful}
use halospawns_infra.Delta.Value.{
  Value, null, bool, number, string, array, object, Items, number_of, items_of, and_then,
  length_items,
}
use halospawns_infra.Delta.Same.{delta_same as is_same, same, items_same}
use halospawns_infra.Delta.Writer.{Write, byte}
use halospawns_infra.Delta.FloatArray.{exact_numbers, write_float_array}
use halospawns_infra.Delta.FloatTrip.{number_items}
use halospawns_infra.Delta.FloatItems.{exact_numbers-FloatItems}
use halospawns_infra.Delta.WriteDelta.{same_length, float_history, float_arrays, write_delta}
use halospawns_infra.Film.FloatDelta.{
  usable_history, write_changed, write_collected, write_items, write,
}
use halospawns_infra.Film.FloatDelta.Collects.{all_same, both_collected, collect_lem}
use halospawns_infra.Film.FloatDelta.Choice.{of_numbers, write_changed_lem}

abbrev pub is_some : {A : Type 0} → Option A → Bool
is_some none = false
is_some (some a) = true

module _ (F : Floats) (L : Lawful F) where
  items_same-numbers : (a b : List ℕ) → items_same (number_items a) (number_items b) ≡ all_same a b
  unfolding items_same all_same number_items same number_of
  items_same-numbers [] b = refl
  items_same-numbers (x ∷ a) [] = refl
  items_same-numbers (x ∷ a) (y ∷ b) = rw (items_same-numbers a b) refl

  usable_history_lem :
      (ps : Items) (before : Option Value)
      → usable_history F (length_items ps) before ≡ float_history F ps before
  unfolding usable_history float_history same_length
  usable_history_lem ps before = elim (Option-cases (and_then before items_of)) [
    | inl e ↦ rw (usable_history, e) refl
    | inr (hs, e) ↦ rw (usable_history, e) (as_long hs (exact_numbers F hs) refl)
  ]
    where
      as_long :
          (hs : Items) (o : Option (List ℕ))
          → exact_numbers F hs ≡ o
          → (if length_items hs == length_items ps then o else none)
            ≡ same_length (length_items ps) o
      as_long hs none e = elim (Bool-cases (length_items hs == length_items ps)) [
        | inl t ↦ rw t refl
        | inr t ↦ rw t refl
      ]
      as_long hs (some ns) e = let f = exact_numbers-FloatItems F L hs ns e in rw f.size refl

  -- The arrays that the fast path takes.
  unfoldable pub fits : Option Value → Value → Bool
  fits previous next = elim (and_then previous items_of) [
    | none ↦ false
    | some ps ↦ elim (items_of next) [
      | none ↦ false
      | some vs ↦ leb (length_items vs) 64 && is_some (float_arrays F ps vs)
    ]
  ]

  module _ (ps vs : Items) (before : Option Value) where
    abbrev reference : Option Write
    reference =
        if leb (length_items vs) 64 && is_some (float_arrays F ps vs)
        then some (write_delta F (some (array ps)) (array vs) before)
        else none

    write_numbers :
        (a b : List ℕ)
        → exact_numbers F ps ≡ some a
        → exact_numbers F vs ≡ some b
        → length_items ps ≡ length_items vs
        → float_arrays F ps vs ≡ some (a, b)
        → (if all_same a b
            then byte delta_same
            else write_changed F
                (length_items vs)
                (usable_history F (length_items vs) before)
                (of_numbers F L a b))
          ≡ write_delta F (some (array ps)) (array vs) before
    unfolding write_delta items_of is_same same
    write_numbers a b ea eb long e =
        let fa = exact_numbers-FloatItems F L ps a ea in
        let fb = exact_numbers-FloatItems F L vs b eb in
        let history =
          ap (λ (n : ℕ). usable_history F n before) (sym (long ∙ fb.size))
          ∙ usable_history_lem ps before in
        let changed : write_changed F (length_items vs) (usable_history F (length_items vs) before)
              (of_numbers F L a b)
            ≡ write_float_array F (float_history F ps before) a b =
          rw (fb.size, history)
            (write_changed_lem F L a b (omega (arith, fa.size, fb.size, long))
              (float_history F ps before)) in
        let same_numbers : items_same ps vs ≡ all_same a b =
          rw (fa.items, fb.items) (items_same-numbers a b) in
        let as_long : (length_items ps == length_items vs) ≡ true = ground (arith, long) in
        ap (λ (w : Write). if all_same a b then byte delta_same else w) changed
        ∙ rw (write_delta, is_same, as_long, same_numbers, e) refl

    float_arrays-none :
        ((length_items ps == length_items vs) && not (length_items vs == 0)) ≡ false
        → is_some (float_arrays F ps vs) ≡ false
    unfolding float_arrays
    float_arrays-none h = rw h refl

    float_arrays-both :
        ((length_items ps == length_items vs) && not (length_items vs == 0)) ≡ true
        → (x y : Option (List ℕ)) → exact_numbers F ps ≡ x
        → exact_numbers F vs ≡ y
        → float_arrays F ps vs ≡ and_then x (λ a. and_then y (λ b. some (a, b)))
    unfolding float_arrays
    float_arrays-both h x y ex ey = rw (h, ex, ey) refl

    -- Arrays of one length, from 1 to 64.
    write_taken :
        leb (length_items vs) 64 ≡ true
        → ((length_items ps == length_items vs) && not (length_items vs == 0)) ≡ true
        → length_items ps ≡ length_items vs
        → (x y : Option (List ℕ)) → exact_numbers F ps ≡ x
        → exact_numbers F vs ≡ y
        → write_collected F (length_items vs) before (both_collected F L x y) ≡ reference
    unfolding both_collected
    write_taken few both long none y ex ey = rw (few, float_arrays-both both none y ex ey) refl
    write_taken few both long (some a) none ex ey =
        rw (few, float_arrays-both both (some a) none ex ey) refl
    write_taken few both long (some a) (some b) ex ey =
        let e = float_arrays-both both (some a) (some b) ex ey in
        rw (few, e) (ap (λ (w : Write). some w) (write_numbers a b ex ey long e))

    write_items_lem : write_items F ps vs before ≡ reference
    write_items_lem = elim (Bool-cases (length_items vs == 0)) [
      | inl z ↦
          let few : leb (length_items vs) 64 ≡ true = ground arith in
          rw (z, few, float_arrays-none (ground arith)) refl
      | inr z ↦ elim (Bool-cases (ltb 64 (length_items vs))) [
        | inl w ↦
            (let many : leb (length_items vs) 64 ≡ false = ground arith in rw (z, w, many) refl)
        | inr w ↦
            let few : leb (length_items vs) 64 ≡ true = ground arith in
            elim (Bool-cases (length_items ps == length_items vs)) [
              | inl t ↦
                  let long : length_items ps ≡ length_items vs = ground arith in
                  rw (z, w, t, collect_lem F L ps vs long)
                    (write_taken few (rw (t, z) refl) long (exact_numbers F ps) (exact_numbers F vs)
                      refl refl)
              | inr t ↦ rw (z, w, t, few, float_arrays-none (rw t refl)) refl
            ]
      ]
    ]

  -- For every value, the one before and the one before that, `write` of float_delta.rs, which
  -- measures all modes in one pass, does what `write_delta` does if both are arrays of as many f32
  -- numbers, from 1 to 64, and otherwise writes nothing.
  pub write-write_delta :
      (previous : Option Value) (next : Value) (before : Option Value)
      → write F previous next before
        ≡ (if fits previous next then some (write_delta F previous next before) else none)
  unfolding write fits items_of
  write-write_delta none next before = refl
  write-write_delta (some null) next before = refl
  write-write_delta (some (bool b)) next before = refl
  write-write_delta (some (number v)) next before = refl
  write-write_delta (some (string s)) next before = refl
  write-write_delta (some (object fs)) next before = refl
  write-write_delta (some (array ps)) null before = refl
  write-write_delta (some (array ps)) (bool b) before = refl
  write-write_delta (some (array ps)) (number v) before = refl
  write-write_delta (some (array ps)) (string s) before = refl
  write-write_delta (some (array ps)) (object fs) before = refl
  write-write_delta (some (array ps)) (array vs) before = write_items_lem ps vs before
