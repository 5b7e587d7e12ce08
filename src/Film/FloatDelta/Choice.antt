-- ===== src/Film/FloatDelta/Choice.antt =====
-- What float_delta.rs selects and writes for two arrays of f32 numbers is what viewer.rs does.
use halospawns_infra.Prelude.{
  ℕ, zero, suc, ◌*◌, ◌<◌, ◌≡◌, refl, ap, Bool, true, false, Option, none, some, List, [], ◌∷◌,
  length, leb, ltb, arith, Bool-cases, inl, inr, if◌then◌else◌,
}
use halospawns_infra.Delta.Floats.{Floats, Lawful}
use halospawns_infra.Delta.Difference.{bit_length}
use halospawns_infra.Delta.FloatArray.{
  FloatCandidate, kind_of, others, residuals, sum_lengths, packed_size, max_width, float_candidate,
  smaller, select, write_candidate, write_float_array,
}
use halospawns_infra.Delta.FloatModes.{narrows}
use halospawns_infra.Film.FloatDelta.{
  Collected, Measured, unmeasured, Modes, no_modes, candidate, lesser, choose, residuals_of,
  write_selected, measure, write_changed,
}
use halospawns_infra.Film.FloatDelta.Measures.{
  Grown, bit_length_loop-zero, Grown-first, Grown-second,
}
use halospawns_infra.Film.FloatDelta.Collects.{all_same}

module _ (F : Floats) (L : Lawful F) where
  length-residuals :
      (mode : ℕ) (hs a b : List ℕ)
      → length a ≡ length b
      → length (residuals F mode hs a b) ≡ length b
  unfolding residuals others
  length-residuals mode hs [] b e = e
  length-residuals mode hs (x ∷ a) [] e = absurd (omega arith)
  length-residuals mode hs (x ∷ a) (y ∷ b) e =
      ap (λ (n : ℕ). suc n) (length-residuals mode (others hs) a b (omega (arith, e)))

  -- A candidate of the fast path is the candidate of its mode.
  candidate_lem :
      (mode : ℕ) (hs a b : List ℕ) (m : Measured)
      → length a ≡ length b
      → Grown unmeasured m (residuals F mode hs a b)
      → candidate (length b) (kind_of mode) mode m ≡ float_candidate F mode hs a b
  unfolding candidate float_candidate bit_length
  candidate_lem mode hs a b m e g =
      let width : bit_length m.union ≡ max_width (residuals F mode hs a b) =
        omega (arith, g.width, bit_length_loop-zero 64) in
      let size : m.size ≡ sum_lengths (residuals F mode hs a b) = omega (arith, g.size) in
      rw (width, size, length-residuals mode hs a b e) refl

  smaller_either :
      (P : FloatCandidate → Type 0) (c d : FloatCandidate) → P c → P d → P (smaller F c d)
  unfolding smaller
  smaller_either P c d hc hd = elim (Bool-cases (ltb d.bytes c.bytes)) [
    | inl e ↦ rw e hd
    | inr e ↦ rw e hc
  ]

  abbrev Below : ℕ → FloatCandidate → Type 0
  Below n c = c.mode < n

  float_candidate-mode : (mode : ℕ) (hs a b : List ℕ) → (float_candidate F mode hs a b).mode ≡ mode
  unfolding float_candidate
  float_candidate-mode mode hs a b =
      either
        (leb (packed_size F (residuals F mode hs a b) * 4)
          (sum_lengths (residuals F mode hs a b) * 3))
        _ _ refl refl
    where
      either :
          (t : Bool) (c d : FloatCandidate)
          → c.mode ≡ mode
          → d.mode ≡ mode
          → (if t then c else d).mode ≡ mode
      either true c d hc hd = hc
      either false c d hc hd = hd

  float_candidate-Below :
      (n mode : ℕ) (hs a b : List ℕ) → mode < n → Below n (float_candidate F mode hs a b)
  float_candidate-Below n mode hs a b h = rw (float_candidate-mode mode hs a b) h

  write_selected_lem :
      (c : FloatCandidate) (rs : List ℕ) → write_selected c rs ≡ write_candidate F c rs
  unfolding write_selected write_candidate
  write_selected_lem c rs = refl

  module _ (a b : List ℕ) (long : length a ≡ length b) (m : Modes)
      (gx : (hs : List ℕ) → Grown unmeasured m.by_xor (residuals F 0 hs a b))
      (gd : (hs : List ℕ) → Grown unmeasured m.by_difference (residuals F 1 hs a b)) where
    choose-none : choose (length b) false m ≡ select F none a b
    unfolding choose lesser select smaller kind_of
    choose-none =
        rw
          (
            candidate_lem 0 [] a b m.by_xor long (gx []),
            candidate_lem 1 [] a b m.by_difference long (gd []),
          )
          refl

    residuals-none : (mode : ℕ) → mode < 2 → residuals_of mode m ≡ residuals F mode [] a b
    unfolding residuals_of
    residuals-none zero h = (gx []).residuals
    residuals-none (suc zero) h = (gd []).residuals
    residuals-none (suc (suc mode)) h = absurd (omega arith)

    module _ (hs : List ℕ) (gb : Grown unmeasured m.by_bits (residuals F 2 hs a b))
        (gv : Grown unmeasured m.by_value (residuals F 3 hs a b)) where
      choose-some : choose (length b) true m ≡ select F (some hs) a b
      unfolding choose lesser select smaller kind_of
      choose-some =
          rw
            (
              candidate_lem 0 [] a b m.by_xor long (gx []),
              candidate_lem 1 hs a b m.by_difference long (gd hs),
              candidate_lem 2 hs a b m.by_bits long gb,
              candidate_lem 3 hs a b m.by_value long gv,
            )
            refl

      residuals-some : (mode : ℕ) → mode < 4 → residuals_of mode m ≡ residuals F mode hs a b
      unfolding residuals_of
      residuals-some zero h = (gx hs).residuals
      residuals-some (suc zero) h = (gd hs).residuals
      residuals-some (suc (suc zero)) h = gb.residuals
      residuals-some (suc (suc (suc zero))) h = gv.residuals
      residuals-some (suc (suc (suc (suc mode)))) h = absurd (omega arith)

  select-Below : (hs a b : List ℕ) → Below 2 (select F none a b) × Below 4 (select F (some hs) a b)
  unfolding select
  select-Below hs a b =
      let at = λ (n mode : ℕ) (hs : List ℕ). float_candidate-Below n mode hs a b in
      (
        smaller_either (Below 2) _ _ (at 2 0 [] (omega arith)) (at 2 1 [] (omega arith)),
        smaller_either (Below 4) _ _
            (smaller_either (Below 4) _ _
              (smaller_either (Below 4) _ _ (at 4 0 [] (omega arith)) (at 4 1 hs (omega arith)))
              (at 4 2 hs (omega arith)))
            (at 4 3 hs (omega arith)),
      )

  -- The collected numbers.
  abbrev pub of_numbers : List ℕ → List ℕ → Collected
  of_numbers a b = record {
    numbers = a;
    old_bits = narrows F L a;
    new_bits = narrows F L b;
    same = all_same a b;
  }

  pub write_changed_lem :
      (a b : List ℕ)
      → length a ≡ length b
      → (hs : Option (List ℕ))
      → write_changed F (length b) hs (of_numbers a b) ≡ write_float_array F hs a b
  unfolding write_float_array
  write_changed_lem a b long none =
      let m = measure F false [] a (narrows F L a) (narrows F L b) no_modes in
      let gx = λ (any : List ℕ). (Grown-first F L false [] any a b no_modes long).0 in
      let gd = λ (any : List ℕ). (Grown-first F L false [] any a b no_modes long).1 in
      rw
        (
          choose-none a b long m gx gd,
          residuals-none a b long m gx gd (select F none a b).mode (select-Below [] a b).0,
        )
        (write_selected_lem (select F none a b) (residuals F (select F none a b).mode [] a b))
  write_changed_lem a b long (some hs) =
      let m = measure F true hs a (narrows F L a) (narrows F L b) no_modes in
      let gx = λ (any : List ℕ). (Grown-first F L true hs any a b no_modes long).0 in
      let gd = λ (any : List ℕ). (Grown-first F L true hs any a b no_modes long).1 in
      let (gb, gv) = Grown-second F L hs a b no_modes long in
      rw
        (
          choose-some a b long m gx gd hs gb gv,
          residuals-some a b long m gx gd hs gb gv (select F (some hs) a b).mode
              (select-Below hs a b).1,
        )
        (write_selected_lem (select F (some hs) a b)
          (residuals F (select F (some hs) a b).mode hs a b))
