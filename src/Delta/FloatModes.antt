-- ===== src/Delta/FloatModes.antt =====
-- The modes of arrays of f32 numbers: what `float_residual` measures, `read_patched_value` adds.
use halospawns_infra.Prelude.{
  ℕ, ◌^◌, ◌≤◌, ◌<◌, ◌≡◌, refl, true, inl, inr, List, [], ◌∷◌, length, All, arith, ◌==◌, Bool-cases,
}
use halospawns_infra.Prelude.Results.{ok}
use halospawns_infra.Prelude.Words.{bit_xor-lt}
use halospawns_infra.Delta.Floats.{Floats, Lawful, is_finite}
use halospawns_infra.Delta.Difference.{
  bit_length, patched_float32_bits, signed_difference, signed_uint32_difference,
}
use halospawns_infra.Delta.Difference.Laws.{patched-difference, patched-xor}
use halospawns_infra.Delta.Numbers.{predict_bits, predict_value_bits}
use halospawns_infra.Delta.Numbers.Bytes.{lt-pow-bit_length, bit_length-le, pow-le}
use halospawns_infra.Delta.FloatArray.{
  first, others, float_base, float_residual, residuals, max_width,
}
use halospawns_infra.Delta.PatchFloats.{patch_base, patch_bases, head_bits, tail_bits}
use halospawns_infra.Delta.FloatTrip.{Lead}

signed_difference-lt :
    (a b : ℕ) → a < 2 ^ 32 → b < 2 ^ 32 → signed_difference (signed_uint32_difference a b) < 2 ^ 32
unfolding signed_difference signed_uint32_difference
signed_difference-lt a b p q = ground arith

module _ (F : Floats) (L : Lawful F) where
  -- The f32 numbers, and f32 numbers that JSON can have.
  abbrev pub Exact : List ℕ → Type 0
  Exact = All (λ p. F.widen (F.narrow p) ≡ p)

  abbrev pub Plain : List ℕ → Type 0
  Plain = All (λ n. (F.widen (F.narrow n) ≡ n) × (is_finite n ≡ true))

  pub float_base-lt : (mode h p : ℕ) → float_base F mode h p < 2 ^ 32
  unfolding float_base predict_bits predict_value_bits
  float_base-lt mode h p = ground (arith, L.narrow_lt p, L.narrow_lt (F.sub (F.double p) h))

  float_residual-lt : (mode h p n : ℕ) → float_residual F mode h p n < 2 ^ 32
  unfolding float_residual
  float_residual-lt mode h p n = elim (Bool-cases (mode == 0)) [
    | inl e ↦ rw e (bit_xor-lt 32 (F.narrow p) (F.narrow n) (L.narrow_lt p) (L.narrow_lt n))
    | inr e ↦ rw e (
        signed_difference-lt (float_base F mode h p) (F.narrow n) (float_base-lt mode h p)
          (L.narrow_lt n))
  ]

  -- In every mode, the residual of `float_residual` leads `patched_float32_bits` from the base of
  -- that mode to the pattern of the next number.
  pub patched-float_residual :
      (mode h p n : ℕ)
      → patched_float32_bits (float_base F mode h p) (float_residual F mode h p n) (mode == 0)
        ≡ ok (F.narrow n)
  unfolding float_residual
  patched-float_residual mode h p n = elim (Bool-cases (mode == 0)) [
    | inl e ↦
        let zero_mode : mode ≡ 0 = ground arith in
        rw (e, zero_mode)
          (unfold float_base in
            patched-xor (F.narrow p) (F.narrow n) (L.narrow_lt p) (L.narrow_lt n))
    | inr e ↦ rw e (
        patched-difference (float_base F mode h p) (F.narrow n) (float_base-lt mode h p)
          (L.narrow_lt n))
  ]

  -- The reader's bases are the writer's.
  unfoldable pub Agree : ℕ → List ℕ → List ℕ → List ℕ → Type 0
  Agree mode hw hr [] = Unit
  Agree mode hw hr (p ∷ ps) =
      (patch_base F mode (head_bits F hr) (F.narrow p) ≡ float_base F mode (first hw) p)
      × Agree mode (others hw) (tail_bits F hr) ps

  -- The patterns of f32 numbers.
  unfoldable pub narrows : List ℕ → List ℕ
  narrows [] = []
  narrows (p ∷ ps) = F.narrow p ∷ narrows ps

  pub Agree-plain : (mode : ℕ) → mode < 2 → (hw hr ps : List ℕ) → Agree mode hw hr ps
  unfolding Agree patch_base float_base
  Agree-plain mode h hw hr [] = tt
  Agree-plain mode h hw hr (p ∷ ps) =
      (ground arith, Agree-plain mode h (others hw) (tail_bits F hr) ps)

  patch_base-float_base :
      (mode h p : ℕ)
      → F.widen (F.narrow h) ≡ h
      → F.widen (F.narrow p) ≡ p
      → patch_base F mode (F.narrow h) (F.narrow p) ≡ float_base F mode h p
  unfolding patch_base float_base
  patch_base-float_base mode h p eh ep = rw (eh, ep) refl

  pub Agree-narrows :
      (mode : ℕ) (hs ps : List ℕ)
      → length hs ≡ length ps
      → Exact hs
      → Exact ps
      → Agree mode hs (narrows hs) ps
  unfolding Agree narrows first others
  Agree-narrows mode [] [] e eh ep = tt
  Agree-narrows mode (h ∷ hs) (p ∷ ps) e (xh, xhs) (xp, xps) =
      (patch_base-float_base mode h p xh xp, Agree-narrows mode hs ps (omega (arith, e)) xhs xps)
  Agree-narrows mode (h ∷ hs) [] e eh ep = tt
  Agree-narrows mode [] (p ∷ ps) e eh ep = absurd (omega (arith, e))

  -- Each residual of a mode leads to its number.
  pub residuals-Lead :
      (mode : ℕ) (hw hr ps ns : List ℕ)
      → length ps ≡ length ns
      → Plain ns
      → Agree mode hw hr ps
      → Lead F (mode == 0) (patch_bases F mode hr (narrows ps)) (residuals F mode hw ps ns) ns
  unfolding Lead patch_bases residuals narrows Agree
  residuals-Lead mode hw hr [] [] e plain agree = tt
  residuals-Lead mode hw hr (p ∷ ps) (n ∷ ns) e ((exact, fin), plain) (this, agree) = (
    rw this (patched-float_residual mode (first hw) p n),
    exact,
    fin,
    residuals-Lead mode (others hw) (tail_bits F hr) ps ns (omega (arith, e)) plain agree,
  )
  residuals-Lead mode hw hr [] (n ∷ ns) e plain agree = absurd (omega (arith, e))
  residuals-Lead mode hw hr (p ∷ ps) [] e plain agree = absurd (omega (arith, e))

  -- In every mode, the widest residual between two arrays has at most 32 digits, which is the
  -- width that the reader accepts.
  pub max_width-le : (mode : ℕ) (hs ps ns : List ℕ) → max_width (residuals F mode hs ps ns) ≤ 32
  unfolding max_width residuals bit_length
  max_width-le mode hs [] ns = omega arith
  max_width-le mode hs (p ∷ ps) [] = omega arith
  max_width-le mode hs (p ∷ ps) (n ∷ ns) = omega (
    arith,
    bit_length-le 64 32 (float_residual F mode (first hs) p n)
        (float_residual-lt mode (first hs) p n),
    max_width-le mode (others hs) ps ns,
  )

  pub wider :
      (w : ℕ) (mode : ℕ) (hs ps ns : List ℕ)
      → max_width (residuals F mode hs ps ns) ≤ w
      → All (λ r. r < 2 ^ w) (residuals F mode hs ps ns)
  unfolding max_width residuals bit_length
  wider w mode hs [] ns h = tt
  wider w mode hs (p ∷ ps) [] h = tt
  wider w mode hs (p ∷ ps) (n ∷ ns) h =
      let r = float_residual F mode (first hs) p n in
      (
        omega (
          arith,
          lt-pow-bit_length 64 r (omega (arith, float_residual-lt mode (first hs) p n)),
          pow-le (bit_length r) w (unfold bit_length in omega (arith, h)),
        ),
        wider w mode (others hs) ps ns (omega (arith, h)),
      )

  -- Exclusive ors and differences do not look at the history.
  pub residuals-plain :
      (mode : ℕ)
      → mode < 2
      → (ha hb ps ns : List ℕ) → residuals F mode ha ps ns ≡ residuals F mode hb ps ns
  unfolding residuals
  residuals-plain mode m ha hb [] ns = refl
  residuals-plain mode m ha hb (p ∷ ps) [] = refl
  residuals-plain mode m ha hb (p ∷ ps) (n ∷ ns) =
      let this : float_residual F mode (first ha) p n ≡ float_residual F mode (first hb) p n =
        unfold float_residual in unfold float_base in ground arith in
      rw (this, residuals-plain mode m (others ha) (others hb) ps ns) refl
