-- ===== src/Film/FloatDelta/Measures.antt =====
-- What the second loop of float_delta.rs measures is what `float_residual` and `float_candidate` of
-- viewer.rs say, for all modes at once.
use mathlib.Core.List.{append_assoc, append-nil}
use halospawns_infra.Prelude.{
  ℕ, zero, suc, ◌+◌, ◌-◌, ◌*◌, ◌/◌, ◌%◌, ◌^◌, ◌<◌, ◌≤◌, ◌≡◌, refl, sym, ◌∙◌, Bool, true, false,
  List, [], ◌∷◌, ◌++◌, length, max, bit_or, bit_xor, ◌==◌, ltb, arith, Bool-cases, inl, inr,
  if◌then◌else◌,
}
use halospawns_infra.Prelude.Words.{bit_or_step, zero-bit_or}
use halospawns_infra.Pose.Wire.Bytes.{bit_xor-ones, bit_xor_zero}
use halospawns_infra.Delta.Floats.{Floats, Lawful}
use halospawns_infra.Delta.Difference.{
  bit_length, bit_length_loop, signed_difference, signed_uint32_difference,
}
use halospawns_infra.Delta.FloatArray.{
  sum_lengths, max_width, first, others, float_base, float_residual, residuals,
}
use halospawns_infra.Delta.FloatModes.{narrows, float_base-lt}
use halospawns_infra.Delta.Numbers.{predict_bits, predict_value_bits}
use halospawns_infra.Film.FloatDelta.{
  sign_mask, difference, Measured, add_residual, Modes, measure, measure_at,
}

-- The difference in wrapping arithmetic is the difference of viewer.rs.
pub difference_lem :
    (a b : ℕ)
    → a < 2 ^ 32
    → b < 2 ^ 32
    → difference a b ≡ signed_difference (signed_uint32_difference a b)
unfolding difference sign_mask
difference_lem a b p q =
    let delta = (b + 2 ^ 32 - a) % 2 ^ 32 in
    elim (Bool-cases (ltb delta (2 ^ 31))) [
      | inl e ↦
          rw (e, bit_xor_zero (delta * 2 % 2 ^ 32) (delta * 2 % 2 ^ 32) (omega arith))
            (low delta e refl)
      | inr e ↦ rw (e, bit_xor-ones 32 (delta * 2 % 2 ^ 32) (omega arith)) (high delta e refl)
    ]
  where
    low :
        (d : ℕ)
        → ltb d (2 ^ 31) ≡ true
        → d ≡ (b + 2 ^ 32 - a) % 2 ^ 32
        → d * 2 % 2 ^ 32 ≡ signed_difference (signed_uint32_difference a b)
    low d e h = unfold signed_difference signed_uint32_difference in ground arith

    high :
        (d : ℕ)
        → ltb d (2 ^ 31) ≡ false
        → d ≡ (b + 2 ^ 32 - a) % 2 ^ 32
        → 2 ^ 32 - 1 - d * 2 % 2 ^ 32 ≡ signed_difference (signed_uint32_difference a b)
    high d e h = unfold signed_difference signed_uint32_difference in ground arith

-- A union has every digit of its parts.
le-bit_or : (n a b : ℕ) → a + b ≤ n → (a ≤ bit_or a b) × (b ≤ bit_or a b)
le-bit_or zero a b h = (omega arith, omega arith)
le-bit_or (suc n) zero b h = (omega arith, omega (arith, zero-bit_or b))
le-bit_or (suc n) (suc a) b h =
    let (l, r) = le-bit_or n (suc a / 2) (b / 2) (omega arith) in
    (omega (arith, bit_or_step (suc a) b, l), omega (arith, bit_or_step (suc a) b, r))

pub bit_length_loop-zero : (n : ℕ) → bit_length_loop n 0 ≡ 0
unfolding bit_length_loop
bit_length_loop-zero zero = refl
bit_length_loop-zero (suc n) = refl

bit_length_loop-bit_or :
    (n a b : ℕ) → bit_length_loop n (bit_or a b) ≡ max (bit_length_loop n a) (bit_length_loop n b)
unfolding bit_length_loop
bit_length_loop-bit_or zero a b = refl
bit_length_loop-bit_or (suc n) zero b = rw (zero-bit_or b) (omega arith)
bit_length_loop-bit_or (suc n) (suc a) b =
    let (l, r) = le-bit_or (suc a + b) (suc a) b (omega arith) in
    let some_digit : (bit_or (suc a) b == 0) ≡ false = ground (arith, l) in
    let a_digit : (suc a == 0) ≡ false = ground arith in
    let half : bit_or (suc a) b / 2 ≡ bit_or (suc a / 2) (b / 2) =
      omega (arith, bit_or_step (suc a) b) in
    let rest = bit_length_loop-bit_or n (suc a / 2) (b / 2) in
    rw (some_digit, a_digit, half, rest) (rounds n (bit_length_loop n (suc a / 2)) b)
  where
    rounds :
        (n x b : ℕ)
        → suc (max x (bit_length_loop n (b / 2)))
          ≡ max (suc x) (if b == 0 then 0 else suc (bit_length_loop n (b / 2)))
    rounds n x zero = ground (arith, bit_length_loop-zero n)
    rounds n x (suc b) = ground arith

-- What a mode has added up after some residuals more.
pub record Grown (m m' : Measured) (rs : List ℕ) : Type 0 where
  pub residuals : m'.residuals ≡ m.residuals ++ rs
  pub size : m'.size ≡ m.size + sum_lengths rs
  pub width : bit_length m'.union ≡ max (bit_length m.union) (max_width rs)

pub Grown-none : (m : Measured) → Grown m m []
unfolding sum_lengths max_width
Grown-none m = record {
  residuals = sym (append-nil m.residuals);
  size = omega arith;
  width = omega arith;
}

pub Grown-add :
    (r r' : ℕ) (m m' : Measured) (rs : List ℕ)
    → r ≡ r'
    → Grown (add_residual r m) m' rs
    → Grown m m' (r' ∷ rs)
unfolding add_residual sum_lengths max_width bit_length
Grown-add r r' m m' rs e g = rw (← e) (record {
  residuals = g.residuals ∙ append_assoc m.residuals (r ∷ []) rs;
  size = omega (arith, g.size);
  width = omega (arith, g.width, bit_length_loop-bit_or 64 m.union r);
})

-- The residuals of a mode, by its history if it has one.
module _ (F : Floats) (L : Lawful F) where
  -- Every mode but the first measures from its base.
  residual_lem :
      (mode h p n : ℕ)
      → (mode == 0) ≡ false
      → difference (float_base F mode h p) (F.narrow n) ≡ float_residual F mode h p n
  unfolding float_residual
  residual_lem mode h p n e = rw e (
      difference_lem (float_base F mode h p) (F.narrow n) (float_base-lt F L mode h p)
        (L.narrow_lt n))

  xor_residual : (h p n : ℕ) → bit_xor (F.narrow p) (F.narrow n) ≡ float_residual F 0 h p n
  unfolding float_residual
  xor_residual h p n = refl

  difference_residual :
      (h p n : ℕ) → difference (F.narrow p) (F.narrow n) ≡ float_residual F 1 h p n
  unfolding float_base
  difference_residual h p n = residual_lem 1 h p n refl

  bits_residual :
      (h p n : ℕ)
      → difference ((F.narrow p * 2 % 2 ^ 32 + 2 ^ 32 - F.narrow h) % 2 ^ 32) (F.narrow n)
        ≡ float_residual F 2 h p n
  unfolding float_base predict_bits
  bits_residual h p n =
      let twice : F.narrow p * 2 ≡ 2 * F.narrow p = omega arith in
      rw twice (residual_lem 2 h p n refl)

  value_residual :
      (h p n : ℕ) → difference (predict_value_bits F h p) (F.narrow n) ≡ float_residual F 3 h p n
  unfolding float_base
  value_residual h p n = residual_lem 3 h p n refl

  -- The two modes without a history, whether there is one or not.
  pub Grown-first :
      (used : Bool) (hs any a b : List ℕ) (m : Modes)
      → length a ≡ length b
      → let m' = measure F used hs a (narrows F L a) (narrows F L b) m in
        Grown m.by_xor m'.by_xor (residuals F 0 any a b)
        × Grown m.by_difference m'.by_difference (residuals F 1 any a b)
  unfolding measure measure_at narrows residuals
  Grown-first used hs any [] b m e = (Grown-none m.by_xor, Grown-none m.by_difference)
  Grown-first used hs any (x ∷ a) [] m e = absurd (omega arith)
  Grown-first used hs any (x ∷ a) (y ∷ b) m e =
      let m' = measure_at F used (first hs) x (F.narrow x) (F.narrow y) m in
      let (gx, gd) = Grown-first used (others hs) (others any) a b m' (omega arith) in
      (
        Grown-add _ _ m.by_xor _ _ (xor_residual (first any) x y) gx,
        Grown-add _ _ m.by_difference _ _ (difference_residual (first any) x y) gd,
      )

  -- The two predictions.
  pub Grown-second :
      (hs a b : List ℕ) (m : Modes)
      → length a ≡ length b
      → let m' = measure F true hs a (narrows F L a) (narrows F L b) m in
        Grown m.by_bits m'.by_bits (residuals F 2 hs a b)
        × Grown m.by_value m'.by_value (residuals F 3 hs a b)
  unfolding measure measure_at narrows residuals
  Grown-second hs [] b m e = (Grown-none m.by_bits, Grown-none m.by_value)
  Grown-second hs (x ∷ a) [] m e = absurd (omega arith)
  Grown-second hs (x ∷ a) (y ∷ b) m e =
      let m' = measure_at F true (first hs) x (F.narrow x) (F.narrow y) m in
      let (gb, gv) = Grown-second (others hs) a b m' (omega arith) in
      (
        Grown-add _ _ m.by_bits _ _ (bits_residual (first hs) x y) gb,
        Grown-add _ _ m.by_value _ _ (value_residual (first hs) x y) gv,
      )
