-- ===== src/Delta/FloatChoice.antt =====
-- Arrays of f32 numbers as deltas: whichever candidate `write_delta` of viewer.rs selects is read back.
use halospawns_infra.Prelude.{
  ℕ, ◌*◌, ◌≤◌, ◌≡◌, refl, ap, true, false, Option, none, some, inl, inr, ◌⊎◌, ◌||◌, List, [],
  length, arith, ltb, leb, ◌==◌, Bool-cases, if◌then◌else◌,
}
use halospawns_infra.Delta.Codes.{delta_dense_float32_bitpacked_array}
use halospawns_infra.Delta.Reader.{M, ◌>>=◌, byte}
use halospawns_infra.Delta.Writer
use halospawns_infra.Delta.Writer.{Write}
use halospawns_infra.Delta.Sync.{Reads, Reads-bind}
use halospawns_infra.Delta.Floats.{Floats, Lawful}
use halospawns_infra.Delta.Value.{Value, array}
use halospawns_infra.Delta.Values.{Reads-byte}
use halospawns_infra.Delta.Packed.{write_packed}
use halospawns_infra.Delta.FloatArray.{
  FloatCandidate, residuals, max_width, kind_of, float_candidate, smaller, select, write_candidate,
  write_residuals, write_float_array, sum_lengths, packed_size,
}
use halospawns_infra.Delta.PatchFloats.{
  patch_bases, read_bitpacked, read_float_kind, or_empty, is_none,
}
use halospawns_infra.Delta.FloatTrip.{number_items, Reads-residuals, Reads-packed}
use halospawns_infra.Delta.FloatModes.{
  Exact, Plain, Agree, narrows, Agree-plain, Agree-narrows, residuals-Lead, max_width-le, wider,
  residuals-plain,
}

-- The tags of arrays of f32 numbers.
abbrev pub IsFloatTag : ℕ → Type 0
IsFloatTag tag = (tag ≡ delta_dense_float32_bitpacked_array) ⊎ ((mode : ℕ) × (tag ≡ kind_of mode))

plain_kind : (mode : ℕ) → (kind_of mode == delta_dense_float32_bitpacked_array) ≡ false
unfolding kind_of
plain_kind mode = ground arith

module _ (F : Floats) (L : Lawful F) (ps ns : List ℕ) (same_length : length ps ≡ length ns)
    (plain : Plain F L ns) (hr : Option (List ℕ)) where
  -- What is behind the tag is read.
  abbrev Behind : ℕ → Write → Type 0
  Behind tag m = Reads m (read_float_kind F tag (narrows F L ps) hr) (λ vs. vs ≡ number_items ns)

  Behind-bitpacked :
      (mode width : ℕ) (hw : List ℕ)
      → mode ≤ 3
      → (if leb 2 mode then is_none F hr else false) ≡ false
      → Agree F L mode hw (or_empty F hr) ps
      → width ≡ max_width (residuals F mode hw ps ns)
      → Behind delta_dense_float32_bitpacked_array (
          Writer.◌>>◌
            (Writer.byte mode)
            (Writer.◌>>◌ (Writer.byte width) (write_packed width (residuals F mode hw ps ns))))
  unfolding read_float_kind read_bitpacked
  Behind-bitpacked mode width hw small history agree e =
      let narrow : width ≤ 32 = omega (arith, e, max_width-le F L mode hw ps ns) in
      let valid : (ltb 3 mode || ltb 32 width) ≡ false = ground arith in
      Reads-bind _ _ _ _ (Reads-byte mode) λ m em. Reads-bind _ _ _ _ (Reads-byte width) λ w ew.
        rw (em, ew, valid, history)
          (Reads-packed F width (mode == 0) (patch_bases F mode (or_empty F hr) (narrows F L ps))
            (residuals F mode hw ps ns) ns narrow (wider F L width mode hw ps ns (omega (arith, e)))
            (residuals-Lead F L mode hw (or_empty F hr) ps ns same_length plain agree))

-- The same where `next` stands for the match on the tag.
module _ (F : Floats) (L : Lawful F) (ps ns : List ℕ) (same_length : length ps ≡ length ns)
    (plain : Plain F L ns) (hr : Option (List ℕ)) (next : ℕ → M Value)
    (dispatch : (tag : ℕ) (m : Write)
      → IsFloatTag tag
      → Reads m (read_float_kind F tag (narrows F L ps) hr) (λ vs. vs ≡ number_items ns)
      → Reads m (next tag) (λ v. v ≡ array (number_items ns))) where
  -- A candidate whose tag and residuals are read, with the history that is written.
  abbrev Written : List ℕ → FloatCandidate → Type 0
  Written hw c =
      Reads (write_candidate F c (residuals F c.mode hw ps ns)) (byte >>= next)
        (λ v. v ≡ array (number_items ns))

  Written-candidate :
      (mode : ℕ) (h hw : List ℕ)
      → residuals F mode h ps ns ≡ residuals F mode hw ps ns
      → mode ≤ 3
      → (if leb 2 mode then is_none F hr else false) ≡ false
      → Agree F L mode hw (or_empty F hr) ps
      → Behind F L ps ns same_length plain hr
          (kind_of mode)
          (write_residuals (residuals F mode hw ps ns))
      → Written hw (float_candidate F mode h ps ns)
  unfolding float_candidate write_candidate
  Written-candidate mode h hw e small history agree behind =
      elim (Bool-cases (
        leb (packed_size F (residuals F mode h ps ns) * 4)
          (sum_lengths (residuals F mode h ps ns) * 3))) [
            | inl packed ↦ rw packed (
                Reads-bind _ _ _ _ (Reads-byte delta_dense_float32_bitpacked_array) λ t et. rw et (
                  dispatch _ _ (inl refl) (
                    Behind-bitpacked F L ps ns same_length plain hr mode _ hw small history agree
                      (ap max_width e))))
            | inr other ↦
                rw (other, plain_kind mode)
                  (Reads-bind _ _ _ _ (Reads-byte (kind_of mode))
                    λ t et. rw et (dispatch _ _ (inr (mode, refl)) behind))
          ]

  Written-smaller :
      (hw : List ℕ) (a b : FloatCandidate)
      → Written hw a
      → Written hw b
      → Written hw (smaller F a b)
  unfolding smaller
  Written-smaller hw a b wa wb = elim (Bool-cases (ltb b.bytes a.bytes)) [
    | inl h ↦ rw h wb
    | inr h ↦ rw h wa
  ]

  Written-xor : (h hw : List ℕ) → Written hw (float_candidate F 0 h ps ns)
  Written-xor h hw =
      Written-candidate 0 h hw (residuals-plain F L 0 (omega arith) h hw ps ns) (omega arith) refl
        (Agree-plain F L 0 (omega arith) hw (or_empty F hr) ps)
        (unfold kind_of read_float_kind in
          Reads-residuals F true _ _ ns (
            residuals-Lead F L 0 hw [] ps ns same_length plain
              (Agree-plain F L 0 (omega arith) hw [] ps)))

  Written-difference : (h hw : List ℕ) → Written hw (float_candidate F 1 h ps ns)
  Written-difference h hw =
      Written-candidate 1 h hw (residuals-plain F L 1 (omega arith) h hw ps ns) (omega arith) refl
        (Agree-plain F L 1 (omega arith) hw (or_empty F hr) ps)
        (unfold kind_of read_float_kind in
          Reads-residuals F false _ _ ns (
            residuals-Lead F L 1 hw [] ps ns same_length plain
              (Agree-plain F L 1 (omega arith) hw [] ps)))

  module _ (hs : List ℕ) (known : hr ≡ some (narrows F L hs)) (as_long : length hs ≡ length ps)
      (exact_h : Exact F L hs) (exact_p : Exact F L ps) where
    Written-bits : Written hs (float_candidate F 2 hs ps ns)
    Written-bits =
        let agree = Agree-narrows F L 2 hs ps as_long exact_h exact_p in
        Written-candidate 2 hs hs refl (omega arith) (rw known refl) (rw known agree) (
          unfold kind_of read_float_kind in
          rw known (
            Reads-residuals F false _ _ ns
              (residuals-Lead F L 2 hs (narrows F L hs) ps ns same_length plain agree)))

    Written-values : Written hs (float_candidate F 3 hs ps ns)
    Written-values =
        let agree = Agree-narrows F L 3 hs ps as_long exact_h exact_p in
        Written-candidate 3 hs hs refl (omega arith) (rw known refl) (rw known agree) (
          unfold kind_of read_float_kind in
          rw known (
            Reads-residuals F false _ _ ns
              (residuals-Lead F L 3 hs (narrows F L hs) ps ns same_length plain agree)))

  -- Whatever the writer's history.
  pub Reads-float_array :
      (history : Option (List ℕ))
      → Exact F L ps
      → ((hs : List ℕ)
          → history ≡ some hs
          → (hr ≡ some (narrows F L hs)) × (length hs ≡ length ps) × Exact F L hs)
      → Reads (write_float_array F history ps ns) (byte >>= next) (λ v. v ≡ array (number_items ns))
  unfolding write_float_array select
  Reads-float_array none exact_p known =
      Written-smaller [] _ _ (Written-xor [] []) (Written-difference [] [])
  Reads-float_array (some hs) exact_p known =
      let (k, long, exact_h) = known hs refl in
      Written-smaller hs _ _
        (Written-smaller hs _ _
          (Written-smaller hs _ _ (Written-xor [] hs) (Written-difference hs hs))
          (Written-bits hs k long exact_h exact_p))
        (Written-values hs k long exact_h exact_p)
