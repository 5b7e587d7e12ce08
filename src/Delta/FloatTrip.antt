-- ===== src/Delta/FloatTrip.antt =====
-- Arrays of f32 numbers that `write_residuals` and `write_packed` wrote are read back.
use halospawns_infra.Prelude.{
  ℕ, ◌+◌, ◌-◌, ◌*◌, ◌/◌, ◌^◌, ◌≤◌, ◌<◌, ◌≡◌, refl, ap, Bool, true, inl, inr, List, [], ◌∷◌, ◌++◌,
  length, All, arith, ◌==◌, Bool-cases,
}
use halospawns_infra.Prelude.Results.{ok}
use halospawns_infra.Delta.Codes.{Text}
use halospawns_infra.Delta.Writer
use halospawns_infra.Delta.Writer.{Write}
use halospawns_infra.Delta.Sync.{Reads, Reads-bytes, Reads-bind, Reads-bind_done, Reads-pure}
use halospawns_infra.Delta.Wire.{reader, Reads-varuint}
use halospawns_infra.Delta.Floats.{Floats, is_finite}
use halospawns_infra.Delta.Value.{number, Items, nil, cons}
use halospawns_infra.Delta.Read.{decoded_number}
use halospawns_infra.Delta.Write.{to_le}
use halospawns_infra.Delta.Difference.{patched_float32_bits}
use halospawns_infra.Delta.Packed.{Accumulator, empty, shifted, write_packed}
use halospawns_infra.Delta.Packed.Writing.{side_by_side, pack_loop-side_by_side}
use halospawns_infra.Delta.Packed.Reading.{Holds, fill-Filled, residual-Holds}
use halospawns_infra.Delta.FloatArray.{write_residuals}
use halospawns_infra.Delta.PatchNumber.{read_patched_bits, float32_value}
use halospawns_infra.Delta.PatchFloats.{read_residuals, read_packed}
use halospawns_infra.Delta.XorTrip.{Reads-decoded}

-- The items of an array of numbers.
unfoldable pub number_items : List ℕ → Items
number_items [] = nil
number_items (n ∷ ns) = cons (number n) (number_items ns)

module _ (F : Floats) where
  -- Each residual leads from its base to the f32 number in the same place.
  unfoldable pub Lead : Bool → List ℕ → List ℕ → List ℕ → Type 0
  Lead is_xor [] [] [] = Unit
  Lead is_xor (b ∷ bs) (r ∷ rs) (n ∷ ns) =
      (patched_float32_bits b r is_xor ≡ ok (F.narrow n))
      × (F.widen (F.narrow n) ≡ n)
      × (is_finite n ≡ true)
      × Lead is_xor bs rs ns
  Lead is_xor [] [] (n ∷ ns) = ⊥
  Lead is_xor [] (r ∷ rs) ns = ⊥
  Lead is_xor (b ∷ bs) [] ns = ⊥
  Lead is_xor (b ∷ bs) (r ∷ rs) [] = ⊥

  Reads-one :
      (base r n : ℕ) (is_xor : Bool)
      → patched_float32_bits base r is_xor ≡ ok (F.narrow n)
      → F.widen (F.narrow n) ≡ n
      → is_finite n ≡ true
      → Reads (Writer.varuint r) (read_patched_bits F base is_xor) (λ a. a ≡ number n)
  unfolding read_patched_bits
  Reads-one base r n is_xor patched exact fin =
      Reads-bind_done _ _ _ (Reads-varuint r) λ e ee. rw (ee, patched) (Reads-decoded n _ fin exact)

  pub Reads-residuals :
      (is_xor : Bool) (bases rs ns : List ℕ)
      → Lead is_xor bases rs ns
      → Reads (write_residuals rs) (read_residuals F bases is_xor) (λ vs. vs ≡ number_items ns)
  unfolding write_residuals read_residuals Lead number_items
  Reads-residuals is_xor [] [] [] lead = Reads-pure nil refl
  Reads-residuals is_xor (b ∷ bs) (r ∷ rs) (n ∷ ns) (patched, exact, fin, lead) =
      Reads-bind _ _ _ _ (Reads-one b r n is_xor patched exact fin) λ v ev.
        Reads-bind_done _ _ _ (Reads-residuals is_xor bs rs ns lead)
          λ vs evs. rw (ev, evs) (Reads-pure (number_items (n ∷ ns)) refl)
  Reads-residuals is_xor [] [] (n ∷ ns) lead = absurd lead
  Reads-residuals is_xor [] (r ∷ rs) ns lead = absurd lead
  Reads-residuals is_xor (b ∷ bs) [] ns lead = absurd lead
  Reads-residuals is_xor (b ∷ bs) (r ∷ rs) [] lead = absurd lead

  -- The loop over packed residuals, from an accumulator that holds the first of them.
  read_packed-Holds :
      (width : ℕ) (is_xor : Bool) (bases rs ns : List ℕ) (a : Accumulator) (m high left : ℕ)
      (rest : List ℕ) (ss : List Text)
      → width ≤ 32
      → All (λ r. r < 2 ^ width) rs
      → Lead is_xor bases rs ns
      → a.count + 8 * m ≡ left
      → width * length rs ≤ left
      → left < width * length rs + 8
      → Holds a high (side_by_side width rs)
      → read_packed F width a bases is_xor (reader (to_le m high ++ rest) ss)
        ≡ ok (number_items ns, reader rest ss)
  unfolding read_packed Lead number_items side_by_side float32_value decoded_number
  read_packed-Holds width is_xor [] [] [] a m high left rest ss narrow fits lead count room tight
        holds =
      let none_left : m ≡ 0 = omega arith in rw none_left (unfold to_le in refl)
  read_packed-Holds width is_xor (b ∷ bs) (r ∷ rs) (n ∷ ns) a m high left rest ss narrow (fit, fits)
        (patched, exact, fin, lead) count room tight holds =
      let filled =
        fill-Filled width width m high (r + 2 ^ width * side_by_side width rs) left a rest ss narrow
          (omega arith) (omega arith) count holds in
      let (this, others) =
        residual-Holds width r (side_by_side width rs) filled.high filled.after filled.enough fit
          filled.holds in
      let later =
        read_packed-Holds width is_xor bs rs ns (shifted width filled.after) filled.bytes_left
          filled.high (left - width) rest ss narrow fits lead
          (unfold shifted in omega (arith, filled.count, filled.enough)) (omega arith) (omega arith)
          others in
      rw (filled.runs, this, patched, exact, fin, later) refl
  read_packed-Holds width is_xor [] [] (n ∷ ns) a m high left rest ss narrow fits lead count room
        tight holds =
      absurd lead
  read_packed-Holds width is_xor [] (r ∷ rs) ns a m high left rest ss narrow fits lead count room
        tight holds =
      absurd lead
  read_packed-Holds width is_xor (b ∷ bs) [] ns a m high left rest ss narrow fits lead count room
        tight holds =
      absurd lead
  read_packed-Holds width is_xor (b ∷ bs) (r ∷ rs) [] a m high left rest ss narrow fits lead count
        room tight holds =
      absurd lead

  -- If each residual has at most `width` digits, at most 32, and leads from its base to a finite
  -- f32 number, then the loop over packed residuals takes exactly the bytes of `write_packed` and
  -- gives those numbers.
  pub Reads-packed :
      (width : ℕ) (is_xor : Bool) (bases rs ns : List ℕ)
      → width ≤ 32
      → All (λ r. r < 2 ^ width) rs
      → Lead is_xor bases rs ns
      → Reads
          (write_packed width rs)
          (read_packed F width empty bases is_xor)
          (λ vs. vs ≡ number_items ns)
  unfolding write_packed
  Reads-packed width is_xor bases rs ns narrow fits lead = elim (Bool-cases (width == 0)) [
    | inl no_digits ↦
        let none : width ≡ 0 = ground arith in
        let size : width * length rs ≡ 0 = omega (arith, ap (λ (t : ℕ). t * length rs) none) in
        rw no_digits (
          Reads-bytes [] _ (number_items ns) refl λ rest ss.
            unfold to_le in
            read_packed-Holds width is_xor bases rs ns empty 0 (side_by_side width rs) 0 rest ss
              narrow fits lead refl (omega (arith, size)) (omega arith) (omega arith, omega arith))
    | inr digits ↦
        rw (digits, pack_loop-side_by_side width rs (omega arith) fits)
          (Reads-bytes _ _ (number_items ns) refl λ rest ss.
            read_packed-Holds width is_xor bases rs ns empty ((width * length rs + 7) / 8)
              (side_by_side width rs) (8 * ((width * length rs + 7) / 8)) rest ss narrow fits lead
              (omega arith) (omega arith) (omega arith) (omega arith, omega arith))
  ]
