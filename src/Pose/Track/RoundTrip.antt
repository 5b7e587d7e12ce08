-- ===== src/Pose/Track/RoundTrip.antt =====
-- What `track` of wire.rs writes, `untrack` reads back.
use mathlib.Core.List.{append_assoc}
use halospawns_infra.Prelude.{
  ℕ, suc, ◌+◌, ◌-◌, ◌≤◌, ◌<◌, ◌^◌, ◌≡◌, refl, true, false, List, [], ◌∷◌, ◌++◌, length, All, arith,
  ltb, Bool-cases, inl, inr,
}
use halospawns_infra.Prelude.Results.{ok}
use halospawns_infra.Prelude.Int.{ℤ, pos, negsuc, pos_part, neg_part, ◌+ℤ◌, ◌-ℤ◌, int_laws}
use halospawns_infra.Pose.Wire.{write_i32, write_signed}
use halospawns_infra.Pose.Wire.Bytes.{IsI32, IsI64, u8-byte, i32-write}
use halospawns_infra.Pose.Wire.Varint.{signed-write}
use halospawns_infra.Pose.Track.{
  ℤ_eq, all_equal, deltas, second_deltas, track, fits, next_delta, untrack_loop, untrack,
}

ℤ_eq_sound : (a b : ℤ) → ℤ_eq a b ≡ true → a ≡ b
unfolding ℤ_eq
ℤ_eq_sound (pos a) (pos b) e = ground arith
ℤ_eq_sound (pos a) (negsuc b) e = cc
ℤ_eq_sound (negsuc a) (pos b) e = cc
ℤ_eq_sound (negsuc a) (negsuc b) e = ground arith

-- Differences of small integers are small, and added up they lead back.
sub_small :
    (a b : ℤ)
    → (pos_part (a -ℤ b) ≤ pos_part a + neg_part b) × (neg_part (a -ℤ b) ≤ neg_part a + pos_part b)
unfolding ◌-ℤ◌
sub_small a b = ground arith

add_sub : (a b : ℤ) → b +ℤ (a -ℤ b) ≡ a
add_sub a b = omega int_laws

fits_32 : (v : ℤ) → IsI32 v → fits 32 v ≡ true
unfolding fits
fits_32 v h = ground (arith, h.0, h.1)

fits_64 : (v : ℤ) → IsI64 v → fits 64 v ≡ true
unfolding fits
fits_64 v h = ground (arith, h.0, h.1)

-- A difference of two i32 values.
abbrev IsDelta : ℤ → Type 0
IsDelta d = (pos_part d < 2 ^ 32) × (neg_part d < 2 ^ 32)

sub-IsDelta : (a b : ℤ) → IsI32 a → IsI32 b → IsDelta (a -ℤ b)
sub-IsDelta a b (p, q) (r, s) = (omega (arith, (sub_small a b).0), omega (arith, (sub_small a b).1))

constant_loop :
    (vs : List ℤ) (first delta : ℤ) (r : List ℕ)
    → all_equal first vs ≡ true
    → untrack_loop (length vs) 0 first delta r ≡ ok (vs, r)
unfolding all_equal untrack_loop
constant_loop [] first delta r e = refl
constant_loop (v ∷ vs) first delta r e =
    let same : v ≡ first = ℤ_eq_sound v first (ground arith) in
    rw (constant_loop vs first delta r (ground arith), same) refl

-- One value by its difference.
delta_step :
    (n : ℕ) (last delta v : ℤ) (r : List ℕ) (vs : List ℤ) (rest : List ℕ)
    → IsI32 v
    → IsI32 last
    → untrack_loop n 1 v (v -ℤ last) r ≡ ok (vs, rest)
    → untrack_loop (suc n) 1 last delta (write_signed (v -ℤ last) ++ r) ≡ ok (v ∷ vs, rest)
unfolding untrack_loop next_delta
delta_step n last delta v r vs rest hv hl e =
    let (p, q) = sub-IsDelta v last hv hl in
    rw
      (
        signed-write (v -ℤ last) r (omega arith, omega arith),
        add_sub v last,
        fits_64 v (omega arith, omega arith),
        fits_32 v hv,
        e,
      )
      refl

second_delta_step :
    (n : ℕ) (last delta v : ℤ) (r : List ℕ) (vs : List ℤ) (rest : List ℕ)
    → IsI32 v
    → IsI32 last
    → IsDelta delta
    → untrack_loop n 2 v (v -ℤ last) r ≡ ok (vs, rest)
    → untrack_loop (suc n) 2 last delta (write_signed (v -ℤ last -ℤ delta) ++ r) ≡ ok (v ∷ vs, rest)
unfolding untrack_loop next_delta
second_delta_step n last delta v r vs rest hv hl hd e =
    let (p, q) = sub-IsDelta v last hv hl in
    let (up, down) = sub_small (v -ℤ last) delta in
    rw
      (
        signed-write (v -ℤ last -ℤ delta) r (omega arith, omega arith),
        add_sub (v -ℤ last) delta,
        fits_64 (v -ℤ last) (omega arith, omega arith),
        add_sub v last,
        fits_64 v (omega arith, omega arith),
        fits_32 v hv,
        e,
      )
      refl

deltas_loop :
    (vs : List ℤ) (last delta : ℤ) (r : List ℕ)
    → IsI32 last
    → All IsI32 vs
    → untrack_loop (length vs) 1 last delta (deltas last vs ++ r) ≡ ok (vs, r)
unfolding deltas
deltas_loop [] last delta r hl h = unfold untrack_loop in refl
deltas_loop (v ∷ vs) last delta r hl (hv, h) =
    rw (append_assoc (write_signed (v -ℤ last)) (deltas v vs) r) (
      delta_step (length vs) last delta v (deltas v vs ++ r) vs r hv hl
        (deltas_loop vs v (v -ℤ last) r hv h))

second_deltas_loop :
    (vs : List ℤ) (last delta : ℤ) (r : List ℕ)
    → IsI32 last
    → IsDelta delta
    → All IsI32 vs
    → untrack_loop (length vs) 2 last delta (second_deltas last delta vs ++ r) ≡ ok (vs, r)
unfolding second_deltas
second_deltas_loop [] last delta r hl hd h = unfold untrack_loop in refl
second_deltas_loop (v ∷ vs) last delta r hl hd (hv, h) =
    rw (append_assoc (write_signed (v -ℤ last -ℤ delta)) (second_deltas v (v -ℤ last) vs) r) (
      second_delta_step (length vs) last delta v (second_deltas v (v -ℤ last) vs ++ r) vs r hv hl hd
        (second_deltas_loop vs v (v -ℤ last) r hv (sub-IsDelta v last hv hl) h))

-- The head of a track.
untrack-head :
    (mode : ℕ) (first : ℤ) (vs : List ℤ) (more r : List ℕ)
    → ltb 2 mode ≡ false
    → IsI32 first
    → untrack_loop (length vs) mode first (pos 0) more ≡ ok (vs, r)
    → untrack (suc (length vs)) (mode ∷ (write_i32 first ++ more)) ≡ ok (first ∷ vs, r)
unfolding untrack
untrack-head mode first vs more r known h e =
    let count : suc (length vs) - 1 ≡ length vs = omega arith in
    rw (count, u8-byte mode (write_i32 first ++ more), known, i32-write first more h, e) refl

-- For a list of i32 values that is not empty, whichever mode `track` chooses, `untrack` takes
-- exactly its bytes and gives the values.
pub untrack-track :
    (first : ℤ) (vs : List ℤ) (r : List ℕ)
    → IsI32 first
    → All IsI32 vs
    → untrack (suc (length vs)) (track first vs ++ r) ≡ ok (first ∷ vs, r)
unfolding track
untrack-track first vs r hf h = elim (Bool-cases (all_equal first vs)) [
  | inl e ↦ rw e (untrack-head 0 first vs r r refl hf (constant_loop vs first (pos 0) r e))
  | inr e ↦
      elim (Bool-cases (ltb (length (second_deltas first (pos 0) vs)) (length (deltas first vs)))) [
        | inl shorter ↦
            rw (e, shorter, append_assoc (write_i32 first) (second_deltas first (pos 0) vs) r)
              (untrack-head 2 first vs (second_deltas first (pos 0) vs ++ r) r refl hf
                (second_deltas_loop vs first (pos 0) r hf (omega arith, omega arith) h))
        | inr longer ↦
            rw (e, longer, append_assoc (write_i32 first) (deltas first vs) r)
              (untrack-head 1 first vs (deltas first vs ++ r) r refl hf
                (deltas_loop vs first (pos 0) r hf h))
      ]
]
