-- ===== src/Pose/Runs/Verified.antt =====
-- What `Encoder::finish` of wire.rs writes passes `verify_tracks`.
use halospawns_infra.Prelude.{
  ℕ, zero, suc, ◌+◌, ◌%◌, ◌^◌, ◌≤◌, ◌<◌, ◌≡◌, refl, ap, Bool, true, Option, none, some, List, [],
  ◌∷◌, ◌++◌, length, All, ◌==◌, arith, Option-cases, inl, inr,
}
use halospawns_infra.Prelude.Results.{ok}
use halospawns_infra.Prelude.Int.{ℤ, pos, negsuc, pos_part, neg_part, ◌+ℤ◌, ◌-ℤ◌}
use halospawns_infra.Delta.Write.{to_le}
use halospawns_infra.Delta.Wire.{text_eq_refl}
use halospawns_infra.Pose.Error.{Error}
use halospawns_infra.Pose.Wire
use halospawns_infra.Pose.Wire.{M, ◌>>=◌, ◌>>◌, pure, u8, u16, write_u16, bits_of, end_of_bytes}
use halospawns_infra.Pose.Wire.Bytes.{IsI32}
use halospawns_infra.Pose.Wire.Gives.{Gives, Gives-bind, Gives-pure, Gives-u8, Gives-u16}
use halospawns_infra.Pose.Track.{ℤ_eq, untrack}
use halospawns_infra.Pose.Track.RoundTrip.{untrack-track}
use halospawns_infra.Pose.Runs.{
  Frame, Run, channel, write_track, write_channels, write_nodes, write_parents, write_components,
  write_pose, count_raw, write_raw_frame, write_raw, write_run, write_each, write_runs, expect,
  same_values, verify_channels, verify_nodes, verify_parents, verify_components, verify_pose,
  verify_raw_frame, verify_raw, verify_header, verify_run, verify_each, verify_tracks,
}

-- A parent that fits the byte `p + 1`.
abbrev pub IsParent : ℤ → Type 0
IsParent p = (pos_part p < 255) × (neg_part p ≤ 1)

-- A run whose parts fit their fields.
pub record IsRun (r : Run) : Type 0 where
  pub first_fits : r.first < 2 ^ 16
  pub player_fits : r.player < 256
  pub some_frame : 1 ≤ length r.frames
  pub few_frames : length r.frames < 2 ^ 16
  pub few_bones : length r.parents < 256
  pub parents_fit : All IsParent r.parents
  pub values_fit : (node ch : ℕ) → All IsI32 (channel node ch r.frames)

pub ℤ_eq_refl : (a : ℤ) → ℤ_eq a a ≡ true
unfolding ℤ_eq
ℤ_eq_refl (pos a) = ground arith
ℤ_eq_refl (negsuc a) = ground arith

same_values_refl : (vs : List ℤ) → same_values vs vs ≡ true
unfolding same_values
same_values_refl [] = refl
same_values_refl (v ∷ vs) = rw (ℤ_eq_refl v, same_values_refl vs) refl

-- A check that holds.
pub Gives-expect :
    {A : Type 0} {out : List ℕ} {a : A} (t : Bool) (e : Error) (k : M A)
    → t ≡ true
    → Gives k out a
    → Gives (expect t e >> k) out a
Gives-expect t e k h g = rw h (record { gives = λ rest. g.gives rest })

pub Gives-expected : (t : Bool) (e : Error) → t ≡ true → Gives (expect t e) [] tt
Gives-expected t e h = rw h (Gives-pure tt)

pub ==_refl : (n : ℕ) → (n == n) ≡ true
==_refl n = ground arith

pub length-channel :
    (node ch : ℕ) (frames : List Frame) → length (channel node ch frames) ≡ length frames
unfolding channel
length-channel node ch [] = refl
length-channel node ch (f ∷ fs) = ap (λ (n : ℕ). suc n) (length-channel node ch fs)

pub Gives-track :
    (vs : List ℤ) → 1 ≤ length vs → All IsI32 vs → Gives (untrack (length vs)) (write_track vs) vs
unfolding write_track
Gives-track [] h all = absurd (omega arith)
Gives-track (v ∷ vs) h (hv, all) = record { gives = λ rest. untrack-track v vs rest hv all }

module _ (frames : List Frame) (some_frame : 1 ≤ length frames)
    (fit : (node ch : ℕ) → All IsI32 (channel node ch frames)) where
  Gives-channels :
      (left node ch : ℕ)
      → Gives (verify_channels left node ch frames) (write_channels left node ch frames) tt
  unfolding verify_channels write_channels
  Gives-channels zero node ch = Gives-pure tt
  Gives-channels (suc left) node ch =
      let size = length-channel node ch frames in
      Gives-bind _ _
        (rw size at (Gives-track (channel node ch frames) (omega (arith, size)) (fit node ch)))
        (Gives-expect _ _ _ (same_values_refl (channel node ch frames))
          (Gives-channels left node (ch + 1)))

  Gives-nodes :
      (left node : ℕ) → Gives (verify_nodes left node frames) (write_nodes left node frames) tt
  unfolding verify_nodes write_nodes
  Gives-nodes zero node = Gives-pure tt
  Gives-nodes (suc left) node =
      Gives-bind _ _ (Gives-channels 8 node 0) (Gives-nodes left (node + 1))

-- The byte of a parent gives the parent back.
pub parent_back : (p : ℤ) → IsParent p → ℤ_eq (pos (bits_of 8 (p +ℤ pos 1)) -ℤ pos 1) p ≡ true
unfolding ℤ_eq bits_of ◌+ℤ◌ ◌-ℤ◌
parent_back (pos a) (ha, hb) = ground arith
parent_back (negsuc zero) (ha, hb) = refl
parent_back (negsuc (suc a)) (ha, hb) = absurd (omega arith)

Gives-parents : (ps : List ℤ) → All IsParent ps → Gives (verify_parents ps) (write_parents ps) tt
unfolding verify_parents write_parents
Gives-parents [] h = Gives-pure tt
Gives-parents (p ∷ ps) (hp, h) =
    Gives-bind {out = bits_of 8 (p +ℤ pos 1) ∷ []} _ _ (Gives-u8 (bits_of 8 (p +ℤ pos 1)))
      (Gives-expect _ _ _ (parent_back p hp) (Gives-parents ps h))

pub Gives-word : (v : ℕ) → Gives (Wire.bytes 8) (to_le 8 v) (to_le 8 v)
unfolding Wire.bytes to_le
Gives-word v = record { gives = λ rest. ground arith }

Gives-components : (vs : List ℕ) → Gives (verify_components vs) (write_components vs) tt
unfolding verify_components write_components
Gives-components [] = Gives-pure tt
Gives-components (v ∷ vs) =
    Gives-bind _ _ (Gives-word v)
      (Gives-expect _ _ _ (text_eq_refl (to_le 8 v)) (Gives-components vs))

Gives-pose : (nodes : List (List ℕ)) → Gives (verify_pose nodes) (write_pose nodes) tt
unfolding verify_pose write_pose
Gives-pose [] = Gives-pure tt
Gives-pose (node ∷ nodes) = Gives-bind _ _ (Gives-components node) (Gives-pose nodes)

Gives-raw_frame :
    (index : ℕ) (raw : Option (List (List ℕ)))
    → index < 2 ^ 16
    → Gives (verify_raw_frame index raw) (write_raw_frame index raw) tt
unfolding verify_raw_frame write_raw_frame
Gives-raw_frame index none h = Gives-pure tt
Gives-raw_frame index (some pose) h =
    Gives-bind _ _ (Gives-u16 index h) (Gives-expect _ _ _ (==_refl index) (Gives-pose pose))

Gives-raw :
    (index : ℕ) (frames : List Frame)
    → index + length frames ≤ 2 ^ 16
    → Gives (verify_raw index frames) (write_raw index frames) tt
unfolding verify_raw write_raw
Gives-raw index [] h = Gives-pure tt
Gives-raw index (f ∷ fs) h =
    Gives-bind _ _ (Gives-raw_frame index f.raw (omega arith))
      (Gives-raw (index + 1) fs (omega (arith, h)))

pub count_raw-le : (frames : List Frame) → count_raw frames ≤ length frames
unfolding count_raw
count_raw-le [] = omega arith
count_raw-le (f ∷ fs) = elim (Option-cases f.raw) [
  | inl e ↦ rw e (omega (arith, count_raw-le fs))
  | inr (pose, e) ↦ rw e (omega (arith, count_raw-le fs))
]

Gives-header :
    (r : Run)
    → IsRun r
    → Gives
        (verify_header r)
        (write_u16 r.first
          ++ (((r.player % 256) ∷ [])
              ++ (write_u16 (length r.frames) ++ (((length r.parents % 256) ∷ []) ++ []))))
        tt
unfolding verify_header
Gives-header r is = Gives-bind _ _ (Gives-u16 r.first is.first_fits) (
    Gives-expect _ _ _ (==_refl r.first) (
      Gives-bind _ _ (Gives-u8 (r.player % 256)) (
        Gives-expect _ _ _ (ground (arith, is.player_fits)) (
          Gives-bind _ _ (Gives-u16 (length r.frames) is.few_frames) (
            Gives-expect _ _ _ (==_refl (length r.frames)) (
              Gives-bind _ _ (Gives-u8 (length r.parents % 256))
                (Gives-expected _ _ (ground (arith, is.few_bones)))))))))

Gives-run : (r : Run) → IsRun r → Gives (verify_run r) (write_run r) tt
unfolding verify_run write_run write_u16 to_le
Gives-run r is = Gives-bind _ _ (Gives-header r is) (
    Gives-bind _ _ (Gives-parents r.parents is.parents_fit) (
      Gives-bind _ _ (Gives-nodes r.frames is.some_frame is.values_fit (length r.parents) 0) (
        Gives-bind _ _
          (Gives-u16 (count_raw r.frames) (omega (arith, count_raw-le r.frames, is.few_frames)))
          (Gives-expect _ _ _ (==_refl (count_raw r.frames))
            (Gives-raw 0 r.frames (omega (arith, is.few_frames)))))))

Gives-each : (runs : List Run) → All IsRun runs → verify_each runs (write_each runs) ≡ ok (tt, [])
unfolding verify_each write_each end_of_bytes
Gives-each [] h = refl
Gives-each (r ∷ rs) (is, h) = rw ((Gives-run r is).gives (write_each rs)) (Gives-each rs h)

-- If there are less than 2^16 runs, and each has at least one frame, numbers of frames, bones and
-- players that fit their fields, parents from -1 to 254 and channels of i32 values, then the check
-- of the encoder succeeds on the bytes that it wrote and takes them all.
pub verify_tracks-write_runs :
    (runs : List Run)
    → length runs < 2 ^ 16
    → All IsRun runs
    → verify_tracks runs (write_runs runs) ≡ ok (tt, [])
unfolding verify_tracks write_runs
verify_tracks-write_runs runs few h =
    rw ((Gives-u16 (length runs) few).gives (write_each runs), ==_refl (length runs))
      (Gives-each runs h)
