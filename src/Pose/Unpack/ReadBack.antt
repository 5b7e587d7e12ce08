-- ===== src/Pose/Unpack/ReadBack.antt =====
-- A run that the encoder of the pose codec writes is read back by `unpack`.
use halospawns_infra.Prelude.{
  ℕ, suc, ◌+◌, ◌*◌, ◌%◌, ◌^◌, ◌<◌, ◌≤◌, ◌≡◌, refl, ap, true, false, ◌||◌, not, some, List, [], ◌∷◌,
  ◌++◌, map, length, replicate, All, ltb, leb, ◌==◌, arith,
}
use halospawns_infra.Prelude.Results.{ok}
use halospawns_infra.Prelude.Int.{ℤ, pos, negsuc, ◌+ℤ◌, ◌-ℤ◌}
use halospawns_infra.Pose.Error.{too_many_raw}
use halospawns_infra.Pose.Wire.{M, ◌>>=◌, ◌>>◌, pure, u16, write_u16, bits_of, end_of_bytes}
use halospawns_infra.Pose.Wire.Gives.{
  Gives, Gives-bind, Gives-then, Gives-pure, Gives-u8, Gives-u16,
}
use halospawns_infra.Pose.Track.{ℤ_eq}
use halospawns_infra.Pose.Runs.{
  Frame, Run, expect, count_raw, write_parents, write_nodes, write_raw, write_run, write_each,
  write_runs,
}
use halospawns_infra.Pose.Runs.Verified.{IsParent, IsRun, parent_back, Gives-expect, count_raw-le}
use halospawns_infra.Pose.Skeleton.{order}
use halospawns_infra.Pose.Unpack.{
  Grid, Decoded, max_players, check_order, read_parents, read_nodes, read_raws, read_run, read_each,
  read_runs,
}
use halospawns_infra.Pose.Unpack.Filled.{
  fill_nodes, IsShaped, fill_nodes-IsShaped, Gives-read_nodes,
}
use halospawns_infra.Pose.Unpack.Raw.{RawIsPose, raws_from, Gives-raws}

ℤ_eq_sound : (a b : ℤ) → ℤ_eq a b ≡ true → a ≡ b
unfolding ℤ_eq
ℤ_eq_sound (pos a) (pos b) h = ground arith
ℤ_eq_sound (pos a) (negsuc b) h = cc
ℤ_eq_sound (negsuc a) (pos b) h = cc
ℤ_eq_sound (negsuc a) (negsuc b) h = ground arith

Gives-read_parents :
    (ps : List ℤ) → All IsParent ps → Gives (read_parents (length ps)) (write_parents ps) ps
unfolding read_parents write_parents
Gives-read_parents [] h = Gives-pure []
Gives-read_parents (p ∷ ps) (hp, h) =
    let same = ℤ_eq_sound (pos (bits_of 8 (p +ℤ pos 1)) -ℤ pos 1) p (parent_back p hp) in
    Gives-bind {out = bits_of 8 (p +ℤ pos 1) ∷ []} _ _ (Gives-u8 (bits_of 8 (p +ℤ pos 1)))
      (rw same (Gives-then _ _ (Gives-read_parents ps h) (Gives-pure (p ∷ ps))))

-- A run that fits the limits of `unpack`: so many ticks, and so many poses in the runs before.
pub record IsReadable (ticks poses : ℕ) (r : Run) : Type 0 where
  pub is_run : IsRun r
  pub some_bone : 1 ≤ length r.parents
  pub few_bones : length r.parents ≤ 64
  pub few_players : r.player < max_players
  pub inside : r.first + length r.frames ≤ ticks
  pub few_poses : poses + length r.frames ≤ ticks * max_players
  pub ordered : (xs : List ℕ) × (order r.parents ≡ some (ok xs))
  pub shaped : All (IsShaped (length r.parents)) r.frames
  pub raw_poses : All (λ (f : Frame). RawIsPose (length r.parents) f.raw) r.frames

abbrev start_grid : ℕ → Grid
start_grid bones = replicate bones (replicate 8 (pos 0))

map-start : (fs : List Frame) (g : Grid) → map (λ (f : Frame). g) fs ≡ replicate (length fs) g
map-start [] g = refl
map-start (f ∷ fs) g = ap (λ (t : List Grid). g ∷ t) (map-start fs g)

map-filled :
    (bones : ℕ) (fs : List Frame)
    → All (IsShaped bones) fs
    → map (λ (f : Frame). fill_nodes bones 0 f (start_grid bones)) fs
      ≡ map (λ (f : Frame). f.values) fs
map-filled bones [] h = refl
map-filled bones (f ∷ fs) (hf, h) = rw (fill_nodes-IsShaped bones f hf, map-filled bones fs h) refl

-- What is read of a run.
abbrev pub decoded : Run → Decoded
decoded r = record {
  start = r.first;
  player = r.player;
  parents = r.parents;
  frames = map (λ (f : Frame). f.values) r.frames;
  raw = raws_from 0 r.frames;
}

module _ (ticks poses : ℕ) (r : Run) (is : IsReadable ticks poses r) where
  Gives-frames :
      Gives
        (read_nodes
          (length r.parents)
          0
          (length r.frames)
          (replicate (length r.frames) (start_grid (length r.parents))))
        (write_nodes (length r.parents) 0 r.frames)
        (map (λ (f : Frame). f.values) r.frames)
  Gives-frames =
      rw
        (
          map-start r.frames (start_grid (length r.parents)),
          map-filled (length r.parents) r.frames is.shaped,
        )
        at
        (Gives-read_nodes r.frames is.is_run.some_frame is.is_run.values_fit (length r.parents) 0
          (λ _. start_grid (length r.parents)))

  Gives-order :
      {out : List ℕ} {a : Decoded} (k : M Decoded)
      → Gives k out a
      → Gives (check_order (order r.parents) >> k) out a
  Gives-order k g = rw (is.ordered.1) (record { gives = λ rest. g.gives rest })

  in_bounds :
      not (
        (length r.frames == 0)
        || (ltb ticks (r.first + length r.frames)
            || (leb max_players r.player
                || ((length r.parents == 0) || ltb 64 (length r.parents)))))
      ≡ true
  in_bounds =
      let frames_some : (length r.frames == 0) ≡ false = ground (arith, is.is_run.some_frame) in
      let in_ticks : ltb ticks (r.first + length r.frames) ≡ false = ground (arith, is.inside) in
      let a_player : leb max_players r.player ≡ false = ground (arith, is.few_players) in
      let bones_some : (length r.parents == 0) ≡ false = ground (arith, is.some_bone) in
      let bones_few : ltb 64 (length r.parents) ≡ false = ground (arith, is.few_bones) in
      rw (frames_some, in_ticks, a_player, bones_some, bones_few) refl

  -- What follows the header.
  after_header :
      Gives
        (do
          parents ← read_parents (length r.parents)
          check_order (order parents)
          frames ←
              read_nodes
                (length r.parents)
                0
                (length r.frames)
                (replicate (length r.frames) (start_grid (length r.parents)))
          raw_count ← u16
          expect (not (ltb (length r.frames) raw_count)) too_many_raw
          raw ← read_raws raw_count (length r.frames) (length r.parents) []
          pure (record {
            start = r.first;
            player = r.player;
            parents = parents;
            frames = frames;
            raw = raw;
          }))
        (write_parents r.parents
          ++ (write_nodes (length r.parents) 0 r.frames
              ++ (write_u16 (count_raw r.frames) ++ write_raw 0 r.frames)))
        (decoded r)
  after_header =
      let raw_few = count_raw-le r.frames in
      Gives-bind _ _ (Gives-read_parents r.parents is.is_run.parents_fit) (
        Gives-order _ (
          Gives-bind _ _ Gives-frames (
            Gives-bind _ _
              (Gives-u16 (count_raw r.frames) (omega (arith, raw_few, is.is_run.few_frames)))
              (Gives-expect _ _ _ (ground (arith, raw_few)) (
                Gives-then _ _
                  (Gives-raws (length r.frames) (length r.parents) is.is_run.few_frames r.frames 0
                    [] (omega arith) tt is.raw_poses)
                  (Gives-pure (decoded r)))))))

  Gives-read_run : Gives (read_run ticks poses) (write_run r) (decoded r)
  unfolding read_run write_run
  Gives-read_run =
      let player_byte : r.player % 256 ≡ r.player = omega (arith, is.is_run.player_fits) in
      let bones_byte : length r.parents % 256 ≡ length r.parents = omega (arith, is.few_bones) in
      let raw_few = count_raw-le r.frames in
      rw (player_byte, bones_byte)
        (Gives-bind _ _ (Gives-u16 r.first is.is_run.first_fits) (
          Gives-bind {out = r.player ∷ []} _ _ (Gives-u8 r.player) (
            Gives-bind _ _ (Gives-u16 (length r.frames) is.is_run.few_frames) (
              Gives-bind {out = length r.parents ∷ []} _ _ (Gives-u8 (length r.parents)) (
                Gives-expect _ _ _ in_bounds
                  (Gives-expect _ _ _ (ground (arith, is.few_poses)) after_header))))))

-- Runs one after another that fit, behind so many poses.
abbrev pub AllReadable : ℕ → ℕ → List Run → Type 0
AllReadable ticks poses [] = Unit
AllReadable ticks poses (r ∷ rs) =
    IsReadable ticks poses r × AllReadable ticks (poses + length r.frames) rs

length-map : (fs : List Frame) → length (map (λ (f : Frame). f.values) fs) ≡ length fs
length-map [] = refl
length-map (f ∷ fs) = ap (λ (n : ℕ). suc n) (length-map fs)

read_each-write_each :
    (ticks poses : ℕ) (runs : List Run)
    → AllReadable ticks poses runs
    → read_each (length runs) ticks poses (write_each runs) ≡ ok (map decoded runs, [])
unfolding read_each write_each end_of_bytes
read_each-write_each ticks poses [] h = refl
read_each-write_each ticks poses (r ∷ rs) (is, h) =
    rw
      (
        (Gives-read_run ticks poses r is).gives (write_each rs),
        length-map r.frames,
        read_each-write_each ticks (poses + length r.frames) rs h,
      )
      refl

-- If there are less than 2^16 runs, not more than sixteen for each tick, and each fits the limits
-- of `unpack`, that is, it has i32 values, eight for each bone of each frame, from 1 to 64 bones
-- with parents that `order` accepts, a player below 16, frames inside the ticks, no more poses so
-- far than sixteen for each tick, and raw poses of thirteen finite numbers for each bone, then
-- what `unpack` reads of the written runs takes all bytes and has each run's start, player,
-- parents, the values of all frames and the raw poses with their indices.
pub read_runs-write_runs :
    (ticks : ℕ) (runs : List Run)
    → length runs < 2 ^ 16
    → length runs ≤ ticks * max_players
    → AllReadable ticks 0 runs
    → read_runs ticks (write_runs runs) ≡ ok (map decoded runs, [])
unfolding read_runs write_runs
read_runs-write_runs ticks runs few in_ticks h =
    let allowed : ltb (ticks * max_players) (length runs) ≡ false = ground (arith, in_ticks) in
    rw ((Gives-u16 (length runs) few).gives (write_each runs), allowed)
      (read_each-write_each ticks 0 runs h)
