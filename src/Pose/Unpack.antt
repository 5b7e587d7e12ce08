-- ===== src/Pose/Unpack.antt =====
-- How `unpack` of lambda/h1_film/pose_codec/src/wire.rs reads a run of poses. An f64 of a raw pose is its
-- pattern of 64 bits, and the map of raw poses is a list of them with their indices.
pub mod Filled
pub mod Raw
pub mod ReadBack
use halospawns_infra.Prelude.{
  ℕ, zero, suc, ◌+◌, ◌*◌, Bool, true, false, ◌||◌, not, Option, none, some, List, [], ◌∷◌, ◌++◌,
  length, replicate, set, get_elem?, ltb, leb, ◌==◌, if◌then◌else◌,
}
use halospawns_infra.Prelude.Results.{Result, ok, err}
use halospawns_infra.Prelude.Int.{ℤ, pos, ◌-ℤ◌}
use halospawns_infra.Delta.Floats.{is_finite}
use halospawns_infra.Delta.Read.{from_le}
use halospawns_infra.Pose.Error.{
  Error, invalid_run_bounds, too_many_poses, too_many_raw, invalid_raw_index, nonfinite_raw,
  rounds_run_out, too_many_runs,
}
use halospawns_infra.Pose.Wire
use halospawns_infra.Pose.Wire.{M, ◌>>=◌, ◌>>◌, pure, raise, u8, u16, end_of_bytes}
use halospawns_infra.Pose.Track.{untrack}
use halospawns_infra.Pose.Runs.{or_empty, expect}
use halospawns_infra.Pose.Skeleton.{order}

-- MAX_PLAYERS of lib.rs
abbrev pub max_players : ℕ
max_players = 16

abbrev pub Grid : Type 0
Grid = List (List ℤ)

abbrev pub Raws : Type 0
Raws = List (ℕ × List (List ℕ))

-- What is read of a run.
pub record Decoded : Type 0 where
  pub start : ℕ
  pub player : ℕ
  pub parents : List ℤ
  pub frames : List Grid
  pub raw : Raws

unfoldable pub read_parents : ℕ → M (List ℤ)
read_parents zero = pure []
read_parents (suc n) = do p ← u8; ps ← read_parents n; pure ((pos p -ℤ pos 1) ∷ ps)

-- `f[node][ch] = v`, which is in range
unfoldable pub put_value : ℕ → ℕ → ℤ → Grid → Grid
put_value node ch v f = set f node (set (or_empty (get_elem? f node)) ch v)

unfoldable pub put_channel : ℕ → ℕ → List Grid → List ℤ → List Grid
unfolding put_value
put_channel node ch [] vs = []
put_channel node ch (f ∷ fs) [] = f ∷ fs
put_channel node ch (f ∷ fs) (v ∷ vs) = put_value node ch v f ∷ put_channel node ch fs vs

unfoldable pub read_channels : ℕ → ℕ → ℕ → ℕ → List Grid → M (List Grid)
unfolding put_channel
read_channels zero node ch n frames = pure frames
read_channels (suc left) node ch n frames = do
  values ← untrack n
  read_channels left node (ch + 1) n (put_channel node ch frames values)

unfoldable pub read_nodes : ℕ → ℕ → ℕ → List Grid → M (List Grid)
unfolding read_channels
read_nodes zero node n frames = pure frames
read_nodes (suc left) node n frames = do
  frames' ← read_channels 8 node 0 n frames
  read_nodes left (node + 1) n frames'

unfoldable pub has_raw : ℕ → Raws → Bool
has_raw index [] = false
has_raw index (r ∷ rs) = (r.0 == index) || has_raw index rs

unfoldable pub read_components : ℕ → M (List ℕ)
read_components zero = pure []
read_components (suc n) = do
  bs ← Wire.bytes 8
  expect (is_finite (from_le bs)) nonfinite_raw
  vs ← read_components n
  pure (from_le bs ∷ vs)

unfoldable pub read_pose : ℕ → M (List (List ℕ))
unfolding read_components
read_pose zero = pure []
read_pose (suc bones) = do node ← read_components 13; nodes ← read_pose bones; pure (node ∷ nodes)

-- `for _ in 0..raw_count`, with what the map has so far
unfoldable pub read_raws : ℕ → ℕ → ℕ → Raws → M Raws
unfolding read_pose has_raw
read_raws zero n bones raw = pure raw
read_raws (suc left) n bones raw = do
  index ← u16
  expect (not (leb n index || has_raw index raw)) invalid_raw_index
  pose ← read_pose bones
  read_raws left n bones (raw ++ ((index, pose) ∷ []))

-- `pose::order(&parents)?`; its rounds never run out.
abbrev pub check_order : Option (Result Error (List ℕ)) → M (Unit {0})
check_order none = raise rounds_run_out
check_order (some (ok sorted)) = pure tt
check_order (some (err e)) = raise e

-- The body of the loop over the runs, up to the poses put into the ticks; `poses` counts those of the
-- runs before.
unfoldable pub read_run : ℕ → ℕ → M Decoded
unfolding read_parents read_nodes read_raws
read_run ticks poses = do
  start ← u16
  player ← u8
  n ← u16
  bones ← u8
  expect
      (not (
        (n == 0)
        || (ltb ticks (start + n) || (leb max_players player || ((bones == 0) || ltb 64 bones)))))
      invalid_run_bounds
  expect (not (ltb (ticks * max_players) (poses + n))) too_many_poses
  parents ← read_parents bones
  check_order (order parents)
  frames ← read_nodes bones 0 n (replicate n (replicate bones (replicate 8 (pos 0))))
  raw_count ← u16
  expect (not (ltb n raw_count)) too_many_raw
  raw ← read_raws raw_count n bones []
  pure (record { start = start; player = player; parents = parents; frames = frames; raw = raw })

-- The loop over the runs, with the poses of the runs before, and the end of the bytes.
unfoldable pub read_each : ℕ → ℕ → ℕ → M (List Decoded)
unfolding read_run
read_each zero ticks poses = do end_of_bytes; pure []
read_each (suc left) ticks poses = do
  run ← read_run ticks poses
  runs ← read_each left ticks (poses + length run.frames)
  pure (run ∷ runs)

unfoldable pub read_runs : ℕ → M (List Decoded)
unfolding read_each
read_runs ticks = do
  count ← u16
  expect (not (ltb (ticks * max_players) count)) too_many_runs
  read_each count ticks 0
