-- ===== src/Pose/Runs.antt =====
-- The runs of poses of wire.rs: how `Encoder::finish` writes them, and how `verify_tracks` checks what
-- was written. An f64 of a raw pose is its pattern of 64 bits.
pub mod Verified
use halospawns_infra.Prelude.{
  ℕ, zero, suc, ◌+◌, ◌-◌, ◌%◌, ◌^◌, ◌<◌, Bool, true, false, ◌&&◌, ◌||◌, not, Option, none, some,
  List, [], ◌∷◌, ◌++◌, length, map, get_elem?, ◌==◌, if◌then◌else◌,
}
use halospawns_infra.Prelude.Int.{ℤ, pos, negsuc, ◌+ℤ◌, ◌-ℤ◌}
use halospawns_infra.Delta.Write.{to_le}
use halospawns_infra.Delta.Writer.{text_eq}
use halospawns_infra.Pose.Error.{
  Error, run_count_changed, run_header_changed, parent_changed, track_changed, raw_count_changed,
  raw_index_changed, raw_value_changed,
}
use halospawns_infra.Pose.Wire
use halospawns_infra.Pose.Wire.{
  M, ◌>>=◌, ◌>>◌, pure, raise, u8, u16, write_u16, bits_of, end_of_bytes,
}
use halospawns_infra.Pose.Track.{ℤ_eq, track, untrack}

-- A frame: eight integers for each node, and the pose itself if it could not be quantized.
pub record Frame : Type 0 where
  pub values : List (List ℤ)
  pub raw : Option (List (List ℕ))

-- A run: the frames of one player from the tick `first` on. Its identity, tag and the state of the
-- quantizer are not written.
pub record Run : Type 0 where
  pub first : ℕ
  pub player : ℕ
  pub parents : List ℤ
  pub frames : List Frame

-- `f.values[node][ch]`; the indices are in range.
abbrev pub or_zero : Option ℤ → ℤ
or_zero none = pos 0
or_zero (some v) = v

abbrev pub or_empty : Option (List ℤ) → List ℤ
or_empty none = []
or_empty (some vs) = vs

unfoldable pub value_at : ℕ → ℕ → Frame → ℤ
value_at node ch f = or_zero (get_elem? (or_empty (get_elem? f.values node)) ch)

unfoldable pub channel : ℕ → ℕ → List Frame → List ℤ
channel node ch [] = []
channel node ch (f ∷ fs) = value_at node ch f ∷ channel node ch fs

-- `track(&values, &mut w)`; a run has a frame, and with none the code would panic.
unfoldable pub write_track : List ℤ → List ℕ
write_track [] = []
write_track (v ∷ vs) = track v vs

-- `for ch in 0..8`, from the channel `ch` on
unfoldable pub write_channels : ℕ → ℕ → ℕ → List Frame → List ℕ
write_channels zero node ch frames = []
write_channels (suc left) node ch frames =
    write_track (channel node ch frames) ++ write_channels left node (ch + 1) frames

-- `for node in 0..r.parents.len()`
unfoldable pub write_nodes : ℕ → ℕ → List Frame → List ℕ
write_nodes zero node frames = []
write_nodes (suc left) node frames =
    write_channels 8 node 0 frames ++ write_nodes left (node + 1) frames

-- `(p + 1) as u8`
unfoldable pub write_parents : List ℤ → List ℕ
unfolding bits_of
write_parents [] = []
write_parents (p ∷ ps) = bits_of 8 (p +ℤ pos 1) ∷ write_parents ps

unfoldable pub write_components : List ℕ → List ℕ
write_components [] = []
write_components (v ∷ vs) = to_le 8 v ++ write_components vs

unfoldable pub write_pose : List (List ℕ) → List ℕ
write_pose [] = []
write_pose (node ∷ nodes) = write_components node ++ write_pose nodes

unfoldable pub count_raw : List Frame → ℕ
count_raw [] = 0
count_raw (f ∷ fs) = elim f.raw [ none ↦ count_raw fs | some pose ↦ suc (count_raw fs) ]

unfoldable pub write_raw_frame : ℕ → Option (List (List ℕ)) → List ℕ
write_raw_frame index none = []
write_raw_frame index (some pose) = write_u16 index ++ write_pose pose

unfoldable pub write_raw : ℕ → List Frame → List ℕ
write_raw index [] = []
write_raw index (f ∷ fs) = write_raw_frame index f.raw ++ write_raw (index + 1) fs

-- The loop over the runs in `finish`.
unfoldable pub write_run : Run → List ℕ
write_run r =
    write_u16 r.first
    ++ ((r.player % 256)
        ∷ (write_u16 (length r.frames)
            ++ ((length r.parents % 256)
                ∷ (write_parents r.parents
                    ++ (write_nodes (length r.parents) 0 r.frames
                        ++ (write_u16 (count_raw r.frames) ++ write_raw 0 r.frames))))))

unfoldable pub write_each : List Run → List ℕ
write_each [] = []
write_each (r ∷ rs) = write_run r ++ write_each rs

unfoldable pub write_runs : List Run → List ℕ
write_runs runs = write_u16 (length runs) ++ write_each runs

-- fn verify_tracks, from the inside out: each check reads and compares.
abbrev pub expect : Bool → Error → M (Unit {0})
expect true e = pure tt
expect false e = raise e

unfoldable pub same_values : List ℤ → List ℤ → Bool
same_values [] ws = true
same_values (v ∷ vs) [] = true
same_values (v ∷ vs) (w ∷ ws) = ℤ_eq v w && same_values vs ws

unfoldable pub verify_channels : ℕ → ℕ → ℕ → List Frame → M (Unit {0})
verify_channels zero node ch frames = pure tt
verify_channels (suc left) node ch frames = do
  decoded ← untrack (length frames)
  expect (same_values decoded (channel node ch frames)) track_changed
  verify_channels left node (ch + 1) frames

unfoldable pub verify_nodes : ℕ → ℕ → List Frame → M (Unit {0})
verify_nodes zero node frames = pure tt
verify_nodes (suc left) node frames = do
  verify_channels 8 node 0 frames
  verify_nodes left (node + 1) frames

unfoldable pub verify_parents : List ℤ → M (Unit {0})
verify_parents [] = pure tt
verify_parents (p ∷ ps) = do
  b ← u8
  expect (ℤ_eq (pos b -ℤ pos 1) p) parent_changed
  verify_parents ps

unfoldable pub verify_components : List ℕ → M (Unit {0})
verify_components [] = pure tt
verify_components (v ∷ vs) = do
  bs ← Wire.bytes 8
  expect (text_eq bs (to_le 8 v)) raw_value_changed
  verify_components vs

unfoldable pub verify_pose : List (List ℕ) → M (Unit {0})
verify_pose [] = pure tt
verify_pose (node ∷ nodes) = do verify_components node; verify_pose nodes

unfoldable pub verify_raw_frame : ℕ → Option (List (List ℕ)) → M (Unit {0})
verify_raw_frame index none = pure tt
verify_raw_frame index (some pose) = do
  i ← u16
  expect (i == index) raw_index_changed
  verify_pose pose

unfoldable pub verify_raw : ℕ → List Frame → M (Unit {0})
verify_raw index [] = pure tt
verify_raw index (f ∷ fs) = do verify_raw_frame index f.raw; verify_raw (index + 1) fs

-- The header of a run; `||` stops at the first part that differs, and then nothing more is read.
unfoldable pub verify_header : Run → M (Unit {0})
verify_header r = do
  first ← u16
  expect (first == r.first) run_header_changed
  player ← u8
  expect (player == r.player) run_header_changed
  frames ← u16
  expect (frames == length r.frames) run_header_changed
  bones ← u8
  expect (bones == length r.parents) run_header_changed

unfoldable pub verify_run : Run → M (Unit {0})
verify_run r = do
  verify_header r
  verify_parents r.parents
  verify_nodes (length r.parents) 0 r.frames
  raw ← u16
  expect (raw == count_raw r.frames) raw_count_changed
  verify_raw 0 r.frames

unfoldable pub verify_each : List Run → M (Unit {0})
verify_each [] = end_of_bytes
verify_each (r ∷ rs) = do verify_run r; verify_each rs

-- fn verify_tracks
unfoldable pub verify_tracks : List Run → M (Unit {0})
verify_tracks runs = do
  count ← u16
  expect (count == length runs) run_count_changed
  verify_each runs
