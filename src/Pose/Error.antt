-- ===== src/Pose/Error.antt =====
-- The errors of lambda/h1_film/pose_codec/src/wire.rs and pose.rs that the model can give.
pub data Error : Type 0 where
  -- the byte reader
  truncated varint_overflow invalid_varint trailing_bytes : Error
  -- tracks
  unknown_track_mode delta_overflow value_overflow out_of_range : Error
  -- the order of a skeleton
  invalid_size invalid_parent cyclic_skeleton : Error
  -- the last stands for a round more than the model has
  missing_skeleton rounds_run_out : Error
  -- the check of a block by its encoder
  run_count_changed run_header_changed parent_changed track_changed : Error
  raw_count_changed raw_index_changed raw_value_changed : Error
  -- the runs of a block
  too_many_runs invalid_run_bounds too_many_poses too_many_raw invalid_raw_index nonfinite_raw :
      Error
