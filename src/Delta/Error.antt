-- ===== src/Delta/Error.antt =====
-- The errors of the viewer delta codec (lambda/replay_parser/native/src/viewer.rs), one constructor
-- for each message of the code.
pub data Error : Type 0 where
  -- the writer
  exceeds_safe_range nonfinite_number empty_xor empty_chunk : Error
  -- the limits on source values
  source_depth source_string : Error
  -- the byte reader
  unexpected_end integer_overflow unsafe_integer malformed_integer malformed_string_reference :
      Error
  invalid_utf8 integer_out_of_range : Error
  -- the value reader
  decoded_depth malformed_sign decoded_nonfinite : Error
  unknown_value_tag : Error
  -- the patch reader
  patch_depth missing_same_base missing_xor_base malformed_xor_base malformed_xor : Error
  missing_float32_base malformed_float32_base malformed_float32_xor malformed_float32_difference :
      Error
  missing_integer_base malformed_integer_base unsafe_integer_delta : Error
  missing_prediction_base malformed_prediction_base missing_history malformed_history : Error
  malformed_object_base malformed_array_base malformed_array_index undefined_item : Error
  malformed_dense_base malformed_float32_array_base malformed_history_length : Error
  missing_dense_history malformed_bitpacked missing_bitpacked_history : Error
  unknown_delta_tag : Error
  -- the chunk reader
  invalid_magic unsupported_version invalid_tick_count trailing_bytes : Error
