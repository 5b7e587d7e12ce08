-- ===== src/Delta/Codes.antt =====
-- Constants of viewer.rs: the tags of values and deltas, the modes of float arrays, the limits.
use halospawns_infra.Prelude.{ℕ, List, [], ◌∷◌}

-- The bytes of a text (Rust's `str` is its UTF-8 bytes).
abbrev pub Text : Type 0
Text = List ℕ

-- CHUNK_MAGIC, the bytes of "HSRD".
abbrev pub chunk_magic : List ℕ
chunk_magic = b'H' ∷ b'S' ∷ b'R' ∷ b'D' ∷ []

abbrev pub chunk_version : ℕ
chunk_version = 1

abbrev pub keyframe_interval : ℕ
keyframe_interval = 2048

abbrev pub max_json_depth : ℕ
max_json_depth = 32

-- SAFE_INTEGER_MAX, 2^53 - 1.
abbrev pub safe_integer_max : ℕ
safe_integer_max = 9_007_199_254_740_991

abbrev pub value_null : ℕ
value_null = 0

abbrev pub value_false : ℕ
value_false = 1

abbrev pub value_true : ℕ
value_true = 2

abbrev pub value_integer : ℕ
value_integer = 3

abbrev pub value_float32 : ℕ
value_float32 = 4

abbrev pub value_float64 : ℕ
value_float64 = 5

abbrev pub value_string : ℕ
value_string = 6

abbrev pub value_array : ℕ
value_array = 7

abbrev pub value_object : ℕ
value_object = 8

abbrev pub delta_same : ℕ
delta_same = 0

abbrev pub delta_replace : ℕ
delta_replace = 1

abbrev pub delta_object : ℕ
delta_object = 2

abbrev pub delta_array : ℕ
delta_array = 3

abbrev pub delta_number_xor : ℕ
delta_number_xor = 4

abbrev pub delta_float32_xor : ℕ
delta_float32_xor = 5

abbrev pub delta_integer_difference : ℕ
delta_integer_difference = 6

abbrev pub delta_dense_array : ℕ
delta_dense_array = 7

abbrev pub delta_dense_float32_difference_array : ℕ
delta_dense_float32_difference_array = 8

abbrev pub delta_float32_difference : ℕ
delta_float32_difference = 9

abbrev pub delta_dense_float32_xor_array : ℕ
delta_dense_float32_xor_array = 10

abbrev pub delta_dense_float32_bit_prediction_array : ℕ
delta_dense_float32_bit_prediction_array = 11

abbrev pub delta_dense_float32_value_prediction_array : ℕ
delta_dense_float32_value_prediction_array = 12

abbrev pub delta_float32_bit_prediction : ℕ
delta_float32_bit_prediction = 13

abbrev pub delta_float32_value_prediction : ℕ
delta_float32_value_prediction = 14

abbrev pub delta_dense_float32_bitpacked_array : ℕ
delta_dense_float32_bitpacked_array = 15

abbrev pub float32_mode_xor : ℕ
float32_mode_xor = 0

abbrev pub float32_mode_difference : ℕ
float32_mode_difference = 1

abbrev pub float32_mode_bit_prediction : ℕ
float32_mode_bit_prediction = 2

abbrev pub float32_mode_value_prediction : ℕ
float32_mode_value_prediction = 3
