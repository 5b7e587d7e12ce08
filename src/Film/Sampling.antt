-- ===== src/Film/Sampling.antt =====
-- `sample_count` and `output_tick` of lambda/h1_film/encoder/src/sampling.rs: which of the retained ticks
-- shows what happened at a tick of the source.
pub mod Nearest
pub mod Retime
pub mod Gathered
use halospawns_infra.Prelude.{ℕ, ◌+◌, ◌-◌, ◌/◌, min}

-- `a.div_ceil(b)`, for b not 0
unfoldable pub div_ceil : ℕ → ℕ → ℕ
div_ceil a b = (a + (b - 1)) / b

-- fn sample_count
unfoldable pub sample_count : ℕ → ℕ → ℕ
unfolding div_ceil
sample_count source_ticks stride = div_ceil source_ticks stride

-- fn output_tick; for count 0 the code's subtraction would fail.
unfoldable pub output_tick : ℕ → ℕ → ℕ → ℕ
unfolding div_ceil
output_tick ordinal stride count = min (div_ceil ordinal stride) (count - 1)
