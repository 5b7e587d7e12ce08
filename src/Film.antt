-- ===== src/Film.antt =====
-- lambda/h1_film/encoder: parts of the film encoder.
pub mod Pool
pub mod TextEqual
pub mod FloatDelta
pub mod OrderedDelta
pub mod Refill
pub mod Sampling
mod Examples
pub mod Combat
pub mod Counters
