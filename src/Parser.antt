-- ===== src/Parser.antt =====
-- lambda/replay_parser/native/src/main.rs: parts of the replay parser.
pub mod Bounded
pub mod Reduce
pub mod Occupancy
mod Examples
