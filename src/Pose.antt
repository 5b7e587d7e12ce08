-- ===== src/Pose.antt =====
-- lambda/h1_film/pose_codec: poses as tracks of integers.
pub mod Error
pub mod Wire
pub mod Track
pub mod Runs
pub mod Skeleton
pub mod Unpack
mod Examples
