-- ===== src/Delta.antt =====
-- lambda/replay_parser/native/src/viewer.rs: the viewer's delta codec.
pub mod Error
pub mod Codes
pub mod Reader
pub mod Writer
pub mod Sync
pub mod Wire
pub mod Floats
pub mod Value
pub mod Read
pub mod Write
pub mod Keys
pub mod Values
pub mod Difference
pub mod Numbers
pub mod PatchNumber
pub mod Same
pub mod FloatArray
pub mod WriteDelta
pub mod ExactEqual
pub mod Safety
pub mod Slots
pub mod PatchFloats
pub mod ReadDelta
pub mod Chunk
pub mod XorTrip
pub mod DifferenceTrip
pub mod NumberTrip
pub mod ScalarTrip
pub mod FloatTrip
pub mod FloatModes
pub mod FloatChoice
pub mod FloatItems
pub mod FloatDelta
pub mod Examples
pub mod Packed
