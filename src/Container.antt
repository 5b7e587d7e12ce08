-- ===== src/Container.antt =====
-- The container of viewer.rs: what its parts and its manifest say of the chunks, and what `finalize_container`
-- writes. Files, SHA-256, zstd, the parsers of JSON and of paths, and the closed schema are parameters.
pub mod Validate
pub mod Finalize
pub mod Parts
pub mod Placed
pub mod Finished
mod Examples
use halospawns_infra.Prelude.{
  ℕ, ◌+◌, ◌^◌, Bool, true, false, ◌&&◌, ◌||◌, not, Option, none, some, List, [], ◌∷◌, ltb, leb,
  ◌==◌, if◌then◌else◌,
}
use halospawns_infra.Prelude.Results.{Result, ok, err, ◌>>=◌}
use halospawns_infra.Delta.Codes.{Text}
use halospawns_infra.Delta.Value.{Fields}

abbrev pub viewer_schema : Text
viewer_schema =
    b'h' ∷ b'a' ∷ b'l' ∷ b'o' ∷ b's' ∷ b'p' ∷ b'a' ∷ b'w' ∷ b'n' ∷ b's' ∷ b'.' ∷ b'v' ∷ b'i' ∷ b'e'
    ∷ b'w' ∷ b'e' ∷ b'r' ∷ b'R' ∷ b'e' ∷ b'p' ∷ b'l' ∷ b'a' ∷ b'y' ∷ b'.' ∷ b'v' ∷ b'1' ∷ []

abbrev pub viewer_profile : Text
viewer_profile =
    b'f' ∷ b'r' ∷ b'o' ∷ b'n' ∷ b't' ∷ b'e' ∷ b'n' ∷ b'd' ∷ b'-' ∷ b'd' ∷ b'e' ∷ b'f' ∷ b'a' ∷ b'u'
    ∷ b'l' ∷ b't' ∷ []

abbrev pub parts_schema : Text
parts_schema =
    b'h' ∷ b'a' ∷ b'l' ∷ b'o' ∷ b's' ∷ b'p' ∷ b'a' ∷ b'w' ∷ b'n' ∷ b's' ∷ b'.' ∷ b'v' ∷ b'i' ∷ b'e'
    ∷ b'w' ∷ b'e' ∷ b'r' ∷ b'R' ∷ b'e' ∷ b'p' ∷ b'l' ∷ b'a' ∷ b'y' ∷ b'D' ∷ b'e' ∷ b'l' ∷ b't'
    ∷ b'a' ∷ b'P' ∷ b'a' ∷ b'r' ∷ b't' ∷ b's' ∷ b'.' ∷ b'v' ∷ b'1' ∷ []

abbrev pub producer_text : Text
producer_text =
    b'r' ∷ b'u' ∷ b's' ∷ b't' ∷ b'-' ∷ b's' ∷ b'e' ∷ b'r' ∷ b'd' ∷ b'e' ∷ b'_' ∷ b'j' ∷ b's' ∷ b'o'
    ∷ b'n' ∷ b'-' ∷ b'n' ∷ b'a' ∷ b't' ∷ b'i' ∷ b'v' ∷ b'e' ∷ b'-' ∷ b'c' ∷ b'o' ∷ b'n' ∷ b't'
    ∷ b'a' ∷ b'i' ∷ b'n' ∷ b'e' ∷ b'r' ∷ []

abbrev pub viewer_delta_format : Text
viewer_delta_format =
    b'h' ∷ b'a' ∷ b'l' ∷ b'o' ∷ b's' ∷ b'p' ∷ b'a' ∷ b'w' ∷ b'n' ∷ b's' ∷ b'.' ∷ b'v' ∷ b'i' ∷ b'e'
    ∷ b'w' ∷ b'e' ∷ b'r' ∷ b'R' ∷ b'e' ∷ b'p' ∷ b'l' ∷ b'a' ∷ b'y' ∷ b'D' ∷ b'e' ∷ b'l' ∷ b't'
    ∷ b'a' ∷ b'.' ∷ b'v' ∷ b'1' ∷ []

abbrev pub viewer_pose_format : Text
viewer_pose_format =
    b'h' ∷ b'a' ∷ b'l' ∷ b'o' ∷ b's' ∷ b'p' ∷ b'a' ∷ b'w' ∷ b'n' ∷ b's' ∷ b'.' ∷ b'v' ∷ b'i' ∷ b'e'
    ∷ b'w' ∷ b'e' ∷ b'r' ∷ b'R' ∷ b'e' ∷ b'p' ∷ b'l' ∷ b'a' ∷ b'y' ∷ b'D' ∷ b'e' ∷ b'l' ∷ b't'
    ∷ b'a' ∷ b'.' ∷ b'v' ∷ b'2' ∷ []

abbrev pub container_magic : Text
container_magic = b'H' ∷ b'S' ∷ b'R' ∷ b'D' ∷ b'C' ∷ b'0' ∷ b'0' ∷ b'1' ∷ []

abbrev pub container_magic_2 : Text
container_magic_2 = b'H' ∷ b'S' ∷ b'R' ∷ b'D' ∷ b'C' ∷ b'0' ∷ b'0' ∷ b'2' ∷ []

abbrev pub container_header_bytes : ℕ
container_header_bytes = 32

abbrev pub container_version : ℕ
container_version = 1

abbrev pub manifest_compression : ℕ
manifest_compression = 1

abbrev pub zstd_level : ℕ
zstd_level = 19

abbrev pub max_ticks : ℕ
max_ticks = 432000

abbrev pub max_artifact_bytes : ℕ
max_artifact_bytes = 536870912

abbrev pub max_uncompressed_bytes : ℕ
max_uncompressed_bytes = 8589934592

-- One error for each message, and for each failure of what is called.
pub data Error : Type 0 where
  invalid_contract invalid_descriptor invalid_sequence unsafe_filename missing_file : Error
  changed_chunk tick_overflow raw_overflow compressed_overflow invalid_coverage : Error
  schema_violation unreadable_manifest manifest_mismatch chunk_mismatch offset_overflow : Error
  compression_failed compression_changed container_overflow uncompressed_overflow : Error
  size_limit header_overflow output_overflow count_changed unsupported_revision : Error

pub record SourceContract : Type 0 where
  pub schema : Text
  pub profile : Text
  pub profile_revision : ℕ
  pub projection_sha256 : Text
  pub tick_count : ℕ

pub record ChunkPart : Type 0 where
  pub index : ℕ
  pub first_tick : ℕ
  pub tick_count : ℕ
  pub raw_bytes : ℕ
  pub compressed_file : Text
  pub compressed_bytes : ℕ
  pub compressed_sha256 : Text
  pub tick_sha256 : Text

-- `PartsDescriptor`, with the two metrics that are checked.
pub record PartsDescriptor : Type 0 where
  pub schema : Text
  pub source_contract : SourceContract
  pub tick_count : ℕ
  pub replay : Fields
  pub chunks : List ChunkPart
  pub producer : Text
  pub raw_chunk_bytes : ℕ
  pub compressed_chunk_bytes : ℕ

pub record ManifestChunk : Type 0 where
  pub index : ℕ
  pub offset : ℕ
  pub first_tick : ℕ
  pub tick_count : ℕ
  pub raw_bytes : ℕ
  pub compressed_bytes : ℕ
  pub compressed_sha256 : Text
  pub tick_sha256 : Text

pub record ViewerManifest : Type 0 where
  pub format : Text
  pub source_contract : SourceContract
  pub replay_id : Text
  pub recorded_at : Text
  pub keyframe_interval : ℕ
  pub tick_count : ℕ
  pub chunks : List ManifestChunk
  pub replay : Fields

-- What the code calls: the files of the directory, the five pinned digests of projections, SHA-256 in
-- hexadecimal, zstd at a level and back to a length, and the parser and the schema of the manifest.
pub record World : Type 0 where
  pub file : Text → Option (List ℕ)
  pub pinned : ℕ → Text
  pub sha256 : List ℕ → Text
  pub is_safe : Text → Bool
  pub is_blank : Text → Bool
  pub satisfies_schema : ℕ → List ℕ → Bool
  pub parse_manifest : List ℕ → Option ViewerManifest
  pub compress : ℕ → List ℕ → Option (List ℕ)
  pub decompress : List ℕ → ℕ → Option (List ℕ)

-- `checked_add` of u64, which a usize is on the 64-bit targets of the code
unfoldable pub checked_add : ℕ → ℕ → Error → Result Error ℕ
checked_add a b e = if ltb (a + b) (2 ^ 64) then ok (a + b) else err e

-- A check before the rest.
infixr 5 ◌>>◌
abbrev pub ◌>>◌ : {A : Type 0} → Result Error (Unit {0}) → Result Error A → Result Error A
m >> rest = m >>= λ _. rest

abbrev pub refuse_if : Bool → Error → Result Error (Unit {0})
refuse_if true e = err e
refuse_if false e = ok tt
