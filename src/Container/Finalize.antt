-- ===== src/Container/Finalize.antt =====
-- `container_header` and `finalize_container` of viewer.rs. The output is the bytes of the file that is put
-- in place; the durations of the result are left out.
use halospawns_infra.Prelude.{
  ℕ, ◌+◌, ◌^◌, Bool, false, ◌&&◌, ◌||◌, not, Option, none, some, List, [], ◌∷◌, ◌++◌, length,
  replicate, ltb, leb, ◌==◌, if◌then◌else◌,
}
use halospawns_infra.Prelude.Results.{Result, ok, err, ◌>>=◌, ok_or}
use halospawns_infra.Delta.Writer.{text_eq}
use halospawns_infra.Delta.Write.{to_le}
use halospawns_infra.Container.{
  Error, ChunkPart, PartsDescriptor, World, checked_add, ◌>>◌, refuse_if, container_magic,
  container_magic_2, container_header_bytes, container_version, manifest_compression, zstd_level,
  max_artifact_bytes, max_uncompressed_bytes, schema_violation, unreadable_manifest,
  compression_failed, compression_changed, container_overflow, uncompressed_overflow, size_limit,
  header_overflow, output_overflow, count_changed, unsupported_revision,
}
use halospawns_infra.Container.Validate.{Coverage, validate_parts, validate_manifest, read_child}

-- `(4..=5).contains(&revision)`
abbrev pub has_poses : ℕ → Bool
has_poses revision = leb 4 revision && leb revision 5

abbrev pub overflows_u32 : ℕ → Bool
overflows_u32 v = leb (2 ^ 32) v

-- The bytes of the header, for a magic and a version.
unfoldable pub header_bytes : List ℕ → ℕ → ℕ → ℕ → ℕ → List ℕ
unfolding to_le
header_bytes magic version compressed raw total_bytes =
    magic
    ++ (to_le 2 container_header_bytes
        ++ (to_le 2 version
            ++ (to_le 4 manifest_compression
                ++ (to_le 4 compressed
                    ++ (to_le 4 raw ++ (to_le 4 total_bytes ++ replicate 4 0))))))

-- fn container_header, and the other magic and version for poses, which `finalize_container` puts over it
unfoldable pub container_header : ℕ → ℕ → ℕ → ℕ → Result Error (List ℕ)
unfolding header_bytes
container_header revision compressed raw total_bytes =
    if overflows_u32 compressed || (overflows_u32 raw || overflows_u32 total_bytes)
    then err header_overflow
    else if has_poses revision
    then ok (header_bytes container_magic_2 2 compressed raw total_bytes)
    else ok (header_bytes container_magic container_version compressed raw total_bytes)

-- fn manifest_schema_json, as far as it fails
unfoldable pub check_revision : ℕ → Result Error (Unit {0})
check_revision revision = refuse_if (not (leb 1 revision && leb revision 5)) unsupported_revision

abbrev pub level_of : ℕ → ℕ
level_of revision = if has_poses revision then 6 else zstd_level

unfoldable pub sum_three : ℕ → ℕ → ℕ → Error → Result Error ℕ
unfolding checked_add
sum_three a b c e = do s ← checked_add a b e; checked_add s c e

module _ (W : World) where
  open W use {satisfies_schema, parse_manifest, compress, decompress}

  unfoldable pub is_bytes : Option (List ℕ) → List ℕ → Bool
  is_bytes none bytes = false
  is_bytes (some found) bytes = text_eq found bytes

  -- Compression, and the check of it
  unfoldable pub compress_manifest : ℕ → List ℕ → Result Error (List ℕ)
  unfolding is_bytes
  compress_manifest revision raw = do
    compressed ← ok_or (compress (level_of revision) raw) compression_failed
    refuse_if (not (is_bytes (decompress compressed (length raw)) raw)) compression_changed
    ok compressed

  -- What is written, and the count of it
  unfoldable pub copy_chunks : List ChunkPart → List ℕ → ℕ → Result Error (List ℕ × ℕ)
  unfolding read_child checked_add
  copy_chunks [] output written = ok (output, written)
  copy_chunks (p ∷ ps) output written = do
    bytes ← read_child W p.compressed_file
    written' ← checked_add written (length bytes) output_overflow
    copy_chunks ps (output ++ bytes) written'

  -- From the compressed manifest on
  unfoldable pub assemble : PartsDescriptor → Coverage → List ℕ → List ℕ → Result Error (List ℕ)
  unfolding sum_three container_header copy_chunks
  assemble parts c raw compressed = do
    size ←
        sum_three container_header_bytes (length compressed) c.compressed_bytes container_overflow
    uncompressed ← sum_three container_header_bytes (length raw) c.raw_bytes uncompressed_overflow
    refuse_if (ltb max_artifact_bytes size || ltb max_uncompressed_bytes uncompressed) size_limit
    header ←
        container_header parts.source_contract.profile_revision (length compressed) (length raw)
          size
    (output, written) ←
        copy_chunks parts.chunks (header ++ compressed) (length header + length compressed)
    refuse_if (not (written == size) || not (length output == size)) count_changed
    ok output

  -- fn finalize_container
  unfoldable pub finalize_container : PartsDescriptor → List ℕ → Result Error (List ℕ)
  unfolding validate_parts check_revision validate_manifest compress_manifest assemble
  finalize_container parts raw = do
    c ← validate_parts W parts
    check_revision parts.source_contract.profile_revision
    refuse_if (not (satisfies_schema parts.source_contract.profile_revision raw)) schema_violation
    manifest ← ok_or (parse_manifest raw) unreadable_manifest
    validate_manifest W manifest parts
    compressed ← compress_manifest parts.source_contract.profile_revision raw
    assemble parts c raw compressed
