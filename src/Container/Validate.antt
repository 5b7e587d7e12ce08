-- ===== src/Container/Validate.antt =====
-- `SourceContract::validate`, `validate_parts` and `validate_manifest` of viewer.rs.
use halospawns_infra.Prelude.{
  ℕ, suc, Bool, ◌&&◌, ◌||◌, not, List, [], ◌∷◌, length, leb, ◌==◌, if◌then◌else◌,
}
use halospawns_infra.Prelude.Results.{Result, ok, err, ◌>>=◌, ok_or}
use halospawns_infra.Delta.Codes.{Text, keyframe_interval}
use halospawns_infra.Delta.Writer.{text_eq}
use halospawns_infra.Delta.Value.{object}
use halospawns_infra.Delta.ExactEqual.{deep_exact_equal}
use halospawns_infra.Container.{
  Error, SourceContract, ChunkPart, PartsDescriptor, ManifestChunk, ViewerManifest, World,
  checked_add, ◌>>◌, refuse_if, viewer_schema, viewer_profile, parts_schema, producer_text,
  viewer_delta_format, viewer_pose_format, max_ticks, invalid_contract, invalid_descriptor,
  invalid_sequence, unsafe_filename, missing_file, changed_chunk, tick_overflow, raw_overflow,
  compressed_overflow, invalid_coverage, manifest_mismatch, chunk_mismatch, offset_overflow,
}

-- fn viewer_format
unfoldable pub viewer_format : ℕ → Text
viewer_format revision =
    if leb 4 revision && leb revision 5 then viewer_pose_format else viewer_delta_format

unfoldable pub same_contract : SourceContract → SourceContract → Bool
same_contract a b =
    text_eq a.schema b.schema
    && (text_eq a.profile b.profile
        && ((a.profile_revision == b.profile_revision)
            && (text_eq a.projection_sha256 b.projection_sha256 && (a.tick_count == b.tick_count))))

-- What `validate_parts` has added up, with the index that `enumerate` gives.
pub record Coverage : Type 0 where
  pub expected_index : ℕ
  pub expected_first_tick : ℕ
  pub raw_bytes : ℕ
  pub compressed_bytes : ℕ

unfoldable pub invalid_chunk : Coverage → ChunkPart → Bool
invalid_chunk c p =
    not (p.index == c.expected_index)
    || (not (p.first_tick == c.expected_first_tick)
        || (not (leb 1 p.tick_count && leb p.tick_count keyframe_interval)
            || ((p.raw_bytes == 0)
                || ((p.compressed_bytes == 0)
                    || (not (length p.compressed_sha256 == 64)
                        || not (length p.tick_sha256 == 64))))))

unfoldable pub add_chunk : Coverage → ChunkPart → Result Error Coverage
unfolding checked_add
add_chunk c p = do
  first_tick ← checked_add c.expected_first_tick p.tick_count tick_overflow
  raw ← checked_add c.raw_bytes p.raw_bytes raw_overflow
  compressed ← checked_add c.compressed_bytes p.compressed_bytes compressed_overflow
  ok (record {
    expected_index = suc c.expected_index;
    expected_first_tick = first_tick;
    raw_bytes = raw;
    compressed_bytes = compressed;
  })

module _ (W : World) where
  open W use {file, pinned, sha256, is_safe, is_blank}

  unfoldable pub is_pinned : ℕ → Text → Bool
  is_pinned revision digest = (leb 1 revision && leb revision 5) && text_eq digest (pinned revision)

  -- SourceContract::validate
  unfoldable pub validate_contract : SourceContract → ℕ → Result Error (Unit {0})
  unfolding is_pinned
  validate_contract s tick_count =
      refuse_if
        (not (text_eq s.schema viewer_schema)
          || (not (text_eq s.profile viewer_profile)
              || (not (is_pinned s.profile_revision s.projection_sha256)
                  || not (s.tick_count == tick_count))))
        invalid_contract

  -- safe_child_path, and the file that it names
  unfoldable pub read_child : Text → Result Error (List ℕ)
  read_child name = if is_safe name then ok_or (file name) missing_file else err unsafe_filename

  unfoldable pub has_changed : ChunkPart → List ℕ → Bool
  has_changed p bytes =
      not (length bytes == p.compressed_bytes) || not (text_eq (sha256 bytes) p.compressed_sha256)

  -- The body of the loop of `validate_parts`.
  unfoldable pub validate_chunk : ChunkPart → Coverage → Result Error Coverage
  unfolding invalid_chunk read_child has_changed add_chunk
  validate_chunk p c =
      refuse_if (invalid_chunk c p) invalid_sequence
      >> (read_child p.compressed_file >>= λ bytes.
          (refuse_if (has_changed p bytes) changed_chunk >> add_chunk c p))

  unfoldable pub validate_chunks : List ChunkPart → Coverage → Result Error Coverage
  unfolding validate_chunk
  validate_chunks [] c = ok c
  validate_chunks (p ∷ ps) c = do c' ← validate_chunk p c; validate_chunks ps c'

  unfoldable pub invalid_totals : PartsDescriptor → Coverage → Bool
  invalid_totals parts c =
      not (c.expected_first_tick == parts.tick_count)
      || (not (c.raw_bytes == parts.raw_chunk_bytes)
          || not (c.compressed_bytes == parts.compressed_chunk_bytes))

  abbrev pub no_coverage : Coverage
  no_coverage = record {
    expected_index = 0;
    expected_first_tick = 0;
    raw_bytes = 0;
    compressed_bytes = 0;
  }

  unfoldable pub invalid_parts : PartsDescriptor → Bool
  invalid_parts parts =
      not (text_eq parts.schema parts_schema)
      || (not (text_eq parts.producer producer_text)
          || not (leb 1 parts.tick_count && leb parts.tick_count max_ticks))

  -- fn validate_parts; the pair that it gives is in the coverage.
  unfoldable pub validate_parts : PartsDescriptor → Result Error Coverage
  unfolding invalid_parts validate_contract validate_chunks invalid_totals
  validate_parts parts =
      refuse_if (invalid_parts parts) invalid_descriptor
      >> validate_contract parts.source_contract parts.tick_count
      >> (validate_chunks parts.chunks no_coverage >>= λ c.
          (refuse_if (invalid_totals parts c) invalid_coverage >> ok c))

  unfoldable pub differs : ViewerManifest → PartsDescriptor → Bool
  unfolding viewer_format same_contract deep_exact_equal
  differs m parts =
      not (text_eq m.format (viewer_format parts.source_contract.profile_revision))
      || (is_blank m.replay_id
          || (is_blank m.recorded_at
              || (not (m.keyframe_interval == keyframe_interval)
                  || (not (m.tick_count == parts.tick_count)
                      || (not (same_contract m.source_contract parts.source_contract)
                          || (not (length m.chunks == length parts.chunks)
                              || not
                                  (deep_exact_equal (object m.replay) (object parts.replay))))))))

unfoldable pub chunk_differs : ManifestChunk → ChunkPart → ℕ → Bool
chunk_differs m p expected_offset =
    not (m.index == p.index)
    || (not (m.offset == expected_offset)
        || (not (m.first_tick == p.first_tick)
            || (not (m.tick_count == p.tick_count)
                || (not (m.raw_bytes == p.raw_bytes)
                    || (not (m.compressed_bytes == p.compressed_bytes)
                        || (not (text_eq m.compressed_sha256 p.compressed_sha256)
                            || not (text_eq m.tick_sha256 p.tick_sha256)))))))

-- `manifest.chunks.iter().zip(&parts.chunks)`
unfoldable pub match_chunks : List ManifestChunk → List ChunkPart → ℕ → Result Error (Unit {0})
unfolding chunk_differs checked_add
match_chunks [] ps offset = ok tt
match_chunks (m ∷ ms) [] offset = ok tt
match_chunks (m ∷ ms) (p ∷ ps) offset =
    refuse_if (chunk_differs m p offset) chunk_mismatch
    >> (checked_add offset p.compressed_bytes offset_overflow >>= match_chunks ms ps)

-- fn validate_manifest
unfoldable pub validate_manifest :
    World → ViewerManifest → PartsDescriptor → Result Error (Unit {0})
unfolding differs match_chunks
validate_manifest W m parts =
    refuse_if (differs W m parts) manifest_mismatch >> match_chunks m.chunks parts.chunks 0
