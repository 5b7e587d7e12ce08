-- ===== src/Container/Examples.antt =====
-- The theorem on finished containers, applied to one of two chunks.
use halospawns_infra.Prelude.{
  ℕ, some, true, false, List, [], ◌∷◌, ◌++◌, length, replicate, if◌then◌else◌,
}
use halospawns_infra.Delta.Codes.{Text}
use halospawns_infra.Delta.Value.{end}
use halospawns_infra.Delta.Writer.{text_eq}
use halospawns_infra.Container.{
  World, SourceContract, ChunkPart, PartsDescriptor, ManifestChunk, ViewerManifest, viewer_schema,
  viewer_profile, parts_schema, producer_text, viewer_delta_format,
}

abbrev digest : List ℕ → Text
digest bytes = replicate 64 (length bytes)

abbrev contract : SourceContract
contract = record {
  schema = viewer_schema;
  profile = viewer_profile;
  profile_revision = 2;
  projection_sha256 = replicate 64 2;
  tick_count = 2050;
}

abbrev first_part : ChunkPart
first_part = record {
  index = 0;
  first_tick = 0;
  tick_count = 2048;
  raw_bytes = 9;
  compressed_file = b'a' ∷ [];
  compressed_bytes = 3;
  compressed_sha256 = digest (1 ∷ 2 ∷ 3 ∷ []);
  tick_sha256 = replicate 64 7;
}

abbrev second_part : ChunkPart
second_part = record {
  index = 1;
  first_tick = 2048;
  tick_count = 2;
  raw_bytes = 8;
  compressed_file = b'b' ∷ [];
  compressed_bytes = 2;
  compressed_sha256 = digest (4 ∷ 5 ∷ []);
  tick_sha256 = replicate 64 8;
}

abbrev two_parts : PartsDescriptor
two_parts = record {
  schema = parts_schema;
  source_contract = contract;
  tick_count = 2050;
  replay = end;
  chunks = first_part ∷ second_part ∷ [];
  producer = producer_text;
  raw_chunk_bytes = 17;
  compressed_chunk_bytes = 5;
}

abbrev chunk_of : ChunkPart → ℕ → ManifestChunk
chunk_of p offset = record {
  index = p.index;
  offset = offset;
  first_tick = p.first_tick;
  tick_count = p.tick_count;
  raw_bytes = p.raw_bytes;
  compressed_bytes = p.compressed_bytes;
  compressed_sha256 = p.compressed_sha256;
  tick_sha256 = p.tick_sha256;
}

abbrev two_chunks : ViewerManifest
two_chunks = record {
  format = viewer_delta_format;
  source_contract = contract;
  replay_id = b'r' ∷ [];
  recorded_at = b't' ∷ [];
  keyframe_interval = 2048;
  tick_count = 2050;
  chunks = chunk_of first_part 0 ∷ chunk_of second_part 3 ∷ [];
  replay = end;
}

-- A directory of two files, and a compression that keeps the bytes.
abbrev plain_world : World
plain_world = record {
  file = λ name. if text_eq name (b'a' ∷ []) then some (1 ∷ 2 ∷ 3 ∷ []) else some (4 ∷ 5 ∷ []);
  pinned = λ revision. replicate 64 revision;
  sha256 = digest;
  is_safe = λ name. true;
  is_blank = λ text. false;
  satisfies_schema = λ revision raw. true;
  parse_manifest = λ raw. some two_chunks;
  compress = λ level raw. some raw;
  decompress = λ compressed size. some compressed;
}

abbrev container : List ℕ
container =
    (b'H' ∷ b'S' ∷ b'R' ∷ b'D' ∷ b'C' ∷ b'0' ∷ b'0' ∷ b'1' ∷ [])
    ++ ((32 ∷ 0 ∷ 1 ∷ 0 ∷ 1 ∷ 0 ∷ 0 ∷ 0 ∷ [])
        ++ ((1 ∷ 0 ∷ 0 ∷ 0 ∷ 1 ∷ 0 ∷ 0 ∷ 0 ∷ 38 ∷ 0 ∷ 0 ∷ 0 ∷ 0 ∷ 0 ∷ 0 ∷ 0 ∷ [])
            ++ (99 ∷ 1 ∷ 2 ∷ 3 ∷ 4 ∷ 5 ∷ [])))
