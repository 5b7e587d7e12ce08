-- ===== src/Container/Finished.antt =====
-- What `finalize_container` of viewer.rs leaves behind.
use halospawns_infra.Prelude.{ℕ, ◌≤◌, ◌≡◌, some, List, ◌++◌, length}
use halospawns_infra.Container.{
  PartsDescriptor, ViewerManifest, World, container_header_bytes, max_artifact_bytes,
}
use halospawns_infra.Container.Parts.{Tiled}
use halospawns_infra.Container.Placed.{Located}

-- What a finished container is.
pub record IsContainer (W : World) (parts : PartsDescriptor) (raw output : List ℕ) : Type 0 where
  pub manifest : ViewerManifest
  pub header : List ℕ
  pub compressed : List ℕ
  pub region : List ℕ
  pub parsed : W.parse_manifest raw ≡ some manifest
  pub layout : output ≡ (header ++ compressed) ++ region
  pub header_size : length header ≡ container_header_bytes
  pub restores : W.decompress compressed (length raw) ≡ some raw
  pub tiled : Tiled 0 0 parts.chunks parts.tick_count
  pub located : Located W manifest.chunks parts.chunks region
  pub small : length output ≤ max_artifact_bytes
