-- ===== src/Container/Placed.antt =====
-- Where the container of viewer.rs has the chunks, and where the manifest says that they are.
use mathlib.Core.List.{append_assoc, append-nil}
use halospawns_infra.Prelude.{
  ℕ, ◌≡◌, refl, sym, ◌∙◌, false, List, [], ◌∷◌, ◌++◌, length, length-append, take, drop,
  take-append, drop-append, arith,
}
use halospawns_infra.Prelude.Results.{ok}
use halospawns_infra.Delta.Wire.{text_eq_sound}
use halospawns_infra.Container.{
  ChunkPart, ManifestChunk, World, checked_add, chunk_mismatch, offset_overflow, output_overflow,
}
use halospawns_infra.Container.Validate.{read_child, chunk_differs, match_chunks}
use halospawns_infra.Container.Finalize.{copy_chunks}
use halospawns_infra.Container.Parts.{ok_same, bind_ok, passed, checked_add_ok, Contents}

-- At the offset and with the length that the manifest has for a chunk stand the bytes of its file, whose
-- digest is the manifest's; the ticks are those of the part.
abbrev pub Located : World → List ManifestChunk → List ChunkPart → List ℕ → Type 0
Located W [] ps region = ps ≡ []
Located W (m ∷ ms) [] region = ⊥
Located W (m ∷ ms) (p ∷ ps) region =
    (read_child W p.compressed_file ≡ ok (take m.compressed_bytes (drop m.offset region)))
    × (W.sha256 (take m.compressed_bytes (drop m.offset region)) ≡ m.compressed_sha256)
    × (m.first_tick ≡ p.first_tick)
    × (m.tick_count ≡ p.tick_count)
    × Located W ms ps region

chunk_agrees :
    (m : ManifestChunk) (p : ChunkPart) (offset : ℕ)
    → chunk_differs m p offset ≡ false
    → (m.offset ≡ offset)
      × (m.compressed_bytes ≡ p.compressed_bytes)
      × (m.compressed_sha256 ≡ p.compressed_sha256)
      × (m.first_tick ≡ p.first_tick)
      × (m.tick_count ≡ p.tick_count)
unfolding chunk_differs
chunk_agrees m p offset e = (
  ground arith,
  ground arith,
  text_eq_sound m.compressed_sha256 p.compressed_sha256 (ground arith),
  ground arith,
  ground arith,
)

middle :
    (before own rest : List ℕ) (n k : ℕ)
    → n ≡ length own
    → k ≡ length before
    → take n (drop k (before ++ (own ++ rest))) ≡ own
middle before own rest n k en ek =
    rw (en, ek, drop-append before (own ++ rest)) (take-append own rest)

pub match_chunks-Located :
    (W : World) (ms : List ManifestChunk) (ps : List ChunkPart) (before bytes : List ℕ) (offset : ℕ)
    → match_chunks ms ps offset ≡ ok tt
    → length ms ≡ length ps
    → offset ≡ length before
    → Contents W ps bytes
    → Located W ms ps (before ++ bytes)
unfolding match_chunks
match_chunks-Located W [] [] before bytes offset h n o c = refl
match_chunks-Located W [] (p ∷ ps) before bytes offset h n o c = absurd (omega arith)
match_chunks-Located W (m ∷ ms) [] before bytes offset h n o c = absurd (omega arith)
match_chunks-Located W (m ∷ ms) (p ∷ ps) before bytes offset h n o
      (own, rest, file, size, digest, parts, contents) =
    let (same, going) = passed (chunk_differs m p offset) chunk_mismatch _ h in
    let (next, added, others) =
      bind_ok (checked_add offset p.compressed_bytes offset_overflow) _ going in
    let (at_offset, m_size, m_digest, m_first, m_count) = chunk_agrees m p offset same in
    let is_own : take m.compressed_bytes (drop m.offset (before ++ bytes)) ≡ own =
      rw (parts)
        (middle before own rest m.compressed_bytes m.offset (m_size ∙ sym size) (at_offset ∙ o)) in
    (
      rw (is_own) file,
      rw (is_own) (digest ∙ sym m_digest),
      m_first,
      m_count,
      rw (parts, ← append_assoc before own rest)
          (match_chunks-Located W ms ps (before ++ own) rest next others (omega (arith, n))
            (checked_add_ok offset p.compressed_bytes offset_overflow added
              ∙ omega (arith, o, size, length-append before own))
            contents),
    )

pub copy_chunks_ok :
    (W : World) (ps : List ChunkPart) (output : List ℕ) (written : ℕ) (bytes : List ℕ)
    {r : List ℕ × ℕ}
    → copy_chunks W ps output written ≡ ok r
    → Contents W ps bytes
    → r.0 ≡ output ++ bytes
unfolding copy_chunks
copy_chunks_ok W [] output written bytes h c = rw (← ok_same h, c, append-nil) refl
copy_chunks_ok W (p ∷ ps) output written bytes h (own, rest, file, size, digest, parts, contents) =
    let (found, reading, h1) = bind_ok (read_child W p.compressed_file) _ h in
    let (next, added, h2) = bind_ok (checked_add written (length found) output_overflow) _ h1 in
    let is_own : found ≡ own = ok_same (sym reading ∙ file) in
    copy_chunks_ok W ps (output ++ found) next rest h2 contents
    ∙ rw (is_own, parts) (append_assoc output own rest)
