-- ===== src/Delta/Chunk.antt =====
-- `encode_chunk` and `decode_chunk` of viewer.rs: up to 2048 ticks, the first one whole and the
-- others as deltas. `decode_chunk_semantic_hash` reads a chunk in the same way, and hashes the ticks.
pub mod RoundTrip
pub mod Scalars
use halospawns_infra.Prelude.{
  ℕ, zero, suc, ◌-◌, Bool, true, false, ◌&&◌, not, Option, none, some, List, [], ◌∷◌, length, ltb,
  leb, ◌==◌, if◌then◌else◌,
}
use halospawns_infra.Prelude.Results.{Result, ok, err}
use halospawns_infra.Delta.Error.{
  Error, empty_chunk, invalid_magic, unsupported_version, invalid_tick_count, trailing_bytes,
}
use halospawns_infra.Delta.Codes.{chunk_magic, chunk_version, keyframe_interval, max_json_depth}
use halospawns_infra.Delta.Floats.{Floats}
use halospawns_infra.Delta.Value.{Value}
use halospawns_infra.Delta.Writer
use halospawns_infra.Delta.Writer.{Write, Table, text_eq}
use halospawns_infra.Delta.Write.{write_value}
use halospawns_infra.Delta.WriteDelta.{write_delta}
use halospawns_infra.Delta.Reader
use halospawns_infra.Delta.Reader.{M, ◌>>=◌, ◌>>◌, BinaryReader, pure, raise, byte, varuint}
use halospawns_infra.Delta.Read.{read_value}
use halospawns_infra.Delta.ReadDelta.{read_patched}

abbrev pub bytes_of : Result Error (List ℕ × Table) → Result Error (List ℕ)
bytes_of (ok (out, table)) = ok out
bytes_of (err e) = err e

module _ (F : Floats) where
  -- `for index in 1..ticks.len()`, with the two ticks before.
  unfoldable pub write_ticks : Value → Option Value → List Value → Write
  write_ticks previous before [] = Writer.done
  write_ticks previous before (tick ∷ ticks) =
      Writer.◌>>◌ (write_delta F (some previous) tick before)
        (write_ticks tick (some previous) ticks)

  unfoldable pub write_chunk : ℕ → Value → List Value → Write
  write_chunk first_tick tick ticks = Writer.◌>>◌ (Writer.bytes chunk_magic) (
      Writer.◌>>◌ (Writer.byte chunk_version) (
        Writer.◌>>◌ (Writer.varuint first_tick) (
          Writer.◌>>◌ (Writer.varuint (suc (length ticks)))
            (Writer.◌>>◌ (write_value F tick) (write_ticks tick none ticks)))))

  -- fn encode_chunk
  unfoldable pub encode_chunk : List Value → ℕ → Result Error (List ℕ)
  unfolding write_chunk
  encode_chunk [] first_tick = err empty_chunk
  encode_chunk (tick ∷ ticks) first_tick = bytes_of (write_chunk first_tick tick ticks [])

-- The depth of a tick is 1.
abbrev pub levels : ℕ
levels = max_json_depth

module _ (F : Floats) (is_utf8 : List ℕ → Bool) where
  unfoldable pub read_ticks : ℕ → Value → Option Value → M (List Value)
  read_ticks zero previous before = pure []
  read_ticks (suc n) previous before = do
    tick ← read_patched F is_utf8 levels (some previous) before
    ticks ← read_ticks n tick (some previous)
    pure (tick ∷ ticks)

  -- `if reader.offset != bytes.len()`
  unfoldable pub end_of_bytes : M (Unit {0})
  end_of_bytes r = if length r.bytes == 0 then ok (tt, r) else err trailing_bytes

  unfoldable pub read_body : M (ℕ × List Value)
  read_body = do
    first_tick ← varuint
    count ← varuint
    if leb 1 count && leb count keyframe_interval
        then (do
          tick ← read_value F is_utf8 levels
          ticks ← read_ticks (count - 1) tick none
          end_of_bytes
          pure (first_tick, tick ∷ ticks))
        else raise invalid_tick_count

  unfoldable pub read_chunk : M (ℕ × List Value)
  read_chunk = do
    magic ← Reader.bytes 4
    if not (text_eq magic chunk_magic) then raise invalid_magic else do
      version ← byte
      if version == chunk_version then read_body else raise unsupported_version

  abbrev value_of : Result Error ((ℕ × List Value) × BinaryReader) → Result Error (ℕ × List Value)
  value_of (ok (v, r)) = ok v
  value_of (err e) = err e

  -- fn decode_chunk
  unfoldable pub decode_chunk : List ℕ → Result Error (ℕ × List Value)
  decode_chunk bytes = value_of (read_chunk (record { bytes = bytes; strings = [] }))
