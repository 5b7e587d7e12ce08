-- ===== src/Delta/Chunk/Scalars.antt =====
-- Chunks of `encode_chunk` of viewer.rs whose ticks after the first have no parts.
use halospawns_infra.Prelude.{
  ℕ, Bool, ◌≤◌, ◌<◌, ◌≡◌, refl, ap, Option, none, some, List, [], ◌∷◌, length, arith,
}
use halospawns_infra.Prelude.Results.{ok}
use halospawns_infra.Delta.Codes.{max_json_depth, keyframe_interval}
use halospawns_infra.Delta.Floats.{Floats, Lawful, IsF64}
use halospawns_infra.Delta.Value.{Value, null, bool, number, string, array, object, depth, IsJson}
use halospawns_infra.Delta.Sync.{Reads, Reads-bind, Reads-bind_done, Reads-pure, Reads-implied}
use halospawns_infra.Delta.ScalarTrip.{IsScalar, Reads-scalar_delta}
use halospawns_infra.Delta.Chunk.{write_ticks, encode_chunk, read_ticks, decode_chunk}
use halospawns_infra.Delta.Chunk.RoundTrip.{bytes_of-written, decode-written}

module _ (is_utf8 : List ℕ → Bool) where
  -- Every value has no parts, and is JSON.
  unfoldable pub AllScalar : List Value → Type 0
  AllScalar [] = Unit
  AllScalar (v ∷ vs) = (IsScalar v × IsJson is_utf8 v) × AllScalar vs

  json_bits :
      (v : Value)
      → IsJson is_utf8 v
      → (p : ℕ) → ◌≡◌ {A = Option Value} (some v) (some (number p))
      → IsF64 p
  unfolding IsJson
  json_bits (number a) (bits, fin) p e = let same : a ≡ p = ground arith in rw (← same) bits
  json_bits null json p e = cc
  json_bits (bool b) json p e = cc
  json_bits (string s) json p e = cc
  json_bits (array vs) json p e = cc
  json_bits (object fs) json p e = cc

module _ (F : Floats) (L : Lawful F) (is_utf8 : List ℕ → Bool) where
  Reads-scalar_ticks :
      (previous : Value) (before : Option Value) (ticks : List Value)
      → IsJson is_utf8 previous
      → AllScalar is_utf8 ticks
      → Reads
          (write_ticks F previous before ticks)
          (read_ticks F is_utf8 (length ticks) previous before)
          (λ ts. ts ≡ ticks)
  unfolding write_ticks read_ticks AllScalar
  Reads-scalar_ticks previous before [] json all = Reads-pure [] refl
  Reads-scalar_ticks previous before (tick ∷ ticks) json ((scalar, json_tick), all) =
      Reads-bind _ _ _ _
        (Reads-scalar_delta F L is_utf8 31 (some previous) before tick scalar json_tick
          (json_bits is_utf8 previous json))
        λ v ev. rw ev (
          Reads-bind_done _ _ _ (Reads-scalar_ticks tick (some previous) ticks json_tick all)
            λ vs evs. rw evs (Reads-pure (tick ∷ ticks) refl))

  -- If the first tick is JSON of depth at most 32, the other ticks are JSON without parts, there
  -- are at most 2048 ticks and `encode_chunk` succeeds, then `decode_chunk` gives back the number
  -- of the first tick and the same ticks.
  pub decode_chunk-encode_chunk :
      (first_tick : ℕ) (tick : Value) (ticks : List Value) (out : List ℕ)
      → IsJson is_utf8 tick
      → depth tick ≤ max_json_depth
      → AllScalar is_utf8 ticks
      → length ticks < keyframe_interval
      → encode_chunk F (tick ∷ ticks) first_tick ≡ ok out
      → decode_chunk F is_utf8 out ≡ ok (first_tick, tick ∷ ticks)
  unfolding encode_chunk
  decode_chunk-encode_chunk first_tick tick ticks out json deep all few e =
      let (t, written) = bytes_of-written _ out e in
      let (ts, (same, decoded)) =
        decode-written F L is_utf8 (λ ts. ts ≡ tick ∷ ticks) first_tick tick ticks json deep few
          (Reads-implied (λ ts h. ap (λ (xs : List Value). tick ∷ xs) h)
            (Reads-scalar_ticks tick none ticks json all))
          out t written in
      rw same at decoded
