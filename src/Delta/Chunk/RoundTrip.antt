-- ===== src/Delta/Chunk/RoundTrip.antt =====
-- `decode_chunk` reads what `encode_chunk` wrote.
use mathlib.Core.List.{append-nil}
use halospawns_infra.Prelude.{
  ℕ, suc, ◌≤◌, ◌≡◌, refl, ap, Bool, true, none, List, [], ◌∷◌, arith, length, ◌<◌, ◌&&◌, leb, ◌-◌,
}
use halospawns_infra.Prelude.Results.{Result, ok, err}
use halospawns_infra.Delta.Error.{Error}
use halospawns_infra.Delta.Codes.{chunk_magic, chunk_version, max_json_depth, keyframe_interval}
use halospawns_infra.Delta.Floats.{Floats, Lawful}
use halospawns_infra.Delta.Value.{Value, depth, IsJson}
use halospawns_infra.Delta.Values.{Reads-byte, read_back}
use halospawns_infra.Delta.Wire.{Reads-varuint, Reads-slice}
use halospawns_infra.Delta.Writer
use halospawns_infra.Delta.Writer.{Table, Write, text_eq, lookup}
use halospawns_infra.Delta.Write.{write_value}
use halospawns_infra.Delta.Reader.{◌>>=◌, pure}
use halospawns_infra.Delta.Sync.{Sync, Reads, Ends, Ends-bind}
use halospawns_infra.Delta.Chunk.{
  levels, write_ticks, write_chunk, bytes_of, read_ticks, end_of_bytes, read_body, read_chunk,
  decode_chunk,
}

Sync-start : Sync [] []
unfolding lookup
Sync-start = record { found = λ s i e. cc; size = refl }

-- What is known of the ticks of a chunk, its number included.
abbrev Framed : ℕ → (List Value → Type 0) → ℕ × List Value → Type 0
Framed first_tick P (first, ticks) = (first ≡ first_tick) × P ticks

module _ (F : Floats) (L : Lawful F) (is_utf8 : List ℕ → Bool) (P : List Value → Type 0)
    (first_tick : ℕ) (tick : Value) (ticks : List Value) (json : IsJson is_utf8 tick)
    (deep : depth tick ≤ max_json_depth) (few : length ticks < keyframe_interval)
    (h : Reads
      (write_ticks F tick none ticks)
      (read_ticks F is_utf8 (length ticks) tick none)
      (λ ts. P (tick ∷ ts))) where
  -- The end of the chunk.
  Ends-ticks :
      Ends {A = ℕ × List Value}
        (write_ticks F tick none ticks)
        (read_ticks F is_utf8 (length ticks) tick none >>= λ ts.
          end_of_bytes F is_utf8 >>= λ _. pure (first_tick, tick ∷ ts))
        (Framed first_tick P)
  unfolding end_of_bytes
  Ends-ticks = record {
    ending = λ t t' out e ss sync.
        let run = h.reading t t' out e [] ss sync in
        record {
          value = (first_tick, tick ∷ run.value);
          texts = run.texts;
          sync = run.sync;
          fits = (refl, run.fits);
          runs = rw run.runs refl;
        };
  }

  Ends-body :
      Ends {A = ℕ × List Value}
        (Writer.◌>>◌ (Writer.varuint first_tick) (
          Writer.◌>>◌
            (Writer.varuint (suc (length ticks)))
            (Writer.◌>>◌ (write_value F tick) (write_ticks F tick none ticks))))
        (read_body F is_utf8)
        (Framed first_tick P)
  unfolding read_body
  Ends-body =
      let counted : (leb 1 (suc (length ticks)) && leb (suc (length ticks)) keyframe_interval)
          ≡ true =
        ground arith in
      let rest : suc (length ticks) - 1 ≡ length ticks = omega arith in
      Ends-bind _ _ _ _ (Reads-varuint first_tick) λ f ef.
        Ends-bind _ _ _ _ (Reads-varuint (suc (length ticks))) λ c ec.
          rw (ef, ec, counted)
            (Ends-bind _ _ _ _ (read_back F L is_utf8 levels tick json deep)
              λ v ev. rw (ev, rest) Ends-ticks)

  Ends-chunk :
      Ends {A = ℕ × List Value}
        (write_chunk F first_tick tick ticks)
        (read_chunk F is_utf8)
        (Framed first_tick P)
  unfolding write_chunk read_chunk text_eq
  Ends-chunk =
      Ends-bind _ _ _ _ (Reads-slice chunk_magic 4 refl)
        λ m em. rw em (Ends-bind _ _ _ _ (Reads-byte chunk_version) λ v ev. rw ev Ends-body)

  pub decode-written :
      (out : List ℕ) (t : Table)
      → write_chunk F first_tick tick ticks [] ≡ ok (out, t)
      → (ts : List Value) × (P ts × (decode_chunk F is_utf8 out ≡ ok (first_tick, ts)))
  unfolding decode_chunk
  decode-written out t e =
      let run = Ends-chunk.ending [] t out e [] Sync-start in
      let runs = rw (append-nil out) at run.runs in
      let framed : run.value ≡ (first_tick, run.value.1) =
        ap (λ (n : ℕ). (n, run.value.1)) run.fits.0 in
      (run.value.1, (run.fits.1, rw runs (ap ok framed)))

pub bytes_of-written :
    (o : Result Error (List ℕ × Table)) (out : List ℕ)
    → bytes_of o ≡ ok out
    → (t : Table) × (o ≡ ok (out, t))
bytes_of-written (err e) out h = cc
bytes_of-written (ok (a, t)) out h = (t, ground arith)
