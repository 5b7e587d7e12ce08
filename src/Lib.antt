-- ===== src/Lib.antt =====
-- The delta codec and the container of the viewer replay (lambda/replay_parser/native/src/viewer.rs), the
-- limits on what the replay parser reads, the order in which it takes the ticks and its counts of places
-- (main.rs beside it), the fast paths of the codec in the film encoder and its account of the combat
-- (lambda/h1_film/encoder/src), and the wire format and the skeletons of the pose codec
-- (lambda/h1_film/pose_codec/src).
--
-- The replay parser turns a parsed match into ticks, one JSON value each, and packs them into chunks
-- of at most 2048 ticks. The first tick of a chunk is written whole, and each later one as what
-- differs from the tick before, with numbers predicted from the two ticks before. The modules model
-- both directions. Workers parse the ticks in any order, and the reducer brings them back into the
-- order of the source. The chunks are compressed into files, which a manifest lists, and the container
-- is made of the manifest and the files.
--
-- Prelude and the files below it hold the shared helpers: Boolean tests, lists, integers, results, bits
-- and machine words over the native numbers. Prelude/OrderedMap is `BTreeMap`, a list of entries in the
-- order of their keys.
-- Delta/Codes, Delta/Error: the constants, and one error for each message of the code.
-- Delta/Writer: `BinaryWriter`. The code only appends bytes, so a write is a function from the string
--   table to the bytes that it appends, and the table after it.
-- Delta/Reader: `BinaryReader`. Its state is the bytes behind the offset and the texts read so far.
-- Delta/Value: `DecodedValue`, also for the `serde_json::Value` of the encoder, with its lookups. An
--   object is a list of fields in the order of the `IndexMap`.
--   A number of JSON is what `as_f64` gives of it, so that integers beyond 2^53 which round to the same
--   f64 are one value.
-- Delta/Floats: an f64 is a number below 2^64 and an f32 one below 2^32, the patterns of `to_bits`.
--   The operations of Rust on them (casts, `fract`, `abs`, subtraction) are the record `Floats`, a
--   parameter, and `Lawful` says what the code relies on. Delta/Examples/Toy has an instance.
-- Delta/Read, Delta/Write: `read_value`, `write_value` and `write_number`.
-- Delta/Difference, Delta/Numbers, Delta/PatchNumber: the deltas of one number in both directions.
-- Delta/Packed, Delta/FloatArray, Delta/PatchFloats: arrays of f32 numbers in both directions.
-- Delta/Same, Delta/WriteDelta, Delta/ReadDelta, Delta/Slots: `delta_same`, `write_delta` and
--   `read_patched_value`.
-- Delta/Chunk: `encode_chunk` and `decode_chunk`.
-- Delta/Sync defines what it means that a read takes back what a write wrote (`Reads`), and Delta/Wire,
-- Delta/Values, Delta/Keys, Delta/XorTrip, Delta/DifferenceTrip, Delta/NumberTrip, Delta/ScalarTrip,
-- Delta/FloatTrip, Delta/FloatModes, Delta/FloatChoice, Delta/FloatItems, Delta/FloatDelta and the files
-- below Delta/Chunk build on it. `Reads m r P` says: for every string table and reader's texts that are in
-- step, whenever `m` succeeds with some bytes, `r` on these bytes and any others behind them succeeds,
-- leaves exactly the others, keeps table and texts in step, and gives a value with `P`.
--
-- Film/Pool: `Pool` of lambda/h1_film/encoder/src/recycle.rs, with `retire` and `take`. A panic is `none`, and
--   whether a record is shared is an argument of `take`.
-- Film/TextEqual: `equal` of lambda/h1_film/encoder/src/text_equal.rs.
-- Film/FloatDelta: `write` of float_delta.rs, the fast path for arrays of f32 numbers. An `Option` of a
--   write is its `Result<bool>`: none is `false`, with nothing written.
-- Film/OrderedDelta: `same`, `write` and `write_inner` of ordered_delta.rs, which the encoder calls in place
--   of `delta_same` and `write_delta`. Its set of changed slots is the number that the code has.
-- Film/Sampling: `sample_count` and `output_tick` of sampling.rs, and Film/Sampling/Retime `retime_metadata`,
--   where the texts of numbers and the sum of two f64 are parameters.
-- Film/Counters: `Counters` of counters.rs. What `Serialize` writes is the object that JSON has of it.
-- Film/Refill: `map` and `value` of recycle.rs. What the target is afterwards is the result.
-- Film/Combat: the state of combat.rs, `slot` and `weapon`. The parts of `observe` are Film/Combat/Events
--   (weapons, shots), Film/Combat/Outcomes (damage, deaths, awards) and Film/Combat/Observe (the rest);
--   Film/Combat/Product is `product`, and Film/Combat/Run what main.rs beside it does with them: `observe` of
--   each tick, then `product`. An operation gives the state or an error; the state after an error is
--   left out. What serde_json parses is given; the arithmetic of f64 is the record `Amounts`, and the
--   lengths of JSON texts are parameters. Film/Combat/Lineage, Film/Combat/Sound and
--   Film/Combat/Product/Fits have the proofs.
--
-- Pose/Wire: `Writer` and `Reader` of lambda/h1_film/pose_codec/src/wire.rs. A write is the bytes that it
--   appends, and a read a function of the bytes that are left.
-- Pose/Track: `track` and `untrack`.
-- Pose/Runs: what `Encoder::finish` writes, and `verify_tracks`. An f64 of a raw pose is its pattern.
-- Pose/Unpack: how `unpack` reads the runs back, up to the poses put into the ticks.
-- Pose/Skeleton: `order` and `parents` of pose.rs.
--
-- Delta/Safety: `validate_json_safety` of viewer.rs.
-- Delta/ExactEqual: `deep_exact_equal` of viewer.rs.
-- Parser/Bounded: `BoundedReader` of main.rs. The reader inside is a parameter.
-- Parser/Reduce: `absorb_ready_ticks` and `reduce_tick_results` of main.rs. What is done with one tick is a
--   parameter, and the end of the viewer's ingest is left out.
-- Parser/Occupancy: `Occupancy` of main.rs with `observe`, and `spatial_slot`, `spatial_coordinate` and
--   `bounded_add`. Its hash maps are ordered maps, since no order of them is read; the operations of f64
--   are the record `Coordinates`.
-- Container: the descriptor of the parts and the manifest of viewer.rs. Container/Validate is `validate_parts`
--   and `validate_manifest`, Container/Finalize `container_header` and `finalize_container`. The files of the
--   directory, SHA-256, zstd, the parsing of JSON and the schemas are the record `World`, which does not
--   change while the container is made. Container/Parts, Container/Placed and Container/Finished have the
--   proofs.
--
-- Bounds. `read_value` and `read_patched_value` recurse on the levels that are left, which start at
-- MAX_JSON_DEPTH = 32 for the depth 1 of a tick, so that they end where the code's `depth` passes its
-- limit. The loop of `varuint` on reading has the code's 8 rounds, and on writing recurses on `Acc`. The
-- loops over the digits of a u64 have 64 rounds. A packed width of at most 64 leaves at most 71 digits
-- in the accumulator, so 9 rounds flush it; on reading, `width` rounds of 8 digits are enough to fill.
--
-- `order` has one round more than there are nodes, since every round but the last places one. The loop of
-- `absorb_ready_ticks` has as many rounds as `pending` has entries, since each takes one away.
--
-- Not modelled: the projection of source JSON, the semantic hash of a chunk, and the writer with its
-- worker threads (viewer.rs), what the parser aggregates of a tick apart from the places (main.rs beside
-- it), the collection of runs from ticks, and the ticks and the containers around the runs (wire.rs), the
-- quantizer, which is float geometry (pose.rs), and the rest of the film encoder. UTF-8 validity and the
-- count of characters are parameters, as are SHA-256 and zstd.
pub mod Prelude
pub mod Delta
pub mod Film
pub mod Pose
pub mod Parser
pub mod Container
