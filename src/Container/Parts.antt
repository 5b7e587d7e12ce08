-- ===== src/Container/Parts.antt =====
-- What `validate_parts` of viewer.rs checks of the chunks and their files.
use halospawns_infra.Prelude.{
  ℕ, suc, ◌+◌, ◌≤◌, ◌^◌, ◌≡◌, refl, sym, Bool, true, false, List, [], ◌∷◌, ◌++◌, length,
  length-append, arith, Bool-cases, inl, inr, ltb,
}
use halospawns_infra.Prelude.Results.{Result, ok, err, ◌>>=◌}
use halospawns_infra.Delta.Codes.{keyframe_interval}
use halospawns_infra.Delta.Wire.{text_eq_sound}
use halospawns_infra.Container.{
  Error, ChunkPart, World, checked_add, ◌>>◌, refuse_if, invalid_sequence, changed_chunk,
  tick_overflow, raw_overflow, compressed_overflow,
}
use halospawns_infra.Container.Validate.{
  Coverage, invalid_chunk, add_chunk, read_child, has_changed, validate_chunk, validate_chunks,
}

pub bind_ok :
    {A B : Type 0} (m : Result Error A) (f : A → Result Error B) {b : B}
    → (m >>= f) ≡ ok b
    → (a : A) × (m ≡ ok a) × (f a ≡ ok b)
bind_ok (ok a) f h = (a, refl, h)
bind_ok (err e) f h = cc

pub passed :
    {A : Type 0} (b : Bool) (e : Error) (rest : Result Error A) {a : A}
    → (refuse_if b e >> rest) ≡ ok a
    → (b ≡ false) × (rest ≡ ok a)
passed true e rest h = cc
passed false e rest h = (refl, h)

pub ok_same : {A : Type 0} {x y : A} → ◌≡◌ {A = Result Error A} (ok x) (ok y) → x ≡ y
ok_same e = cc

pub checked_add_ok : (a b : ℕ) (e : Error) {s : ℕ} → checked_add a b e ≡ ok s → s ≡ a + b
unfolding checked_add
checked_add_ok a b e h = elim (Bool-cases (ltb (a + b) (2 ^ 64))) [
  | inl fits ↦ sym (ok_same (rw fits at h))
  | inr over ↦ absurd_error (rw over at h)
]
  where
    absurd_error : {G : Type 0} {s : ℕ} {x : Error} → ◌≡◌ {A = Result Error ℕ} (err x) (ok s) → G
    absurd_error h = cc

-- The chunks have their numbers in order, cover the ticks from `first` to `last` without a gap, and hold from
-- 1 to 2048 ticks each.
abbrev pub Tiled : ℕ → ℕ → List ChunkPart → ℕ → Type 0
Tiled first index [] last = first ≡ last
Tiled first index (p ∷ ps) last =
    (p.index ≡ index)
    × (p.first_tick ≡ first)
    × (1 ≤ p.tick_count)
    × (p.tick_count ≤ keyframe_interval)
    × Tiled (first + p.tick_count) (suc index) ps last

-- The bytes are those of the chunks' files, side by side.
abbrev pub Contents : World → List ChunkPart → List ℕ → Type 0
Contents W [] bytes = bytes ≡ []
Contents W (p ∷ ps) bytes =
    (own : List ℕ) × (rest : List ℕ) × (read_child W p.compressed_file ≡ ok own)
    × (length own ≡ p.compressed_bytes)
    × (W.sha256 own ≡ p.compressed_sha256)
    × (bytes ≡ own ++ rest)
    × Contents W ps rest

add_chunk_ok :
    (c : Coverage) (p : ChunkPart) {d : Coverage}
    → add_chunk c p ≡ ok d
    → (d.expected_index ≡ suc c.expected_index)
      × (d.expected_first_tick ≡ c.expected_first_tick + p.tick_count)
      × (d.compressed_bytes ≡ c.compressed_bytes + p.compressed_bytes)
unfolding add_chunk
add_chunk_ok c p h =
    let (t, te, h1) = bind_ok (checked_add c.expected_first_tick p.tick_count tick_overflow) _ h in
    let (r, re, h2) = bind_ok (checked_add c.raw_bytes p.raw_bytes raw_overflow) _ h1 in
    let (z, ze, h3) =
      bind_ok (checked_add c.compressed_bytes p.compressed_bytes compressed_overflow) _ h2 in
    let same = ok_same h3 in
    rw (← same) (
      refl,
      checked_add_ok c.expected_first_tick p.tick_count tick_overflow te,
      checked_add_ok c.compressed_bytes p.compressed_bytes compressed_overflow ze,
    )

fits_sequence :
    (c : Coverage) (p : ChunkPart)
    → invalid_chunk c p ≡ false
    → (p.index ≡ c.expected_index)
      × (p.first_tick ≡ c.expected_first_tick)
      × (1 ≤ p.tick_count)
      × (p.tick_count ≤ keyframe_interval)
unfolding invalid_chunk
fits_sequence c p e = (ground arith, ground arith, ground arith, ground arith)

is_unchanged :
    (W : World) (p : ChunkPart) (bytes : List ℕ)
    → has_changed W p bytes ≡ false
    → (length bytes ≡ p.compressed_bytes) × (W.sha256 bytes ≡ p.compressed_sha256)
unfolding has_changed
is_unchanged W p bytes e =
    (ground arith, text_eq_sound (W.sha256 bytes) p.compressed_sha256 (ground arith))

-- What the loop has checked when it ends.
abbrev pub Checked : World → List ChunkPart → Coverage → Coverage → Type 0
Checked W ps c d =
    Tiled c.expected_first_tick c.expected_index ps d.expected_first_tick
    × ((bytes : List ℕ) × Contents W ps bytes
        × (d.compressed_bytes ≡ c.compressed_bytes + length bytes))

pub validate_chunks-Checked :
    (W : World) (ps : List ChunkPart) (c : Coverage) {d : Coverage}
    → validate_chunks W ps c ≡ ok d
    → Checked W ps c d
unfolding validate_chunks validate_chunk
validate_chunks-Checked W [] c h = rw (← ok_same h) (refl, ([], refl, omega arith))
validate_chunks-Checked W (p ∷ ps) c {d} h =
    let (c', one, others) = bind_ok (validate_chunk W p c) _ h in
    let (valid, reading) = passed (invalid_chunk c p) invalid_sequence _ one in
    let (own, file, checking) = bind_ok (read_child W p.compressed_file) _ reading in
    let (same, adding) = passed (has_changed W p own) changed_chunk _ checking in
    let (index, first, size) = add_chunk_ok c p adding in
    let (right_index, right_first, some_ticks, few_ticks) = fits_sequence c p valid in
    let (fits, digest) = is_unchanged W p own same in
    let (tiled, (rest, contents, total)) = validate_chunks-Checked W ps c' others in
    (
      (right_index, right_first, some_ticks, few_ticks, rw (← first, ← index) tiled),
      (
        own ++ rest,
        (own, rest, file, fits, digest, refl, contents),
        omega (arith, total, size, fits, length-append own rest),
      ),
    )
