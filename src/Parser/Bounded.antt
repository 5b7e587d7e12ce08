-- ===== src/Parser/Bounded.antt =====
-- `BoundedReader` of lambda/replay_parser/native/src/main.rs: a reader that gives at most so many bytes of
-- another one. The other reader is a parameter: from its state and the size of a buffer to the bytes
-- that it puts there, or an error.
pub mod Limit
use halospawns_infra.Prelude.{ℕ, ◌+◌, ◌-◌, min, List, [], ◌∷◌, ◌++◌, length, leb, if◌then◌else◌}
use halospawns_infra.Prelude.Results.{Result, ok, err, ◌>>=◌}

pub data Error : Type 0 where
  too_large inner_failed : Error

module _ (S : Type 0) where
  abbrev pub Inner : Type 0
  Inner = S → ℕ → Result Error (List ℕ × S)

  pub record BoundedReader : Type 0 where
    pub inner : S
    pub bytes_read : ℕ
    pub max_bytes : ℕ

module _ {S : Type 0} (read_inner : Inner S) where
  -- BoundedReader::new
  abbrev pub new : S → ℕ → BoundedReader S
  new inner max_bytes = record { inner = inner; bytes_read = 0; max_bytes = max_bytes }

  -- The probe for a byte more: none is the end, one is an error.
  abbrev pub probed : BoundedReader S → List ℕ × S → Result Error (List ℕ × BoundedReader S)
  probed r ([], s) =
      ok ([], record { inner = s; bytes_read = r.bytes_read; max_bytes = r.max_bytes })
  probed r (b ∷ bs, s) = err too_large

  abbrev pub counted : BoundedReader S → List ℕ × S → Result Error (List ℕ × BoundedReader S)
  counted r (bs, s) =
      ok (bs, record { inner = s; bytes_read = r.bytes_read + length bs; max_bytes = r.max_bytes })

  -- BoundedReader::read, into a buffer of a size. A u64 fits a usize on the 64-bit targets of the code.
  unfoldable pub read : BoundedReader S → ℕ → Result Error (List ℕ × BoundedReader S)
  read r size =
      if leb r.max_bytes r.bytes_read
      then read_inner r.inner 1 >>= probed r
      else read_inner r.inner (min (r.max_bytes - r.bytes_read) size) >>= counted r

  abbrev pub joined : List ℕ → List ℕ × BoundedReader S → Result Error (List ℕ × BoundedReader S)
  joined bs (more, r) = ok (bs ++ more, r)

  -- Reads one after another, into buffers of some sizes.
  unfoldable pub reads : BoundedReader S → List ℕ → Result Error (List ℕ × BoundedReader S)
  unfolding read
  reads r [] = ok ([], r)
  reads r (size ∷ sizes) = do one ← read r size; rest ← reads one.1 sizes; joined one.0 rest
