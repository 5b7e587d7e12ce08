-- ===== src/Film/Pool.antt =====
-- `Pool` of lambda/h1_film/encoder/src/recycle.rs: records that are kept for reuse, oldest first, with
-- how many bytes each one holds. A failed `unwrap` and a subtraction below 0 are `none`.
pub mod Bounds
use halospawns_infra.Prelude.{
  ℕ, ◌+◌, ◌-◌, Bool, true, false, ◌||◌, Option, none, some, List, [], ◌∷◌, ◌++◌, length, ltb,
  if◌then◌else◌,
}

abbrev pub bytes_max : ℕ
bytes_max = 16_777_216

abbrev pub records_max : ℕ
records_max = 4096

pub record Pool (A : Type 0) : Type 0 where
  pub entries : List (ℕ × A)
  pub bytes : ℕ

module _ {A : Type 0} where
  -- The test of the loop in `retire`.
  unfoldable pub is_full : List (ℕ × A) → ℕ → Bool
  is_full entries bytes = ltb bytes_max bytes || ltb records_max (length entries)

  -- `while self.bytes > … || self.entries.len() > … { pop_front().unwrap() … }`
  unfoldable pub evict : List (ℕ × A) → ℕ → Option (Pool A)
  unfolding is_full
  evict [] bytes = if is_full [] bytes then none else some (record { entries = []; bytes = bytes })
  evict ((size, r) ∷ entries) bytes =
      let rest = evict entries (bytes - size) in
      if is_full ((size, r) ∷ entries) bytes
      then (if ltb bytes size then none else rest)
      else some (record { entries = (size, r) ∷ entries; bytes = bytes })

  -- fn retire
  unfoldable pub retire : A → ℕ → Pool A → Option (Pool A)
  retire r size pool =
      if ltb bytes_max size
      then some pool
      else evict (pool.entries ++ ((size, r) ∷ [])) (pool.bytes + size)

  abbrev pub given_back : Option (Pool A) → Option (Option A × Pool A)
  given_back none = none
  given_back (some pool) = some (none, pool)

  -- What `take` does with the oldest record; `is_unique` says whether `Arc::get_mut` succeeds.
  unfoldable pub take_entry : (A → Bool) → List (ℕ × A) → ℕ → Option (Option A × Pool A)
  take_entry is_unique [] bytes = some (none, record { entries = []; bytes = bytes })
  take_entry is_unique ((size, r) ∷ entries) bytes =
      if ltb bytes size
      then none
      else if is_unique r
      then some (some r, record { entries = entries; bytes = bytes - size })
      else given_back (retire r size (record { entries = entries; bytes = bytes - size }))

  -- fn take
  unfoldable pub take : (A → Bool) → Pool A → Option (Option A × Pool A)
  unfolding take_entry
  take is_unique pool = take_entry is_unique pool.entries pool.bytes
