-- ===== src/Film/Pool/Bounds.antt =====
-- The limits of `Pool` of recycle.rs hold after every operation, and none of them panics.
use halospawns_infra.Prelude.{
  ℕ, ◌+◌, ◌-◌, ◌≤◌, ◌≡◌, refl, ap, Bool, true, false, Option, none, some, List, [], ◌∷◌, ◌++◌,
  length, ltb, arith, Bool-cases, inl, inr, if◌then◌else◌,
}
use halospawns_infra.Film.Pool.{
  Pool, bytes_max, records_max, is_full, evict, retire, take_entry, take,
}

module _ {A : Type 0} where
  -- The bytes of all records.
  unfoldable pub total : List (ℕ × A) → ℕ
  total [] = 0
  total ((size, r) ∷ entries) = size + total entries

  -- The count of bytes is right, and both limits hold.
  pub record IsBounded (pool : Pool A) : Type 0 where
    pub counted : pool.bytes ≡ total pool.entries
    pub few_bytes : pool.bytes ≤ bytes_max
    pub few_records : length pool.entries ≤ records_max

  total-append : (xs ys : List (ℕ × A)) → total (xs ++ ys) ≡ total xs + total ys
  unfolding total
  total-append [] ys = omega arith
  total-append ((size, r) ∷ xs) ys = omega (arith, total-append xs ys)

  total-one : (r : A) (size : ℕ) → total ((size, r) ∷ []) ≡ size
  unfolding total
  total-one r size = omega arith

  some-same : (x y : A) → ◌≡◌ {A = Option A} (some x) (some y) → x ≡ y
  some-same x y e = cc

  -- Eviction ends with a bounded pool of the newest of the entries.
  abbrev pub Evicted : List (ℕ × A) → Option (Pool A) → Type 0
  Evicted entries o =
      (pool : Pool A) × ((o ≡ some pool)
        × IsBounded pool
        × ((old : List (ℕ × A)) × (old ++ pool.entries ≡ entries)))

  evict-Evicted :
      (entries : List (ℕ × A)) (bytes : ℕ)
      → bytes ≡ total entries
      → Evicted entries (evict entries bytes)
  unfolding evict is_full total
  evict-Evicted [] bytes e =
      let room : is_full {A = A} [] bytes ≡ false = ground (arith, e) in
      (
        record { entries = []; bytes = bytes },
        (
          rw room refl,
          record { counted = e; few_bytes = omega (arith, e); few_records = omega arith },
          ([], refl),
        ),
      )
  evict-Evicted ((size, r) ∷ entries) bytes e =
      elim (Bool-cases (is_full ((size, r) ∷ entries) bytes)) [
        | inl full ↦
            let enough : ltb bytes size ≡ false = ground (arith, e) in
            let (pool, (is, bounded, (old, parts))) =
              evict-Evicted entries (bytes - size) (omega (arith, e)) in
            (
              pool,
              (rw (full, enough) is, bounded, ((size, r) ∷ old, ap (λ t. (size, r) ∷ t) parts)),
            )
        | inr room ↦ (
          record { entries = (size, r) ∷ entries; bytes = bytes },
          (
            rw room refl,
            record { counted = e; few_bytes = ground arith; few_records = ground arith },
            ([], refl),
          ),
        )
      ]

  -- What a record adds: nothing if it is too large for the pool.
  abbrev pub offered : A → ℕ → List (ℕ × A)
  offered r size = if ltb bytes_max size then [] else (size, r) ∷ []

  append-nothing : (xs : List (ℕ × A)) → xs ≡ xs ++ []
  append-nothing [] = refl
  append-nothing (x ∷ xs) = ap (λ t. x ∷ t) (append-nothing xs)

  -- If the count of bytes of a pool is the sum over its entries, at most 16 MiB, and there are at
  -- most 4096 entries, then `retire` ends without a panic in such a pool, which holds the newest
  -- of the old entries and of the new record, the latter left out if it is larger than 16 MiB.
  pub retire-IsBounded :
      (r : A) (size : ℕ) (pool : Pool A)
      → IsBounded pool
      → Evicted (pool.entries ++ offered r size) (retire r size pool)
  unfolding retire
  retire-IsBounded r size pool held = elim (Bool-cases (ltb bytes_max size)) [
    | inl large ↦ rw large (pool, (refl, held, ([], append-nothing pool.entries)))
    | inr fits ↦ rw fits (
        evict-Evicted (pool.entries ++ ((size, r) ∷ [])) (pool.bytes + size) (
          omega
            (arith, held.counted, total-append pool.entries ((size, r) ∷ []), total-one r size)))
  ]

  -- What `take` gives, if it gives a record, is not shared.
  abbrev pub Taken : (A → Bool) → Option (Option A × Pool A) → Type 0
  Taken is_unique o =
      (found : Option A) × (after : Pool A) × ((o ≡ some (found, after))
        × IsBounded after
        × ((r : A) → found ≡ some r → is_unique r ≡ true))

  take_entry-Taken :
      (is_unique : A → Bool) (entries : List (ℕ × A)) (bytes : ℕ)
      → IsBounded (record { entries = entries; bytes = bytes })
      → Taken is_unique (take_entry is_unique entries bytes)
  unfolding take_entry total
  take_entry-Taken is_unique [] bytes held =
      (none, record { entries = []; bytes = bytes }, (refl, held, λ r e. cc))
  take_entry-Taken is_unique ((size, r) ∷ entries) bytes held =
      let enough : ltb bytes size ≡ false = ground (arith, held.counted) in
      let rest : IsBounded (record { entries = entries; bytes = bytes - size }) = record {
        counted = omega (arith, held.counted);
        few_bytes = omega (arith, held.few_bytes);
        few_records = omega (arith, held.few_records);
      } in
      elim (Bool-cases (is_unique r)) [
        | inl unique ↦
            rw (enough, unique)
              (
                some r,
                record { entries = entries; bytes = bytes - size },
                (refl, rest, λ q e. rw (← some-same r q e) unique),
              )
        | inr shared ↦
            let (after, (is, bounded, newest)) =
              retire-IsBounded r size (record { entries = entries; bytes = bytes - size }) rest in
            rw (enough, shared, is) (none, after, (refl, bounded, λ q e. cc))
      ]

  -- From such a pool `take` ends without a panic in such a pool, and a record that it gives is not
  -- shared.
  pub take-IsBounded :
      (is_unique : A → Bool) (pool : Pool A)
      → IsBounded pool
      → Taken is_unique (take is_unique pool)
  unfolding take
  take-IsBounded is_unique pool held = take_entry-Taken is_unique pool.entries pool.bytes held
