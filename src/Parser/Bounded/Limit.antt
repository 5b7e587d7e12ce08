-- ===== src/Parser/Bounded/Limit.antt =====
-- How many bytes `BoundedReader` of main.rs gives.
use halospawns_infra.Prelude.{
  ℕ, zero, suc, ◌+◌, ◌-◌, ◌≤◌, ◌<◌, ◌≡◌, refl, ap, ◌∙◌, inl, inr, min, List, [], ◌∷◌, ◌++◌, length,
  length-append, take, drop, leb, arith, Bool-cases,
}
use halospawns_infra.Prelude.Results.{Result, ok, err, Result-cases}
use halospawns_infra.Parser.Bounded.{Error, Inner, BoundedReader, new, read, reads}

module _ {S : Type 0} (read_inner : Inner S)
    (fits_buffer : (s : S) (size : ℕ) (bs : List ℕ) (s' : S)
      → read_inner s size ≡ ok (bs, s')
      → length bs ≤ size) where
  -- What a read keeps true: the count of bytes is at most the limit, which stays.
  record Kept (r : BoundedReader S) (bs : List ℕ) (r' : BoundedReader S) : Type 0 where
    pub limit : r'.max_bytes ≡ r.max_bytes
    pub count : r'.bytes_read ≡ r.bytes_read + length bs
    pub below : r'.bytes_read ≤ r'.max_bytes

  abbrev result_or :
      List ℕ × BoundedReader S → Result Error (List ℕ × BoundedReader S) → List ℕ × BoundedReader S
  result_or z (ok a) = a
  result_or z (err e) = z

  ok_same :
      (a b : List ℕ × BoundedReader S)
      → ◌≡◌ {A = Result Error (List ℕ × BoundedReader S)} (ok a) (ok b)
      → a ≡ b
  ok_same a b h = ap (result_or a) h

  KeptPair : BoundedReader S → List ℕ × BoundedReader S → Type 0
  KeptPair r a = Kept r a.0 a.1

  absurd_err :
      {A : Type 0} {e : Error} {a : List ℕ × BoundedReader S}
      → ◌≡◌ {A = Result Error (List ℕ × BoundedReader S)} (err e) (ok a)
      → A
  absurd_err h = cc

  read-Kept :
      (r : BoundedReader S) (size : ℕ) (a : List ℕ × BoundedReader S)
      → r.bytes_read ≤ r.max_bytes
      → read read_inner r size ≡ ok a
      → KeptPair r a
  unfolding read KeptPair
  read-Kept r size a low e = elim (Bool-cases (leb r.max_bytes r.bytes_read)) [
    | inl full ↦ elim (Result-cases (read_inner r.inner 1)) [
      | inr (f, ef) ↦ absurd_err (rw (read, full, ef) at e)
      | inl (([], s), es) ↦
          (rw (← ok_same _ a (rw (read, full, es) at e))
            (record { limit = refl; count = omega arith; below = low }))
      | inl ((b ∷ bs, s), es) ↦ absurd_err (rw (read, full, es) at e)
    ]
    | inr open_still ↦
        let more : r.bytes_read < r.max_bytes = ground arith in
        elim (Result-cases (read_inner r.inner (min (r.max_bytes - r.bytes_read) size))) [
          | inr (f, ef) ↦ absurd_err (rw (read, open_still, ef) at e)
          | inl ((bs, s), es) ↦
              let few = fits_buffer r.inner _ bs s es in
              (rw (← ok_same _ a (rw (read, open_still, es) at e))
                (record { limit = refl; count = refl; below = omega (arith, few, more) }))
        ]
  ]

  reads-Kept :
      (sizes : List ℕ) (r : BoundedReader S) (a : List ℕ × BoundedReader S)
      → r.bytes_read ≤ r.max_bytes
      → reads read_inner r sizes ≡ ok a
      → KeptPair r a
  unfolding reads KeptPair
  reads-Kept [] r a low e =
      rw (← ok_same _ a e) (record { limit = refl; count = omega arith; below = low })
  reads-Kept (size ∷ sizes) r a low e = elim (Result-cases (read read_inner r size)) [
    | inr (f, ef) ↦ absurd_err (rw (reads, ef) at e)
    | inl ((bs, r'), e1) ↦
        let k = read-Kept r size (bs, r') low e1 in
        elim (Result-cases (reads read_inner r' sizes)) [
          | inr (f, ef) ↦ absurd_err (rw (reads, e1, ef) at e)
          | inl ((more, r''), e2) ↦
              let k' = reads-Kept sizes r' (more, r'') k.below e2 in
              rw (← ok_same _ a (rw (reads, e1, e2) at e)) (record {
                limit = k'.limit ∙ k.limit;
                count = omega (arith, k.count, k'.count, length-append bs more);
                below = k'.below;
              })
        ]
  ]

  -- If the other reader puts no more bytes into a buffer than it holds, then reads one after
  -- another from a new `BoundedReader` that succeed give no more bytes than the limit in all, and
  -- the reader has counted them.
  pub reads_bounded :
      (s : S) (max_bytes : ℕ) (sizes out : List ℕ) (r : BoundedReader S)
      → reads read_inner (new read_inner s max_bytes) sizes ≡ ok (out, r)
      → (length out ≤ max_bytes) × (r.bytes_read ≡ length out)
  unfolding KeptPair
  reads_bounded s max_bytes sizes out r e =
      let k = reads-Kept sizes (new read_inner s max_bytes) (out, r) (omega arith) e in
      (omega (arith, k.limit, k.count, k.below), omega (arith, k.count))

-- A source in memory.
unfoldable pub read_source : Inner (List ℕ)
read_source s size = ok (take size s, drop size s)

unfoldable pub total : List ℕ → ℕ
total [] = 0
total (size ∷ sizes) = size + total sizes

take_nothing : (n : ℕ) → take {A = ℕ} n [] ≡ []
take_nothing zero = refl
take_nothing (suc n) = refl

take-drop : (a b : ℕ) (s : List ℕ) → take a s ++ take b (drop a s) ≡ take (a + b) s
take-drop zero b s = (let e : 0 + b ≡ b = omega arith in rw e refl)
take-drop (suc a) b [] =
    take_nothing b ∙ (let e : suc a + b ≡ suc (a + b) = omega arith in rw e refl)
take-drop (suc a) b (x ∷ s) =
    let e : suc a + b ≡ suc (a + b) = omega arith in
    rw e (ap (λ (t : List ℕ). x ∷ t) (take-drop a b s))

drop_nothing : (n : ℕ) → drop {A = ℕ} n [] ≡ []
drop_nothing zero = refl
drop_nothing (suc n) = refl

-- Taking more than there is.
take_enough :
    (m n : ℕ) (s : List ℕ)
    → length s ≤ m
    → (take (min m n) s ≡ take n s) × (drop (min m n) s ≡ drop n s)
take_enough m zero s h = (let e : min m 0 ≡ 0 = omega arith in rw e (refl, refl))
take_enough m (suc n) [] h = (take_nothing (min m (suc n)), drop_nothing (min m (suc n)))
take_enough zero (suc n) (x ∷ s) h = absurd (omega arith)
take_enough (suc m) (suc n) (x ∷ s) h =
    let e : min (suc m) (suc n) ≡ suc (min m n) = omega arith in
    let (t, d) = take_enough m n s (omega arith) in rw e (ap (λ (l : List ℕ). x ∷ l) t, d)

length-drop : (n : ℕ) (s : List ℕ) → length (take n s) + length (drop n s) ≡ length s
length-drop zero s = omega arith
length-drop (suc n) [] = omega arith
length-drop (suc n) (x ∷ s) = omega (arith, length-drop n s)

Given : BoundedReader (List ℕ) → List ℕ → Type 0
Given r sizes =
    (r' : BoundedReader (List ℕ)) × (reads read_source r sizes
      ≡ ok (take (total sizes) r.inner, r'))

Given-step :
    (r r1 : BoundedReader (List ℕ)) (size : ℕ) (sizes bs : List ℕ)
    → read read_source r size ≡ ok (bs, r1)
    → bs ++ take (total sizes) r1.inner ≡ take (size + total sizes) r.inner
    → Given r1 sizes
    → Given r (size ∷ sizes)
unfolding Given reads total
Given-step r r1 size sizes bs e same (r', g) = (r', rw (e, g, same) refl)

nothing_left : (s : List ℕ) → length s ≤ 0 → s ≡ []
nothing_left [] h = refl
nothing_left (x ∷ s) h = absurd (omega arith)

-- The reader behind a read of some bytes.
abbrev behind : BoundedReader (List ℕ) → List ℕ → List ℕ → BoundedReader (List ℕ)
behind r bs s = record { inner = s; bytes_read = r.bytes_read + length bs; max_bytes = r.max_bytes }

read_fits :
    (r : BoundedReader (List ℕ)) (size : ℕ)
    → r.bytes_read + length r.inner ≤ r.max_bytes
    → read read_source r size
      ≡ ok (take size r.inner, behind r (take size r.inner) (drop size r.inner))
unfolding read read_source
read_fits r size h = elim (Bool-cases (leb r.max_bytes r.bytes_read)) [
  | inl full ↦
      let empty = nothing_left r.inner (ground arith) in
      let same : r.bytes_read + 0 ≡ r.bytes_read = omega arith in
      rw (full, empty, take_nothing size, drop_nothing size, same) refl
  | inr more ↦
      let (same_take, same_drop) =
        take_enough (r.max_bytes - r.bytes_read) size r.inner (omega (arith, h)) in
      rw (more, same_take, same_drop) refl
]

reads-fits :
    (sizes : List ℕ) (r : BoundedReader (List ℕ))
    → r.bytes_read + length r.inner ≤ r.max_bytes
    → Given r sizes
unfolding Given reads total
reads-fits [] r h = (r, refl)
reads-fits (size ∷ sizes) r h =
    let r1 = behind r (take size r.inner) (drop size r.inner) in
    Given-step r r1 size sizes (take size r.inner) (read_fits r size h)
      (take-drop size (total sizes) r.inner)
      (reads-fits sizes r1 (omega (arith, h, length-drop size r.inner)))

-- From a source in memory that is no longer than the limit, every sequence of reads succeeds and
-- gives what the source would give without a limit.
pub reads_whole :
    (s : List ℕ) (max_bytes : ℕ) (sizes : List ℕ)
    → length s ≤ max_bytes
    → (r : BoundedReader (List ℕ)) × (reads read_source (new read_source s max_bytes) sizes
        ≡ ok (take (total sizes) s, r))
unfolding Given
reads_whole s max_bytes sizes h = reads-fits sizes (new read_source s max_bytes) (omega (arith, h))
