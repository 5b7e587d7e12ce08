-- ===== src/Delta/FloatDelta.antt =====
-- An array of f32 numbers after another: the float branch of `write_delta` of viewer.rs is read back.
use halospawns_infra.Prelude.{
  ℕ, suc, ◌≡◌, refl, sym, ◌∙◌, Bool, true, false, Option, none, some, inl, inr, List, length, arith,
  ◌==◌, Bool-cases,
}
use halospawns_infra.Prelude.Results.{Result, ok, err}
use halospawns_infra.Delta.Error.{Error, malformed_history_length}
use halospawns_infra.Delta.Reader.{BinaryReader, M, ◌>>=◌, pure, lift_result}
use halospawns_infra.Delta.Writer.{Write}
use halospawns_infra.Delta.Sync.{Reads, Reads-bind_done, Reads-pure}
use halospawns_infra.Delta.Floats.{Floats, Lawful}
use halospawns_infra.Delta.Value.{Value, array, Items, items_of, and_then, length_items, AllJson}
use halospawns_infra.Delta.Read.{read_value}
use halospawns_infra.Delta.FloatArray.{exact_numbers, kind_of, write_float_array}
use halospawns_infra.Delta.PatchFloats.{
  float32_array_bits, history_bits, read_float_kind, read_float_array,
}
use halospawns_infra.Delta.WriteDelta.{same_length, float_history, float_arrays}
use halospawns_infra.Delta.ReadDelta.{patch_tagged, read_patched}
use halospawns_infra.Delta.FloatTrip.{number_items}
use halospawns_infra.Delta.FloatModes.{Exact, Plain, narrows}
use halospawns_infra.Delta.FloatChoice.{IsFloatTag, Reads-float_array}
use halospawns_infra.Delta.FloatItems.{
  FloatItems, exact_numbers-FloatItems, Plain-items, float_arrays-some,
}

-- The tags of the four modes, one by one.
kind_cases : (P : ℕ → Type 0) (mode : ℕ) → P 10 → P 8 → P 11 → P 12 → P (kind_of mode)
unfolding kind_of
kind_cases P mode a b c d = elim (Bool-cases (mode == 0)) [
  | inl e ↦ rw e a
  | inr e0 ↦ elim (Bool-cases (mode == 1)) [
    | inl e ↦ rw (e0, e) b
    | inr e1 ↦ elim (Bool-cases (mode == 2)) [
      | inl e ↦ rw (e0, e1, e) c
      | inr e2 ↦ rw (e0, e1, e2) d
    ]
  ]
]

-- A result that is known is taken.
Reads-ok :
    {A B : Type 0} {P : B → Type 0} {m : Write} (x : Result Error A) (a : A) (f : A → M B)
    → x ≡ ok a
    → Reads m (f a) P
    → Reads m (lift_result x >>= f) P
Reads-ok x a f e h = rw e h

-- The history is one that the reader accepts: none, or as many f32 numbers as there are before.
abbrev pub Settled : Floats → ℕ → Option Items → Type 0
Settled F n none = Unit
Settled F n (some hs) = (length_items hs ≡ n) × ((ns : List ℕ) × (exact_numbers F hs ≡ some ns))

module _ (F : Floats) (L : Lawful F) (is_utf8 : List ℕ → Bool) (levels : ℕ) (ps : Items)
    (before : Option Value) (a b : List ℕ) (known : FloatItems F L ps a) (hr : Option (List ℕ))
    (history : history_bits F ps (and_then before items_of) ≡ ok hr) where
  Reads-kind :
      (tag : ℕ) (m : Write)
      → Reads m (read_float_kind F tag (narrows F L a) hr) (λ vs. vs ≡ number_items b)
      → Reads m (read_float_array F tag (some (array ps)) before) (λ v. v ≡ array (number_items b))
  unfolding read_float_array items_of
  Reads-kind tag m h =
      Reads-ok (ok ps) ps
        (λ qs. from_bits (float32_array_bits F qs) (history_bits F qs (and_then before items_of)))
        refl
        (Reads-ok (float32_array_bits F ps) (narrows F L a)
          (from_history (history_bits F ps (and_then before items_of))) known.bits
          (Reads-ok (history_bits F ps (and_then before items_of)) hr (last (narrows F L a)) history
            (Reads-bind_done _ _ _ h λ vs e. rw e (Reads-pure (array (number_items b)) refl))))
    where
      last : List ℕ → Option (List ℕ) → M Value
      last bits h = read_float_kind F tag bits h >>= λ vs. pure (array vs)

      from_history : Result Error (Option (List ℕ)) → List ℕ → M Value
      from_history h bits = lift_result h >>= last bits

      from_bits : Result Error (List ℕ) → Result Error (Option (List ℕ)) → M Value
      from_bits bits h = lift_result bits >>= from_history h

  dispatch :
      (tag : ℕ) (m : Write)
      → IsFloatTag tag
      → Reads m (read_float_kind F tag (narrows F L a) hr) (λ vs. vs ≡ number_items b)
      → Reads m
          (patch_tagged F is_utf8
            (read_patched F is_utf8 levels)
            (read_value F is_utf8 (suc levels))
            (some (array ps))
            before
            tag)
          (λ v. v ≡ array (number_items b))
  unfolding patch_tagged
  dispatch tag m (inl e) h = rw e (Reads-kind 15 m (rw (← e) h))
  dispatch tag m (inr (mode, e)) h = rw e (
      kind_cases
        (λ t.
          Reads m (read_float_kind F t (narrows F L a) hr) (λ vs. vs ≡ number_items b)
          → Reads m
              (patch_tagged F is_utf8 (read_patched F is_utf8 levels)
                (read_value F is_utf8 (suc levels)) (some (array ps)) before t)
              (λ v. v ≡ array (number_items b)))
        mode (Reads-kind 10 m) (Reads-kind 8 m) (Reads-kind 11 m) (Reads-kind 12 m) (rw (← e) h))

  Reads-dispatched :
      (h : Option (List ℕ))
      → length a ≡ length b
      → Plain F L b
      → ((hs : List ℕ)
          → h ≡ some hs
          → (hr ≡ some (narrows F L hs)) × (length hs ≡ length a) × Exact F L hs)
      → Reads
          (write_float_array F h a b)
          (read_patched F is_utf8 (suc levels) (some (array ps)) before)
          (λ v. v ≡ array (number_items b))
  unfolding read_patched
  Reads-dispatched h long plain found =
      Reads-float_array F L a b long plain hr
        (patch_tagged F is_utf8 (read_patched F is_utf8 levels) (read_value F is_utf8 (suc levels))
          (some (array ps)) before)
        dispatch h known.exact found

-- What the reader and the writer take of the values further back.
module _ (F : Floats) (L : Lawful F) (ps : Items) (as_long : List ℕ)
    (size : length_items ps ≡ length as_long) where
  abbrev Histories : Option Items → Type 0
  Histories o =
      (hr : Option (List ℕ)) × ((history_bits F ps o ≡ ok hr)
        × ((hs : List ℕ)
            → same_length (length_items ps) (and_then o (exact_numbers F)) ≡ some hs
            → (hr ≡ some (narrows F L hs)) × (length hs ≡ length as_long) × Exact F L hs))

  histories : (o : Option Items) → Settled F (length_items ps) o → Histories o
  unfolding history_bits same_length
  histories none settled = (none, (refl, λ hs e. cc))
  histories (some items) (long, (ns, e)) =
      let f = exact_numbers-FloatItems F L items ns e in
      let fits : (length_items items == length_items ps) ≡ true = ground (arith, long) in
      let kept : same_length (length_items ps) (some ns) ≡ some ns = ground (arith, long, f.size) in
      (
        some (narrows F L ns),
        (
          rw (fits, f.bits) refl,
          λ hs eh.
              let same : ns ≡ hs = some-same ns hs (sym kept ∙ rw e at eh) in
              rw (← same) (refl, omega (arith, long, f.size, size), f.exact),
        ),
      )
    where
      some-same : (x y : List ℕ) → ◌≡◌ {A = Option (List ℕ)} (some x) (some y) → x ≡ y
      some-same x y h = ground arith

-- If two arrays hold as many f32 numbers, not none, the second is JSON, and the value before them
-- is no array or one of as many f32 numbers, then whichever mode the float branch of `write_delta`
-- selects, whenever its write succeeds, `read_patched_value` takes exactly its bytes and gives the
-- second array.
pub Reads-float_delta :
    (F : Floats)
    → Lawful F
    → (is_utf8 : List ℕ → Bool) (levels : ℕ) (ps vs : Items) (before : Option Value) (a b : List ℕ)
    → AllJson is_utf8 vs
    → Settled F (length_items ps) (and_then before items_of)
    → float_arrays F ps vs ≡ some (a, b)
    → Reads
        (write_float_array F (float_history F ps before) a b)
        (read_patched F is_utf8 (suc levels) (some (array ps)) before)
        (λ v. v ≡ array vs)
unfolding float_history
Reads-float_delta F L is_utf8 levels ps vs before a b json settled e =
    let (ea, eb, long) = float_arrays-some F L ps vs a b e in
    let fa = exact_numbers-FloatItems F L ps a ea in
    let fb = exact_numbers-FloatItems F L vs b eb in
    let plain = Plain-items F L is_utf8 b (rw fb.items at json) fb.exact in
    let (hr, (history, found)) = histories F L ps a fa.size (and_then before items_of) settled in
    rw fb.items (
      Reads-dispatched F L is_utf8 levels ps before a b fa hr history (float_history F ps before)
        (omega (arith, long, fa.size, fb.size)) plain found)

same_length-none :
    (F : Floats)
    → Lawful F
    → (bs : Items) (n : ℕ) → (length_items bs == n) ≡ false
    → (o : Option (List ℕ)) → exact_numbers F bs ≡ o
    → same_length n o ≡ none
unfolding same_length
same_length-none F L bs n other none e = refl
same_length-none F L bs n other (some hs) e =
    let f = exact_numbers-FloatItems F L bs hs e in
    let differs : (length hs == n) ≡ false = ground (arith, f.size) in rw differs refl

-- If the array before holds f32 numbers and the array before that has another length, then the
-- writer takes it as no history, and the reader refuses every float array with the error for a
-- history of another length.
pub history_lengths_differ :
    (F : Floats)
    → Lawful F
    → (ps bs : Items) (a : List ℕ) → exact_numbers F ps ≡ some a
    → (length_items bs == length_items ps) ≡ false
    → (float_history F ps (some (array bs)) ≡ none)
      × ((tag : ℕ) (r : BinaryReader)
          → read_float_array F tag (some (array ps)) (some (array bs)) r
            ≡ err malformed_history_length)
unfolding float_history read_float_array items_of history_bits
history_lengths_differ F L ps bs a e other =
    let f = exact_numbers-FloatItems F L ps a e in
    (
      same_length-none F L bs (length_items ps) other (exact_numbers F bs) refl,
      λ tag r. rw (f.bits, other) refl,
    )
