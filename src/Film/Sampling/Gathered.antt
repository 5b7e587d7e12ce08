-- ===== src/Film/Sampling/Gathered.antt =====
-- The loop of `retime_metadata` of sampling.rs beside the values that each sample shows.
use halospawns_infra.Prelude.{
  ℕ, ◌+◌, ◌≤◌, ◌<◌, ◌≡◌, ◌⊎◌, inl, inr, refl, sym, ap, ◌∙◌, Bool, true, false, ◌&&◌, ◌==◌, ==_iff,
  Bool-cases, Option, none, some, List, [], ◌∷◌, ltb, arith, if◌then◌else◌,
}
use mathlib.Core.Path.{subst}
use halospawns_infra.Prelude.Results.{Result, ok, err, ◌>>=◌, Result-cases}
use halospawns_infra.Prelude.OrderedMap.{BTreeMap, number_order, get, get_or}
use halospawns_infra.Prelude.OrderedMap as Ordered
use halospawns_infra.Prelude.OrderedMap.Laws.{number_order-IsExact, get-insert}
use halospawns_infra.Delta.Value.{
  Value, null, bool, number, string, array, object, Items, nil, cons, items_of, length_items,
}
use halospawns_infra.Film.Sampling.{output_tick}
use halospawns_infra.Film.Sampling.Retime.{
  Error, expected_positions, too_many_positions, append_items, extend, merge_positions, merge,
  start, value_at, resample,
}

-- The positions of a value; one that has none is not an array.
abbrev pub positions_of : Option Items → Items
positions_of none = nil
positions_of (some vs) = vs

abbrev is_some : Option Items → Bool
is_some none = false
is_some (some vs) = true

-- All positions of some values, in order, and whether all are arrays.
unfoldable pub joined : List Value → Items
unfolding append_items items_of
joined [] = nil
joined (v ∷ vs) = append_items (positions_of (items_of v)) (joined vs)

unfoldable pub all_arrays : List Value → Bool
unfolding items_of
all_arrays [] = true
all_arrays (v ∷ vs) = is_some (items_of v) && all_arrays vs

-- The values of the ticks that a sample shows, in the order of the ticks.
unfoldable pub shown : ℕ → ℕ → ℕ → BTreeMap ℕ Value → List Value
shown stride count k [] = []
shown stride count k ((tick, value) ∷ source) =
    let rest = shown stride count k source in
    if output_tick tick stride count == k then value ∷ rest else rest

module _ (plus : ℕ → ℕ → ℕ) (positions : Bool) where
  -- Values are merged into an entry one after another.
  unfoldable pub merged : List Value → Value → Result Error Value
  merged [] target = ok target
  merged (v ∷ vs) target = merge plus positions v target >>= merged vs

  -- What the loop leaves at each sample, or at which sample it fails.
  abbrev pub Merged : (ℕ → List Value) → BTreeMap ℕ Value → Result Error (BTreeMap ℕ Value) → Type 0
  Merged vs m (ok n) =
      (k : ℕ) → merged (vs k) (value_at positions k m) ≡ ok (value_at positions k n)
  Merged vs m (err e) = (k : ℕ) × (merged (vs k) (value_at positions k m) ≡ err e)

  get_or_if :
      (b : Bool) (v w : Value) (o : Option Value)
      → get_or (if b then some v else o) w ≡ (if b then v else get_or o w)
  get_or_if true v w o = refl
  get_or_if false v w o = refl

  value_at-insert :
      (k key : ℕ) (v : Value) (m : BTreeMap ℕ Value)
      → value_at positions k (Ordered.insert number_order key v m)
        ≡ (if key == k then v else value_at positions k m)
  value_at-insert k key v m =
      ap (λ o. get_or o (start positions)) (get-insert number_order-IsExact k key v m)
      ∙ get_or_if (key == k) v (start positions) (get number_order k m)

  merged_if :
      (b : Bool) (v target old : Value) (vs : List Value)
      → (b ≡ true → merge plus positions v old ≡ ok target)
      → merged (if b then v ∷ vs else vs) old ≡ merged vs (if b then target else old)
  unfolding merged
  merged_if true v target old vs h = rw (h refl) refl
  merged_if false v target old vs h = refl

  module _ (stride count : ℕ) where
    -- One round, as each sample sees it.
    merged_round :
        (k tick : ℕ) (v target : Value) (source m : BTreeMap ℕ Value)
        → merge plus positions v (value_at positions (output_tick tick stride count) m) ≡ ok target
        → merged (shown stride count k ((tick, v) ∷ source)) (value_at positions k m)
          ≡ merged (shown stride count k source) (
              value_at positions k
                (Ordered.insert number_order (output_tick tick stride count) target m))
    unfolding shown
    merged_round k tick v target source m e =
        let key = output_tick tick stride count in
        merged_if (key == k) v target (value_at positions k m) (shown stride count k source)
          (λ here.
            subst (λ i. merge plus positions v (value_at positions i m) ≡ ok target)
              ((==_iff key k).0 here) e)
        ∙ ap (merged (shown stride count k source)) (sym (value_at-insert k key target m))

    after_round :
        (tick : ℕ) (v target : Value) (source m : BTreeMap ℕ Value)
        (r : Result Error (BTreeMap ℕ Value))
        → merge plus positions v (value_at positions (output_tick tick stride count) m) ≡ ok target
        → Merged
            (λ k. shown stride count k source)
            (Ordered.insert number_order (output_tick tick stride count) target m)
            r
        → Merged (λ k. shown stride count k ((tick, v) ∷ source)) m r
    after_round tick v target source m (ok n) e h =
        λ k. merged_round k tick v target source m e ∙ h k
    after_round tick v target source m (err x) e (k, h) =
        (k, merged_round k tick v target source m e ∙ h)

    stopped :
        (tick : ℕ) (v : Value) (source m : BTreeMap ℕ Value) (x : Error)
        → merge plus positions v (value_at positions (output_tick tick stride count) m) ≡ err x
        → merged
            (shown stride count (output_tick tick stride count) ((tick, v) ∷ source))
            (value_at positions (output_tick tick stride count) m)
          ≡ err x
    unfolding shown merged
    stopped tick v source m x e =
        let key = output_tick tick stride count in rw ((==_iff key key).1 refl, e) refl

    pub resample-Merged :
        (source m : BTreeMap ℕ Value)
        → Merged
            (λ k. shown stride count k source)
            m
            (resample plus stride count positions source m)
    unfolding resample shown merged
    resample-Merged [] m = λ k. refl
    resample-Merged ((tick, v) ∷ source) m =
        let key = output_tick tick stride count in
        elim (Result-cases (merge plus positions v (value_at positions key m))) [
          | inl (target, e) ↦ rw e (
              after_round tick v target source m _ e
                (resample-Merged source (Ordered.insert number_order key target m)))
          | inr (x, e) ↦ rw e (key, stopped tick v source m x e)
        ]

-- The positions of each sample after the loop, or the sample with too many or with a value that has none.
abbrev pub Gathered : (ℕ → List Value) → Result Error (BTreeMap ℕ Value) → Type 0
Gathered vs (ok m) =
    (k : ℕ)
    → (value_at true k m ≡ array (joined (vs k)))
      × (length_items (joined (vs k)) ≤ 64)
      × (all_arrays (vs k) ≡ true)
Gathered vs (err e) =
    (k : ℕ) × (((e ≡ too_many_positions) × (64 < length_items (joined (vs k))))
      ⊎ ((e ≡ expected_positions) × (all_arrays (vs k) ≡ false)))

-- The same for one entry that had positions already.
abbrev Entry : Items → List Value → Result Error Value → Type 0
Entry xs vs (ok t) =
    (t ≡ array (append_items xs (joined vs)))
    × (length_items (append_items xs (joined vs)) ≤ 64)
    × (all_arrays vs ≡ true)
Entry xs vs (err e) =
    ((e ≡ too_many_positions) × (64 < length_items (append_items xs (joined vs))))
    ⊎ ((e ≡ expected_positions) × (all_arrays vs ≡ false))

append_assoc_items :
    (xs ys zs : Items) → append_items (append_items xs ys) zs ≡ append_items xs (append_items ys zs)
unfolding append_items
append_assoc_items nil ys zs = refl
append_assoc_items (cons x xs) ys zs = ap (λ t. cons x t) (append_assoc_items xs ys zs)

append_nothing : (xs : Items) → append_items xs nil ≡ xs
unfolding append_items
append_nothing nil = refl
append_nothing (cons x xs) = ap (λ t. cons x t) (append_nothing xs)

length-append_items :
    (xs ys : Items) → length_items (append_items xs ys) ≡ length_items xs + length_items ys
unfolding append_items length_items
length-append_items nil ys = omega arith
length-append_items (cons x xs) ys = omega (arith, length-append_items xs ys)

-- The positions of one value more.
next_Entry :
    (xs ps : Items) (vs : List Value) (r : Result Error Value)
    → Entry (append_items xs ps) vs r
    → Entry xs (array ps ∷ vs) r
unfolding joined all_arrays items_of
next_Entry xs ps vs (ok t) h = rw (← append_assoc_items xs ps (joined vs)) h
next_Entry xs ps vs (err e) h = rw (← append_assoc_items xs ps (joined vs)) h

too_long :
    (xs ps : Items) (vs : List Value)
    → ltb 64 (length_items (append_items xs ps)) ≡ true
    → 64 < length_items (append_items xs (joined (array ps ∷ vs)))
unfolding joined items_of
too_long xs ps vs over =
    rw
      (← append_assoc_items xs ps (joined vs), length-append_items (append_items xs ps) (joined vs))
      (ground arith)

merged-Entry :
    (plus : ℕ → ℕ → ℕ) (xs : Items) (vs : List Value)
    → length_items xs ≤ 64
    → Entry xs vs (merged plus true vs (array xs))
unfolding merged merge merge_positions extend joined all_arrays items_of
merged-Entry plus xs [] few = rw (append_nothing xs) (refl, few, refl)
merged-Entry plus xs (null ∷ vs) few = inr (refl, refl)
merged-Entry plus xs (bool b ∷ vs) few = inr (refl, refl)
merged-Entry plus xs (number n ∷ vs) few = inr (refl, refl)
merged-Entry plus xs (string s ∷ vs) few = inr (refl, refl)
merged-Entry plus xs (object fs ∷ vs) few = inr (refl, refl)
merged-Entry plus xs (array ps ∷ vs) few =
    elim (Bool-cases (ltb 64 (length_items (append_items xs ps)))) [
      | inl over ↦ rw over (inl (refl, too_long xs ps vs over))
      | inr fits ↦
          rw fits (next_Entry xs ps vs _ (merged-Entry plus (append_items xs ps) vs (ground arith)))
    ]

gathered :
    (plus : ℕ → ℕ → ℕ) (vs : ℕ → List Value) (r : Result Error (BTreeMap ℕ Value))
    → Merged plus true vs [] r
    → Gathered vs r
unfolding append_items get length_items
gathered plus vs (ok m) h =
    λ k. subst (Entry nil (vs k)) (h k) (merged-Entry plus nil (vs k) (omega arith))
gathered plus vs (err e) (k, h) =
    (k, subst (Entry nil (vs k)) h (merged-Entry plus nil (vs k) (omega arith)))

-- For a metric of positions, whenever the loop of `retime_metadata` succeeds, each sample has all
-- positions of the ticks that it shows, in the order of the ticks, and at most 64, and all values
-- were arrays; where it fails, it is with the error for too many positions, and some sample has
-- more than 64, or with the error for a value that has none, and some value is no array.
pub resample-Gathered :
    (plus : ℕ → ℕ → ℕ) (stride count : ℕ) (source : BTreeMap ℕ Value)
    → Gathered (λ k. shown stride count k source) (resample plus stride count true source [])
resample-Gathered plus stride count source =
    gathered plus (λ k. shown stride count k source) _
      (resample-Merged plus true stride count source [])
