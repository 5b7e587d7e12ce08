-- ===== src/Film/Counters/Lookup.antt =====
-- `get` and `index` of counters.rs beside the serialized object.
use halospawns_infra.Prelude.{
  ℕ, suc, ◌≡◌, refl, sym, ap, ◌∙◌, Bool, true, false, ◌&&◌, ◌||◌, not, Bool-cases, inl, inr, Option,
  none, some, List, [], ◌∷◌, arith, if◌then◌else◌,
}
use halospawns_infra.Prelude.OrderedMap.{get_or}
use halospawns_infra.Delta.Codes.{Text}
use halospawns_infra.Delta.Writer.{text_eq}
use halospawns_infra.Delta.Wire.{text_eq_sound}
use halospawns_infra.Delta.Value.{Value, null, object, field_at, fields_of, and_then}
use halospawns_infra.Film.Counters.{
  field_names, indices, Counters, member, at_key, counter_at, index_of, get, index, serialize_from,
  serialize,
}

unfoldable has_name : List Text → Text → Bool
has_name [] key = false
has_name (name ∷ names) key = text_eq name key || has_name names key

unfoldable distinct : List Text → Bool
unfolding has_name
distinct [] = true
distinct (name ∷ names) = not (has_name names name) && distinct names

-- A list of names with the place of each.
unfoldable numbered : ℕ → List Text → List (Text × ℕ)
numbered i [] = []
numbered i (name ∷ names) = (name, i) ∷ numbered (suc i) names

-- The counter of a name, where they are side by side.
unfoldable beside : List Text → Counters → Text → Option Value
beside [] counters key = none
beside (name ∷ names) [] key = none
beside (name ∷ names) (c ∷ counters) key =
    let rest = beside names counters key in if text_eq name key then c else rest

not_beside :
    (names : List Text) (counters : Counters) (key : Text)
    → has_name names key ≡ false
    → field_at (serialize_from names counters) key ≡ none
unfolding has_name serialize_from field_at
not_beside [] counters key h = refl
not_beside (name ∷ names) [] key h = refl
not_beside (name ∷ names) (none ∷ counters) key h =
    not_beside names counters key (ground (arith, h))
not_beside (name ∷ names) (some v ∷ counters) key h =
    ground (arith, h, not_beside names counters key)

serialize_from-beside :
    (names : List Text) (counters : Counters) (key : Text)
    → distinct names ≡ true
    → field_at (serialize_from names counters) key ≡ beside names counters key
unfolding distinct serialize_from field_at beside
serialize_from-beside [] counters key d = refl
serialize_from-beside (name ∷ names) [] key d = refl
serialize_from-beside (name ∷ names) (none ∷ counters) key d =
    elim (Bool-cases (text_eq name key)) [
      | inl here ↦ rw here (
          not_beside names counters key
            (ap (has_name names) (sym (text_eq_sound name key here)) ∙ ground (arith, d)))
      | inr other ↦ rw other (serialize_from-beside names counters key (ground (arith, d)))
    ]
serialize_from-beside (name ∷ names) (some v ∷ counters) key d =
    ap (λ o. if text_eq name key then some v else o)
      (serialize_from-beside names counters key (ground (arith, d)))

abbrev next : Option ℕ → Option ℕ
next none = none
next (some i) = some (suc i)

index_of-next :
    (i : ℕ) (names : List Text) (key : Text)
    → index_of (numbered (suc i) names) key ≡ next (index_of (numbered i names) key)
unfolding numbered index_of
index_of-next i [] key = refl
index_of-next i (name ∷ names) key = elim (Bool-cases (text_eq name key)) [
  | inl here ↦ rw here refl
  | inr other ↦ rw other (index_of-next (suc i) names key)
]

counter_at-next :
    (o : Option ℕ) (c : Option Value) (counters : Counters)
    → and_then (next o) (counter_at (c ∷ counters)) ≡ and_then o (counter_at counters)
unfolding counter_at
counter_at-next none c counters = refl
counter_at-next (some i) c counters = refl

nothing_at : (o : Option ℕ) → and_then o (counter_at []) ≡ none
unfolding counter_at
nothing_at none = refl
nothing_at (some i) = refl

numbered-beside :
    (names : List Text) (counters : Counters) (key : Text)
    → and_then (index_of (numbered 0 names) key) (counter_at counters) ≡ beside names counters key
unfolding numbered index_of beside counter_at
numbered-beside [] counters key = refl
numbered-beside (name ∷ names) [] key = nothing_at (index_of (numbered 0 (name ∷ names)) key)
numbered-beside (name ∷ names) (c ∷ counters) key = elim (Bool-cases (text_eq name key)) [
  | inl here ↦ rw here refl
  | inr other ↦
      rw (other, index_of-next 0 names key)
        (counter_at-next (index_of (numbered 0 names) key) c counters
          ∙ numbered-beside names counters key)
]

numbered_names : numbered 0 field_names ≡ indices
unfolding numbered
numbered_names = refl

names_distinct : distinct field_names ≡ true
unfolding distinct has_name text_eq
names_distinct = refl

get-beside : (counters : Counters) (key : Text) → get counters key ≡ beside field_names counters key
unfolding get
get-beside counters key =
    ap (λ t. and_then (index_of t key) (counter_at counters)) (sym numbered_names)
    ∙ numbered-beside field_names counters key

serialize-beside :
    (counters : Counters) (key : Text)
    → field_at (serialize counters) key ≡ beside field_names counters key
unfolding serialize
serialize-beside counters key = serialize_from-beside field_names counters key names_distinct

-- For any counters and any name, what `get` finds by its table of indices is what the serialized
-- object has under the name, where counters that are absent are left out; and indexing gives the
-- same, or null.
pub get-serialize :
    (counters : Counters) (key : Text)
    → (get counters key ≡ field_at (serialize counters) key)
      × (index counters key ≡ at_key (object (serialize counters)) key)
unfolding index member fields_of
get-serialize counters key =
    let e : get counters key ≡ field_at (serialize counters) key =
      get-beside counters key ∙ sym (serialize-beside counters key) in
    (e, ap (λ o. get_or o null) e)
