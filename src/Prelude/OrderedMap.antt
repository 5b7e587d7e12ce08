-- ===== src/Prelude/OrderedMap.antt =====
-- Rust's `BTreeMap` and `BTreeSet`: the entries in the order of their keys, and `Ord` of the keys that
-- the program uses.
pub mod Laws
pub mod Totals
use Prim.Native.Nat.{ℕ}
use mathlib.Core.Bool.{Bool, true, false, ◌&&◌, ◌||◌}
use mathlib.Core.Option.{Option, none, some}
use mathlib.Core.List.{List, [], ◌∷◌, map}
use halospawns_infra.Prelude.Tests.{ltb, ◌==◌, if◌then◌else◌}

-- `Ord`
pub record Order (K : Type 0) : Type 0 where
  pub same : K → K → Bool
  pub before : K → K → Bool

abbrev pub number_order : Order ℕ
number_order = record { same = λ a b. a == b; before = λ a b. ltb a b }

-- A tuple by its first part, then by the second.
abbrev pub pair_order : {A B : Type 0} → Order A → Order B → Order (A × B)
pair_order oa ob = record {
  same = λ p q. oa.same p.0 q.0 && ob.same p.1 q.1;
  before = λ p q. oa.before p.0 q.0 || (oa.same p.0 q.0 && ob.before p.1 q.1);
}

unfoldable pub same_option : {A : Type 0} → Order A → Option A → Option A → Bool
same_option o none none = true
same_option o none (some b) = false
same_option o (some a) none = false
same_option o (some a) (some b) = o.same a b

unfoldable pub before_option : {A : Type 0} → Order A → Option A → Option A → Bool
before_option o none none = false
before_option o none (some b) = true
before_option o (some a) none = false
before_option o (some a) (some b) = o.before a b

-- `None` before every `Some`.
abbrev pub option_order : {A : Type 0} → Order A → Order (Option A)
option_order o = record { same = same_option o; before = before_option o }

abbrev pub BTreeMap : Type 0 → Type 0 → Type 0
BTreeMap K V = List (K × V)

abbrev pub is_some : {A : Type 0} → Option A → Bool
is_some none = false
is_some (some a) = true

abbrev pub get_or : {A : Type 0} → Option A → A → A
get_or none a = a
get_or (some b) a = b

module _ {K V : Type 0} (o : Order K) where
  unfoldable pub get : K → BTreeMap K V → Option V
  get k [] = none
  get k ((j, v) ∷ m) = let rest = get k m in if o.same j k then some v else rest

  abbrev pub contains_key : K → BTreeMap K V → Bool
  contains_key k m = is_some (get k m)

  -- a new key
  unfoldable pub place : K → V → BTreeMap K V → BTreeMap K V
  place k v [] = (k, v) ∷ []
  place k v ((j, w) ∷ m) =
      let rest = place k v m in if o.before k j then (k, v) ∷ (j, w) ∷ m else (j, w) ∷ rest

  -- the key of an entry
  unfoldable pub replace : K → V → BTreeMap K V → BTreeMap K V
  replace k v [] = []
  replace k v ((j, w) ∷ m) =
      let rest = replace k v m in if o.same j k then (j, v) ∷ m else (j, w) ∷ rest

  unfoldable pub insert : K → V → BTreeMap K V → BTreeMap K V
  unfolding get place replace
  insert k v m = if contains_key k m then replace k v m else place k v m

-- `remove`; a map has at most one entry for a key.
module _ {K V : Type 0} (o : Order K) where
  unfoldable pub remove : K → BTreeMap K V → BTreeMap K V
  remove k [] = []
  remove k ((j, w) ∷ m) = let rest = remove k m in if o.same j k then rest else (j, w) ∷ rest

-- `pop_first`
abbrev pub pop_first : {K V : Type 0} → BTreeMap K V → BTreeMap K V
pop_first [] = []
pop_first (e ∷ m) = m

abbrev pub keys : {K V : Type 0} → BTreeMap K V → List K
keys = map (λ e. e.0)

abbrev pub into_values : {K V : Type 0} → BTreeMap K V → List V
into_values = map (λ e. e.1)
