-- ===== src/Prelude/OrderedMap/Laws.antt =====
-- What the operations of the maps promise to the code that uses them.
use Prim.Native.Nat.{ℕ, suc, ◌+◌, ◌≤◌, ◌<◌}
use mathlib.Core.Path.{◌≡◌, refl, ap, sym}
use mathlib.Core.Logic.{inl, inr}
use mathlib.Core.Bool.{Bool, true, false, ◌&&◌}
use mathlib.Core.Option.{Option, none, some}
use mathlib.Core.List.{[], ◌∷◌}
use native.Mathlib.Omega.{arith}
use halospawns_infra.Prelude.Tests.{==_iff, if◌then◌else◌, Bool-cases}
use halospawns_infra.Prelude.Lists.{length, All}
use halospawns_infra.Prelude.OrderedMap.{
  Order, number_order, pair_order, option_order, same_option, BTreeMap, get, contains_key, place,
  replace, insert, remove,
}

-- `Eq` of keys is equality.
pub record IsExact {K : Type 0} (o : Order K) : Type 0 where
  pub same_sound : (a b : K) → o.same a b ≡ true → a ≡ b
  pub same_refl : (a : K) → o.same a a ≡ true

pub number_order-IsExact : IsExact number_order
number_order-IsExact = record {
  same_sound = λ a b e. (==_iff a b).0 e;
  same_refl = λ a. (==_iff a a).1 refl;
}

and_parts : (a b : Bool) → (a && b) ≡ true → (a ≡ true) × (b ≡ true)
and_parts a b e = ground arith

pub pair_order-IsExact :
    {A B : Type 0} {oa : Order A} {ob : Order B}
    → IsExact oa
    → IsExact ob
    → IsExact (pair_order oa ob)
pair_order-IsExact {oa = oa} {ob = ob} ea eb = record {
  same_sound = λ p q e.
      let parts = and_parts (oa.same p.0 q.0) (ob.same p.1 q.1) e in
      λ i. (ea.same_sound p.0 q.0 parts.0 i, eb.same_sound p.1 q.1 parts.1 i);
  same_refl = λ p. rw (ea.same_refl p.0) (eb.same_refl p.1);
}

same_option_sound :
    {A : Type 0} {o : Order A} (e : IsExact o) (a b : Option A) → same_option o a b ≡ true → a ≡ b
unfolding same_option
same_option_sound e none none h = refl
same_option_sound e none (some b) h = cc
same_option_sound e (some a) none h = cc
same_option_sound e (some a) (some b) h = ap some (e.same_sound a b h)

same_option_refl :
    {A : Type 0} {o : Order A} (e : IsExact o) (a : Option A) → same_option o a a ≡ true
unfolding same_option
same_option_refl e none = refl
same_option_refl e (some a) = e.same_refl a

pub option_order-IsExact : {A : Type 0} {o : Order A} → IsExact o → IsExact (option_order o)
option_order-IsExact e = record { same_sound = same_option_sound e; same_refl = same_option_refl e }

pub absurd_none : {V G : Type 0} {v : V} → none ≡ some v → G
absurd_none e = cc

module _ {K V : Type 0} {o : Order K} (exact : IsExact o) where
  pub get-replace :
      (j k : K) (v : V) (m : BTreeMap K V)
      → contains_key o k m ≡ true
      → get o j (replace o k v m) ≡ (if o.same k j then some v else get o j m)
  unfolding get replace
  get-replace j k v [] h = cc
  get-replace j k v ((i, w) ∷ m) h = ground (
    arith,
    exact.same_sound i k,
    exact.same_sound i j,
    exact.same_sound k j,
    exact.same_refl k,
    get-replace j k v m,
  )

  get-place :
      (j k : K) (v : V) (m : BTreeMap K V)
      → contains_key o k m ≡ false
      → get o j (place o k v m) ≡ (if o.same k j then some v else get o j m)
  unfolding get place
  get-place j k v [] h = refl
  get-place j k v ((i, w) ∷ m) h = ground (
    arith,
    exact.same_sound i k,
    exact.same_sound i j,
    exact.same_sound k j,
    exact.same_refl k,
    get-place j k v m,
  )

  -- A map after an insertion.
  pub get-insert :
      (j k : K) (v : V) (m : BTreeMap K V)
      → get o j (insert o k v m) ≡ (if o.same k j then some v else get o j m)
  unfolding insert
  get-insert j k v m = elim (Bool-cases (contains_key o k m)) [
    | inl old ↦ rw old (get-replace j k v m old)
    | inr new ↦ rw new (get-place j k v m new)
  ]

module _ {K V : Type 0} {o : Order K} (exact : IsExact o) where
  pub get-remove :
      (j k : K) (m : BTreeMap K V)
      → get o j (remove o k m) ≡ (if o.same k j then none else get o j m)
  unfolding get remove
  get-remove j k [] = ground arith
  get-remove j k ((i, w) ∷ m) = ground (
    arith,
    exact.same_sound i k,
    exact.same_sound i j,
    exact.same_sound k j,
    exact.same_refl k,
    get-remove j k m,
  )

  length-remove-le : (k : K) (m : BTreeMap K V) → length (remove o k m) ≤ length m
  unfolding remove
  length-remove-le k [] = omega arith
  length-remove-le k ((j, w) ∷ m) = ground (arith, length-remove-le k m)

  pub length-remove-lt :
      (k : K) (v : V) (m : BTreeMap K V) → get o k m ≡ some v → length (remove o k m) < length m
  unfolding get remove
  length-remove-lt k v [] h = absurd_none h
  length-remove-lt k v ((j, w) ∷ m) h = elim (Bool-cases (o.same j k)) [
    | inl here ↦ rw here (omega (arith, length-remove-le k m))
    | inr there ↦ rw there (omega (arith, length-remove-lt k v m (ground arith)))
  ]

  -- A map in which nothing is found is empty.
  pub empty_map : (m : BTreeMap K V) → ((k : K) → get o k m ≡ none) → m ≡ []
  unfolding get
  empty_map [] h = refl
  empty_map ((j, w) ∷ m) h = absurd_none (sym (rw (exact.same_refl j) at (h j)))

module _ {K V : Type 0} (o : Order K) where
  pub length-replace : (k : K) (v : V) (m : BTreeMap K V) → length (replace o k v m) ≡ length m
  unfolding replace
  length-replace k v [] = refl
  length-replace k v ((j, w) ∷ m) = ground (arith, length-replace k v m)

  length-place : (k : K) (v : V) (m : BTreeMap K V) → length (place o k v m) ≡ suc (length m)
  unfolding place
  length-place k v [] = refl
  length-place k v ((j, w) ∷ m) = ground (arith, length-place k v m)

  pub length-insert :
      (k : K) (v : V) (m : BTreeMap K V)
      → length (insert o k v m) ≡ (if contains_key o k m then length m else suc (length m))
  unfolding insert
  length-insert k v m = ground (arith, length-replace k v m, length-place k v m)

  pub insert_new :
      (k : K) (v : V) (m : BTreeMap K V) → get o k m ≡ none → insert o k v m ≡ place o k v m
  unfolding insert
  insert_new k v m e = rw e refl

  module _ (p : K × V → Bool) where
    -- How many entries pass a test.
    unfoldable pub count : BTreeMap K V → ℕ
    count [] = 0
    count (e ∷ m) = (if p e then 1 else 0) + count m

    pub count-place :
        (k : K) (v : V) (m : BTreeMap K V)
        → count (place o k v m) ≡ (if p (k, v) then 1 else 0) + count m
    unfolding count place
    count-place k v [] = refl
    count-place k v ((j, w) ∷ m) = ground (arith, count-place k v m)

    pub count-replace :
        (exact : IsExact o) (k : K) (v w : V) (m : BTreeMap K V)
        → get o k m ≡ some w
        → count (replace o k v m) + (if p (k, w) then 1 else 0)
          ≡ (if p (k, v) then 1 else 0) + count m
    unfolding count replace get
    count-replace exact k v w [] h = cc
    count-replace exact k v w ((j, u) ∷ m) h = elim (Bool-cases (o.same j k)) [
      | inl here ↦
          let same_value : u ≡ w = ground arith in
          rw here (rw (exact.same_sound j k here, same_value) (omega arith))
      | inr there ↦ rw there (omega (arith, count-replace exact k v w m (ground arith)))
    ]

module _ {K V : Type 0} (P : K × V → Type 0) {o : Order K} (exact : IsExact o) where
  All-place : (k : K) (v : V) (m : BTreeMap K V) → P (k, v) → All P m → All P (place o k v m)
  unfolding place
  All-place k v [] p ps = (p, tt)
  All-place k v ((j, w) ∷ m) p (q, ps) = elim (Bool-cases (o.before k j)) [
    | inl here ↦ rw here (p, (q, ps))
    | inr there ↦ rw there (q, All-place k v m p ps)
  ]

  pub All-replace :
      (k : K) (v : V) (m : BTreeMap K V) → P (k, v) → All P m → All P (replace o k v m)
  unfolding replace
  All-replace k v [] p ps = tt
  All-replace k v ((j, w) ∷ m) p (q, ps) = elim (Bool-cases (o.same j k)) [
    | inl here ↦ rw here (rw (exact.same_sound j k here) (p, ps))
    | inr there ↦ rw there (q, All-replace k v m p ps)
  ]

  pub All-insert : (k : K) (v : V) (m : BTreeMap K V) → P (k, v) → All P m → All P (insert o k v m)
  unfolding insert
  All-insert k v m p ps = elim (Bool-cases (contains_key o k m)) [
    | inl old ↦ rw old (All-replace k v m p ps)
    | inr new ↦ rw new (All-place k v m p ps)
  ]

  pub get-All : (k : K) (v : V) (m : BTreeMap K V) → get o k m ≡ some v → All P m → P (k, v)
  unfolding get
  get-All k v [] e ps = absurd_none e
  get-All k v ((j, w) ∷ m) e (p, ps) = elim (Bool-cases (o.same j k)) [
    | inl here ↦
        let same_value : w ≡ v = ground arith in rw (← exact.same_sound j k here, ← same_value) p
    | inr there ↦ get-All k v m (ground arith) ps
  ]
