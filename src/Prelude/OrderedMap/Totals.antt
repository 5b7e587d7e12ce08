-- ===== src/Prelude/OrderedMap/Totals.antt =====
-- The sum of the counts in a map.
use Prim.Native.Nat.{ℕ, ◌+◌, ◌≤◌}
use mathlib.Core.Path.{◌≡◌, refl}
use mathlib.Core.Logic.{inl, inr}
use mathlib.Core.Option.{some}
use mathlib.Core.List.{[], ◌∷◌}
use native.Mathlib.Omega.{arith}
use halospawns_infra.Prelude.Tests.{Bool-cases, Option-cases}
use halospawns_infra.Prelude.OrderedMap.{Order, BTreeMap, get, place, replace, insert, get_or}
use halospawns_infra.Prelude.OrderedMap.Laws.{IsExact, absurd_none}

-- The sum of all counts.
unfoldable pub total : {K : Type 0} → BTreeMap K ℕ → ℕ
total [] = 0
total ((k, n) ∷ m) = n + total m

module _ {K : Type 0} {o : Order K} (exact : IsExact o) where
  total-replace :
      (k : K) (n old : ℕ) (m : BTreeMap K ℕ)
      → get o k m ≡ some old
      → total (replace o k n m) + old ≡ total m + n
  unfolding total replace get
  total-replace k n old [] h = absurd_none h
  total-replace k n old ((j, w) ∷ m) h = elim (Bool-cases (o.same j k)) [
    | inl here ↦ let same_value : w ≡ old = ground arith in rw here (omega (arith, same_value))
    | inr there ↦ rw there (omega (arith, total-replace k n old m (ground arith)))
  ]

  total-place : (k : K) (n : ℕ) (m : BTreeMap K ℕ) → total (place o k n m) ≡ n + total m
  unfolding total place
  total-place k n [] = refl
  total-place k n ((j, w) ∷ m) = ground (arith, total-place k n m)

  -- An entry is replaced in the sum, or added to it.
  pub total-insert :
      (k : K) (n : ℕ) (m : BTreeMap K ℕ)
      → total (insert o k n m) + get_or (get o k m) 0 ≡ total m + n
  unfolding insert
  total-insert k n m = elim (Option-cases (get o k m)) [
    | inl new ↦ rw new (omega (arith, total-place k n m))
    | inr (old, found) ↦ rw found (total-replace k n old m found)
  ]

  pub get-le-total : (k : K) (m : BTreeMap K ℕ) → get_or (get o k m) 0 ≤ total m
  unfolding get total
  get-le-total k [] = omega arith
  get-le-total k ((j, w) ∷ m) = ground (arith, get-le-total k m)
