-- ===== src/Pose/Skeleton/Acyclic.antt =====
-- `order` of pose.rs accepts a skeleton whose parents are valid and have no cycle, and so do the
-- parents that `parents` gives.
use halospawns_infra.Prelude.{
  ℕ, zero, suc, ◌+◌, ◌≤◌, ◌<◌, ◌≡◌, refl, sym, ◌∙◌, Bool, true, false, ◌&&◌, ◌||◌, not, Option,
  some, inl, inr, List, [], ◌∷◌, length, ltb, leb, ◌==◌, arith, Bool-cases,
}
use halospawns_infra.Prelude.Results.{Result, ok}
use halospawns_infra.Prelude.Int.{ℤ, pos, negsuc}
use halospawns_infra.Pose.Error.{Error}
use halospawns_infra.Pose.Skeleton.{
  Sorting, is_done, is_invalid, is_ready, place, pass, order_loop, order, unsorted,
}
use halospawns_infra.Pose.Skeleton.Follows.{parent_at, IsSorting, IsSorting-start, all_counted}
use halospawns_infra.Pose.Skeleton.Sorted.{
  Blocked, IsTail, IsTail-next, IsTail-head, pass-Passed, start-IsTail, not_too_many,
}

-- The parents are valid, and a node ranks above its parent.
pub record IsAcyclic (ps : List ℤ) (rank : ℕ → ℕ) : Type 0 where
  pub valid : (i : ℕ) → i < length ps → is_invalid (length ps) i (parent_at ps i) ≡ false
  pub falls : (i p : ℕ) → i < length ps → parent_at ps i ≡ pos p → rank p < rank i

module _ (ps : List ℤ) (rank : ℕ → ℕ) (acyclic : IsAcyclic ps rank) where
  pass-ok :
      (qs : List ℤ) (i : ℕ) (s : Sorting)
      → IsTail ps i qs
      → (s' : Sorting) × (pass (length ps) i qs s ≡ ok s')
  unfolding pass place
  pass-ok [] i s tail = (s, refl)
  pass-ok (q ∷ qs) i s tail =
      let valid : is_invalid (length ps) i q ≡ false =
        (rw (IsTail-head ps i q qs tail) at (acyclic.valid i (omega (arith, tail.0)))) in
      rw valid (pass-ok qs (i + 1) _ (IsTail-next ps i q qs tail))

  -- A valid parent that is placed makes a node ready.
  ready_after :
      (s : Sorting) (i : ℕ) (p : ℤ)
      → is_invalid (length ps) i p ≡ false
      → ((k : ℕ) → p ≡ pos k → k < length ps → is_done s.marked k ≡ true)
      → is_ready s.marked p ≡ true
  unfolding is_invalid is_ready
  ready_after s i (pos k) valid h = h k refl (ground arith)
  ready_after s i (negsuc m) valid h = ground arith

  not_blocked : (a b : Bool) → (not a && b) ≡ false → b ≡ true → a ≡ true
  not_blocked true b h e = refl
  not_blocked false b h e = sym h ∙ e

  -- Where every node is blocked, every node is done.
  Blocked-done :
      (s : Sorting)
      → ((k : ℕ) → k < length ps → Blocked ps s k)
      → (bound i : ℕ) → rank i < bound
      → i < length ps
      → is_done s.marked i ≡ true
  Blocked-done s blocked zero i low h = absurd (omega arith)
  Blocked-done s blocked (suc bound) i low h =
      not_blocked (is_done s.marked i) (is_ready s.marked (parent_at ps i)) (blocked i h) (
        ready_after s i (parent_at ps i) (acyclic.valid i h)
          (λ k e hk. Blocked-done s blocked bound k (omega (arith, acyclic.falls i k h e)) hk))

  abbrev Accepted : Option (Result Error (List ℕ)) → Type 0
  Accepted o = (xs : List ℕ) × (o ≡ some (ok xs))

  order_loop-Accepted :
      (rounds : ℕ) (s : Sorting)
      → IsSorting ps s
      → length ps < rounds + length s.sorted
      → Accepted (order_loop rounds ps s)
  unfolding order_loop
  order_loop-Accepted zero s is h = absurd (omega (arith, not_too_many ps s is, h))
  order_loop-Accepted (suc rounds) s is h = elim (Bool-cases (leb (length ps) (length s.sorted))) [
    | inl enough ↦ rw enough (s.sorted, refl)
    | inr short ↦
        let (s', e) = pass-ok ps 0 s (start-IsTail ps) in
        let p = pass-Passed ps ps 0 s s' (start-IsTail ps) is e in
        elim (Bool-cases (length s'.sorted == length s.sorted)) [
          | inl stuck ↦
              let all = Blocked-done s (λ k hk. p.stuck (ground arith) k (omega arith) hk) in
              let full =
                all_counted s.marked
                  (λ i hi. all (suc (rank i)) i (omega arith) (omega (arith, is.size, hi))) in
              let size = is.size in
              let count = is.count in absurd (ground (arith, full, size, count))
          | inr more ↦
              rw (short, e, more)
                (order_loop-Accepted rounds s' p.is_sorting (ground (arith, h, p.grows)))
        ]
  ]

-- If a skeleton has from 1 to 64 nodes, each parent is valid, and there are ranks in which every
-- node is above its parent, then `order` gives an order.
pub order-acyclic :
    (ps : List ℤ) (rank : ℕ → ℕ)
    → IsAcyclic ps rank
    → 1 ≤ length ps
    → length ps ≤ 64
    → (xs : List ℕ) × (order ps ≡ some (ok xs))
unfolding order
order-acyclic ps rank acyclic low high =
    let fits : ((length ps == 0) || ltb 64 (length ps)) ≡ false = ground arith in
    rw fits (
      order_loop-Accepted ps rank acyclic (suc (length ps)) (unsorted (length ps))
        (IsSorting-start ps) (omega arith))
