-- ===== src/Pose/Skeleton/Sorted.antt =====
-- `order` of pose.rs ends, orders what it accepts, and accepts every skeleton without a cycle.
use halospawns_infra.Prelude.{
  ℕ, zero, suc, ◌+◌, ◌≤◌, ◌<◌, ◌≡◌, refl, sym, ap, ◌∙◌, Bool, true, false, ◌&&◌, ◌||◌, not, Option,
  none, some, inl, inr, List, [], ◌∷◌, length, length-append, ltb, leb, ◌==◌, arith, Bool-cases,
}
use halospawns_infra.Prelude.Results.{Result, ok, err, Result-cases}
use halospawns_infra.Prelude.Int.{ℤ}
use halospawns_infra.Pose.Error.{Error, invalid_size, cyclic_skeleton}
use halospawns_infra.Pose.Skeleton.{
  Sorting, is_done, is_invalid, is_ready, place, pass, order_loop, order, unsorted,
}
use halospawns_infra.Pose.Skeleton.Follows.{
  mem, parent_at, Follows, IsSorting, IsSorting-add, IsSorting-start, count_done-le, all_done,
}

-- The nodes of the skeleton, each once and after its parent.
pub record IsOrder (ps : List ℤ) (xs : List ℕ) : Type 0 where
  pub follows : Follows ps [] xs
  pub complete : (i : ℕ) → i < length ps → mem i xs ≡ true

-- A node that a pass leaves out.
abbrev pub Blocked : List ℤ → Sorting → ℕ → Type 0
Blocked ps s k = (not (is_done s.marked k) && is_ready s.marked (parent_at ps k)) ≡ false

-- What a pass from the index i on has done.
pub record Passed (ps : List ℤ) (i : ℕ) (s s' : Sorting) : Type 0 where
  pub is_sorting : IsSorting ps s'
  pub grows : length s.sorted ≤ length s'.sorted
  pub stuck : length s'.sorted ≡ length s.sorted → (k : ℕ) → i ≤ k → k < length ps → Blocked ps s k

module _ (ps : List ℤ) where
  -- The parents from the index i on.
  abbrev pub IsTail : ℕ → List ℤ → Type 0
  IsTail i qs = (i + length qs ≡ length ps) × ((k : ℕ) → parent_at ps (i + k) ≡ parent_at qs k)

  pub IsTail-next : (i : ℕ) (q : ℤ) (qs : List ℤ) → IsTail i (q ∷ qs) → IsTail (i + 1) qs
  IsTail-next i q qs (size, found) = (
    omega (arith, size),
    λ k.
        let e : i + 1 + k ≡ i + suc k = omega arith in
        rw e (found (suc k) ∙ (unfold parent_at in refl)),
  )

  pub IsTail-head : (i : ℕ) (q : ℤ) (qs : List ℤ) → IsTail i (q ∷ qs) → parent_at ps i ≡ q
  IsTail-head i q qs (size, found) =
      let e : i + 0 ≡ i = omega arith in (rw e at (found 0)) ∙ (unfold parent_at in refl)

  pub pass-Passed :
      (qs : List ℤ) (i : ℕ) (s s' : Sorting)
      → IsTail i qs
      → IsSorting ps s
      → pass (length ps) i qs s ≡ ok s'
      → Passed ps i s s'
  unfolding pass place
  pass-Passed [] i s s' (size, found) is e =
      let same : s ≡ s' = ok_same s s' e in
      rw (← same) (record {
        is_sorting = is;
        grows = omega arith;
        stuck = λ h k low high. absurd (omega arith);
      })
    where
      ok_same : (a b : Sorting) → ◌≡◌ {A = Result Error Sorting} (ok a) (ok b) → a ≡ b
      ok_same a b h = ap (λ (r : Result Error Sorting). elim r [ ok x ↦ x | err f ↦ a ]) h
  pass-Passed (q ∷ qs) i s s' tail is e =
      let next = IsTail-next i q qs tail in
      let at_hand = IsTail-head i q qs tail in
      elim (Bool-cases (is_invalid (length ps) i q)) [
        | inl bad ↦ absurd_err (rw (pass, place, bad) at e)
        | inr good ↦ elim (Bool-cases (not (is_done s.marked i) && is_ready s.marked q)) [
          | inl free ↦
              let (new, ready) = free_parts (is_done s.marked i) (is_ready s.marked q) free in
              let is1 = IsSorting-add ps i s (omega (arith, tail.0)) is new (rw at_hand ready) in
              let p = pass-Passed qs (i + 1) _ s' next is1 (rw (pass, place, good, free) at e) in
              record {
                is_sorting = p.is_sorting;
                grows = omega (arith, p.grows, length-append s.sorted (i ∷ []));
                stuck = λ h k low high.
                    absurd (omega (arith, p.grows, length-append s.sorted (i ∷ []), h));
              }
          | inr blocked ↦
              let p = pass-Passed qs (i + 1) s s' next is (rw (pass, place, good, blocked) at e) in
              record {
                is_sorting = p.is_sorting;
                grows = p.grows;
                stuck = λ h k low high. elim (Bool-cases (i == k)) [
                  | inl here ↦ (let same : i ≡ k = ground arith in rw (← same, at_hand) blocked)
                  | inr later ↦ p.stuck h k (ground arith) high
                ];
              }
        ]
      ]
    where
      absurd_err :
          {A : Type 0} {f : Error} {a : Sorting} → ◌≡◌ {A = Result Error Sorting} (err f) (ok a) → A
      absurd_err h = cc

      free_parts : (a b : Bool) → (not a && b) ≡ true → (a ≡ false) × (b ≡ true)
      free_parts true b h = cc
      free_parts false b h = (refl, h)

  pub start-IsTail : IsTail 0 ps
  start-IsTail = (omega arith, λ k. (let e : 0 + k ≡ k = omega arith in rw e refl))

  -- Enough nodes are sorted: all of them are.
  enough-IsOrder :
      (s : Sorting) → IsSorting ps s → length ps ≤ length s.sorted → IsOrder ps s.sorted
  enough-IsOrder s is h = record {
    follows = is.follows;
    complete = λ i k.
        sym (is.marks i)
        ∙ all_done s.marked (omega (arith, h, is.count, is.size)) i (omega (arith, is.size, k));
  }

  pub not_too_many : (s : Sorting) → IsSorting ps s → length s.sorted ≤ length ps
  not_too_many s is = omega (arith, count_done-le s.marked, is.count, is.size)

  -- What a loop with enough rounds gives.
  abbrev Ordered : Option (Result Error (List ℕ)) → Type 0
  Ordered o =
      (r : Result Error (List ℕ)) × ((o ≡ some r) × ((xs : List ℕ) → r ≡ ok xs → IsOrder ps xs))

  abbrev result_or : List ℕ → Result Error (List ℕ) → List ℕ
  result_or zs (ok xs) = xs
  result_or zs (err e) = zs

  Ordered-err : (e : Error) → Ordered (some (err e))
  Ordered-err e = (err e, (refl, λ xs h. cc))

  order_loop-Ordered :
      (rounds : ℕ) (s : Sorting)
      → IsSorting ps s
      → length ps < rounds + length s.sorted
      → Ordered (order_loop rounds ps s)
  unfolding order_loop
  order_loop-Ordered zero s is h = absurd (omega (arith, not_too_many s is, h))
  order_loop-Ordered (suc rounds) s is h = elim (Bool-cases (leb (length ps) (length s.sorted))) [
    | inl enough ↦ rw enough (
      ok s.sorted,
      (
        refl,
        λ xs e.
            let same : s.sorted ≡ xs = ap (result_or []) e in
            rw (← same) (enough-IsOrder s is (ground arith)),
      ),
    )
    | inr short ↦ elim (Result-cases (pass (length ps) 0 ps s)) [
      | inr (f, e) ↦ rw (short, e) (Ordered-err f)
      | inl (s', e) ↦
          let p = pass-Passed ps 0 s s' start-IsTail is e in
          elim (Bool-cases (length s'.sorted == length s.sorted)) [
            | inl stuck ↦ rw (short, e, stuck) (Ordered-err cyclic_skeleton)
            | inr more ↦
                rw (short, e, more)
                  (order_loop-Ordered rounds s' p.is_sorting (ground (arith, h, p.grows)))
          ]
    ]
  ]

  order-Ordered : Ordered (order ps)
  unfolding order
  order-Ordered = elim (Bool-cases ((length ps == 0) || ltb 64 (length ps))) [
    | inl bad ↦ rw bad (Ordered-err invalid_size)
    | inr good ↦ rw good (
        order_loop-Ordered (suc (length ps)) (unsorted (length ps)) (IsSorting-start ps)
          (omega arith))
  ]

-- For every list of parents, the loop of `order` ends within one round more than there are nodes,
-- with an order or an error.
pub order-returns : (ps : List ℤ) → (r : Result Error (List ℕ)) × (order ps ≡ some r)
order-returns ps = let (r, (e, _)) = order-Ordered ps in (r, e)

-- An order that `order` gives has every node of the skeleton once, and a node whose parent is not
-- -1 behind its parent.
pub order-IsOrder : (ps : List ℤ) (xs : List ℕ) → order ps ≡ some (ok xs) → IsOrder ps xs
order-IsOrder ps xs h =
    let (r, (e, found)) = order-Ordered ps in found xs (ap (result_of (ok [])) (sym e ∙ h))
  where
    result_of : Result Error (List ℕ) → Option (Result Error (List ℕ)) → Result Error (List ℕ)
    result_of z none = z
    result_of z (some r) = r
