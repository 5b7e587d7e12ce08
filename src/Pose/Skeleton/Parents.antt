-- ===== src/Pose/Skeleton/Parents.antt =====
-- The parents that `parents` of pose.rs gives can be ordered.
use halospawns_infra.Prelude.{
  ℕ, zero, suc, ◌≤◌, ◌<◌, ◌≡◌, refl, sym, ap, ◌∙◌, false, ◌&&◌, Option, none, some, inl, inr, List,
  [], ◌∷◌, length, All, replicate, ◌==◌, arith, Bool-cases, Option-cases,
}
use halospawns_infra.Prelude.Results.{Result, ok, err, Result-cases}
use halospawns_infra.Prelude.Int.{ℤ, pos, negsuc}
use halospawns_infra.Delta.Codes.{Text}
use halospawns_infra.Delta.Writer.{text_eq}
use halospawns_infra.Pose.Error.{Error}
use halospawns_infra.Pose.Skeleton.{
  is_invalid, order, Skeleton, world, root, under_root, matching, only_parents, parents,
}
use halospawns_infra.Pose.Skeleton.Follows.{parent_at}
use halospawns_infra.Pose.Skeleton.Acyclic.{IsAcyclic, order-acyclic}

-- No node has a parent.
no_parent : (n i : ℕ) → parent_at (replicate n (negsuc 0)) i ≡ negsuc 0
unfolding parent_at
no_parent zero i = refl
no_parent (suc n) zero = refl
no_parent (suc n) (suc i) = no_parent n i

length-replicate : {A : Type 0} (n : ℕ) (a : A) → length (replicate n a) ≡ n
length-replicate zero a = refl
length-replicate (suc n) a = ap (λ (m : ℕ). suc m) (length-replicate n a)

root_or_zero : (n i : ℕ) → i < n → parent_at (replicate n (pos 0)) i ≡ pos 0
unfolding parent_at
root_or_zero zero i h = absurd (omega arith)
root_or_zero (suc n) zero h = refl
root_or_zero (suc n) (suc i) h = root_or_zero n i (omega arith)

absurd_root : {A : Type 0} (p : ℕ) → ◌≡◌ {A = ℤ} (negsuc 0) (pos p) → A
absurd_root p h = cc

same_pos : (a b : ℕ) → ◌≡◌ {A = ℤ} (pos a) (pos b) → a ≡ b
same_pos a b h = cc

world-IsAcyclic : (n : ℕ) → IsAcyclic (replicate n (negsuc 0)) (λ i. i)
unfolding is_invalid
world-IsAcyclic n = record {
  valid = λ i h. rw (no_parent n i) refl;
  falls = λ i p h e. absurd_root p (sym (no_parent n i) ∙ e);
}

length-under_root : (n : ℕ) → length (under_root n) ≡ n
unfolding under_root
length-under_root zero = refl
length-under_root (suc n) = ap (λ (m : ℕ). suc m) (length-replicate n (pos 0))

under_root-IsAcyclic : (n : ℕ) → IsAcyclic (under_root n) (λ i. i)
unfolding under_root parent_at is_invalid
under_root-IsAcyclic zero = record {
  valid = λ i h. absurd (omega arith);
  falls = λ i p h e. absurd (omega arith);
}
under_root-IsAcyclic (suc n) = record { valid = valid; falls = falls }
  where
    valid :
        (i : ℕ)
        → i < length (under_root (suc n))
        → is_invalid (length (under_root (suc n))) i (parent_at (under_root (suc n)) i) ≡ false
    valid zero h = refl
    valid (suc i) h =
        rw (root_or_zero n i (omega (arith, h, length-replicate n (pos 0)))) (ground (arith, h))

    falls :
        (i p : ℕ)
        → i < length (under_root (suc n))
        → parent_at (under_root (suc n)) i ≡ pos p
        → p < i
    falls zero p h e = absurd_root p e
    falls (suc i) p h e =
        (let zero_parent : p ≡ 0 =
            same_pos p 0
              (sym e ∙ root_or_zero n i (omega (arith, h, length-replicate n (pos 0)))) in
          omega (arith, zero_parent))

matching-length :
    (tag : Text) (count : ℕ) (rigs : List Skeleton)
    → All (λ (r : Skeleton). length r.parents ≡ count) (matching tag count rigs)
unfolding matching
matching-length tag count [] = tt
matching-length tag count (r ∷ rs) =
    elim (Bool-cases (text_eq r.tag tag && (length r.parents == count))) [
      | inl t ↦ rw t (ground arith, matching-length tag count rs)
      | inr t ↦ rw t (matching-length tag count rs)
    ]

abbrev IsOrdered : ℕ → List ℤ → Type 0
IsOrdered count ps = (length ps ≡ count) × ((xs : List ℕ) × (order ps ≡ some (ok xs)))

IsOrdered-same : (count : ℕ) (a ps : List ℤ) → a ≡ ps → IsOrdered count a → IsOrdered count ps
IsOrdered-same count a ps e h = rw (← e) h

abbrev parents_or : Option (Result Error (List ℤ)) → List ℤ
parents_or none = []
parents_or (some (ok ps)) = ps
parents_or (some (err e)) = []

only_parents-IsOrdered :
    (count : ℕ) (rs : List Skeleton) (ps : List ℤ)
    → All (λ (r : Skeleton). length r.parents ≡ count) rs
    → only_parents rs ≡ some (ok ps)
    → IsOrdered count ps
unfolding only_parents
only_parents-IsOrdered count [] ps h e = cc
only_parents-IsOrdered count (r ∷ s ∷ rs) ps h e = cc
only_parents-IsOrdered count (r ∷ []) ps (size, _) e = elim (Option-cases (order r.parents)) [
  | inl eo ↦ absurd_none (rw (only_parents, eo) at e)
  | inr (o, eo) ↦ elim (Result-cases o) [
    | inr (f, ef) ↦ absurd_err (rw (only_parents, eo, ef) at e)
    | inl (xs, ex) ↦
        let same : r.parents ≡ ps = ap parents_or (rw (only_parents, eo, ex) at e) in
        IsOrdered-same count _ ps same
          (size, (xs, eo ∙ ap (λ (r : Result Error (List ℕ)). some r) ex))
  ]
]
  where
    absurd_none : {A : Type 0} → ◌≡◌ {A = Option (Result Error (List ℤ))} none (some (ok ps)) → A
    absurd_none h = cc

    absurd_err :
        {A : Type 0} {f : Error}
        → ◌≡◌ {A = Option (Result Error (List ℤ))} (some (err f)) (some (ok ps))
        → A
    absurd_err h = cc

-- If `parents` gives parents for a count from 1 to 64, then there are that many, and `order` gives
-- an order of them.
pub parents-order :
    (tag : Text) (count : ℕ) (space : Text) (rigs : List Skeleton) (ps : List ℤ)
    → 1 ≤ count
    → count ≤ 64
    → parents tag count space rigs ≡ some (ok ps)
    → (length ps ≡ count) × ((xs : List ℕ) × (order ps ≡ some (ok xs)))
unfolding parents
parents-order tag count space rigs ps low high e = elim (Bool-cases (text_eq space world)) [
  | inl w ↦
      let same : replicate count (negsuc 0) ≡ ps = ap parents_or (rw (parents, w) at e) in
      let size = length-replicate count (negsuc 0) in
      IsOrdered-same count _ ps same (
        size,
        order-acyclic (replicate count (negsuc 0)) (λ i. i) (world-IsAcyclic count)
            (omega (arith, size)) (omega (arith, size)),
      )
  | inr w ↦ elim (Bool-cases (text_eq space root)) [
    | inl t ↦
        let same : under_root count ≡ ps = ap parents_or (rw (parents, w, t) at e) in
        let size = length-under_root count in
        IsOrdered-same count _ ps same (
          size,
          order-acyclic (under_root count) (λ i. i) (under_root-IsAcyclic count)
              (omega (arith, size)) (omega (arith, size)),
        )
    | inr t ↦
        only_parents-IsOrdered count (matching tag count rigs) ps (matching-length tag count rigs)
          (rw (parents, w, t) at e)
  ]
]
