-- ===== src/Pose/Skeleton.antt =====
-- lambda/h1_film/pose_codec/src/pose.rs: the parents of a skeleton, and an order of its nodes in which a
-- parent comes before its children.
pub mod Follows
pub mod Sorted
pub mod Acyclic
pub mod Parents
use halospawns_infra.Prelude.{
  ℕ, zero, suc, ◌+◌, Bool, true, false, ◌&&◌, ◌||◌, not, Option, none, some, List, [], ◌∷◌, ◌++◌,
  length, replicate, set, ltb, leb, ◌==◌, if◌then◌else◌,
}
use halospawns_infra.Prelude.Results.{Result, ok, err, ◌>>=◌}
use halospawns_infra.Prelude.Int.{ℤ, pos, negsuc}
use halospawns_infra.Delta.Codes.{Text}
use halospawns_infra.Delta.Writer.{text_eq}
use halospawns_infra.Pose.Error.{
  Error, invalid_size, invalid_parent, cyclic_skeleton, missing_skeleton,
}

-- The locals of `order`.
pub record Sorting : Type 0 where
  pub sorted : List ℕ
  pub marked : List Bool

-- `done[i]`, where i is in range
unfoldable pub is_done : List Bool → ℕ → Bool
is_done [] i = false
is_done (d ∷ ds) zero = d
is_done (d ∷ ds) (suc i) = is_done ds i

-- `p < -1 || p >= parents.len() as i32 || p == i as i32`
unfoldable pub is_invalid : ℕ → ℕ → ℤ → Bool
is_invalid count i (negsuc m) = ltb 0 m
is_invalid count i (pos p) = leb count p || (p == i)

-- `p == -1 || done[p as usize]`
unfoldable pub is_ready : List Bool → ℤ → Bool
is_ready marked (negsuc m) = m == 0
is_ready marked (pos p) = is_done marked p

-- The body of the inner loop.
unfoldable pub place : ℕ → ℕ → ℤ → Sorting → Result Error Sorting
unfolding is_invalid is_ready is_done
place count i p s =
    if is_invalid count i p
    then err invalid_parent
    else ok (
        if not (is_done s.marked i) && is_ready s.marked p
        then record { sorted = s.sorted ++ (i ∷ []); marked = set s.marked i true }
        else s)

-- The inner loop, from the index i on.
unfoldable pub pass : ℕ → ℕ → List ℤ → Sorting → Result Error Sorting
unfolding place
pass count i [] s = ok s
pass count i (p ∷ ps) s = do s' ← place count i p s; pass count (i + 1) ps s'

-- The outer loop, on the rounds that are left; none if they run out.
unfoldable pub order_loop : ℕ → List ℤ → Sorting → Option (Result Error (List ℕ))
unfolding pass
order_loop zero ps s = none
order_loop (suc rounds) ps s =
    if leb (length ps) (length s.sorted)
    then some (ok s.sorted)
    else elim (pass (length ps) 0 ps s) [
      | err e ↦ some (err e)
      | ok s' ↦
          let rest = order_loop rounds ps s' in
          if length s'.sorted == length s.sorted then some (err cyclic_skeleton) else rest
    ]

abbrev pub unsorted : ℕ → Sorting
unsorted count = record { sorted = []; marked = replicate count false }

-- fn order; a round places a node, so there is one round more than nodes.
unfoldable pub order : List ℤ → Option (Result Error (List ℕ))
unfolding order_loop
order ps =
    if (length ps == 0) || ltb 64 (length ps)
    then some (err invalid_size)
    else order_loop (suc (length ps)) ps (unsorted (length ps))

-- The fields of a rig that `parents` reads.
pub record Skeleton : Type 0 where
  pub tag : Text
  pub parents : List ℤ

abbrev pub world : Text
world = 119 ∷ 111 ∷ 114 ∷ 108 ∷ 100 ∷ []

abbrev pub root : Text
root = 114 ∷ 111 ∷ 111 ∷ 116 ∷ []

unfoldable pub under_root : ℕ → List ℤ
under_root zero = []
under_root (suc n) = negsuc 0 ∷ replicate n (pos 0)

-- `rigs.iter().filter(..)`
unfoldable pub matching : Text → ℕ → List Skeleton → List Skeleton
matching tag count [] = []
matching tag count (r ∷ rs) =
    let rest = matching tag count rs in
    if text_eq r.tag tag && (length r.parents == count) then r ∷ rest else rest

-- `order(&found.parents)?` and the parents; `found.len() != 1` is an error.
unfoldable pub only_parents : List Skeleton → Option (Result Error (List ℤ))
unfolding order
only_parents [] = some (err missing_skeleton)
only_parents (r ∷ []) = elim (order r.parents) [
  | none ↦ none
  | some (err e) ↦ some (err e)
  | some (ok sorted) ↦ some (ok r.parents)
]
only_parents (r ∷ s ∷ rs) = some (err missing_skeleton)

-- fn parents; of the settings it reads `space`.
unfoldable pub parents : Text → ℕ → Text → List Skeleton → Option (Result Error (List ℤ))
unfolding only_parents matching under_root
parents tag count space rigs =
    if text_eq space world
    then some (ok (replicate count (negsuc 0)))
    else if text_eq space root
    then some (ok (under_root count))
    else only_parents (matching tag count rigs)
