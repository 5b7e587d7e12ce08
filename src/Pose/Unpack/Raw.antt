-- ===== src/Pose/Unpack/Raw.antt =====
-- The raw poses of a run are read back with the indices of their frames.
use mathlib.Core.List.{append_assoc, append-nil}
use halospawns_infra.Prelude.{
  ℕ, ◌+◌, ◌^◌, ◌<◌, ◌≤◌, ◌≡◌, refl, true, false, ◌||◌, not, Option, none, some, inl, inr, List, [],
  ◌∷◌, ◌++◌, length, All, leb, arith, Option-cases,
}
use halospawns_infra.Delta.Floats.{is_finite}
use halospawns_infra.Delta.Values.{from_le-to_le_eight}
use halospawns_infra.Pose.Error.{nonfinite_raw}
use halospawns_infra.Pose.Wire.{write_u16}
use halospawns_infra.Pose.Wire.Gives.{Gives, Gives-bind, Gives-then, Gives-pure, Gives-u16}
use halospawns_infra.Pose.Runs.{
  Frame, write_components, write_pose, count_raw, write_raw_frame, write_raw,
}
use halospawns_infra.Pose.Runs.Verified.{Gives-expect, Gives-word}
use halospawns_infra.Pose.Unpack.{Raws, has_raw, read_components, read_pose, read_raws}

-- A finite f64, and a pose of nodes of thirteen of them.
abbrev pub IsComponent : ℕ → Type 0
IsComponent v = (v < 2 ^ 64) × (is_finite v ≡ true)

abbrev pub IsNode : List ℕ → Type 0
IsNode node = (length node ≡ 13) × All IsComponent node

abbrev pub IsPose : ℕ → List (List ℕ) → Type 0
IsPose bones pose = (length pose ≡ bones) × All IsNode pose

abbrev pub RawIsPose : ℕ → Option (List (List ℕ)) → Type 0
RawIsPose bones none = Unit
RawIsPose bones (some pose) = IsPose bones pose

Gives-components :
    (vs : List ℕ)
    → All IsComponent vs
    → Gives (read_components (length vs)) (write_components vs) vs
unfolding read_components write_components
Gives-components [] h = Gives-pure []
Gives-components (v ∷ vs) ((small, finite), h) =
    let back = from_le-to_le_eight v small in
    Gives-bind _ _ (Gives-word v) (
      rw back (
        Gives-expect (is_finite v) nonfinite_raw _ finite
          (Gives-then _ _ (Gives-components vs h) (Gives-pure (v ∷ vs)))))

Gives-node : (node : List ℕ) → IsNode node → Gives (read_components 13) (write_components node) node
Gives-node node (size, h) = rw size at (Gives-components node h)

Gives-nodes :
    (nodes : List (List ℕ))
    → All IsNode nodes
    → Gives (read_pose (length nodes)) (write_pose nodes) nodes
unfolding read_pose write_pose
Gives-nodes [] h = Gives-pure []
Gives-nodes (node ∷ nodes) (hn, h) =
    Gives-bind (read_components 13) _ (Gives-node node hn)
      (Gives-then _ _ (Gives-nodes nodes h) (Gives-pure (node ∷ nodes)))

Gives-pose :
    (bones : ℕ) (pose : List (List ℕ))
    → IsPose bones pose
    → Gives (read_pose bones) (write_pose pose) pose
Gives-pose bones pose (size, h) = rw size at (Gives-nodes pose h)

-- The raw poses of frames from an index on.
unfoldable pub raws_at : ℕ → Option (List (List ℕ)) → Raws
raws_at index none = []
raws_at index (some pose) = (index, pose) ∷ []

unfoldable pub raws_from : ℕ → List Frame → Raws
unfolding raws_at
raws_from index [] = []
raws_from index (f ∷ fs) = raws_at index f.raw ++ raws_from (index + 1) fs

-- All indices are below.
abbrev pub AllBelow : ℕ → Raws → Type 0
AllBelow n = All (λ (r : ℕ × List (List ℕ)). r.0 < n)

has_raw-below : (n : ℕ) (raw : Raws) → AllBelow n raw → has_raw n raw ≡ false
unfolding has_raw
has_raw-below n [] h = refl
has_raw-below n ((i, pose) ∷ raw) (hi, h) = ground (arith, has_raw-below n raw h, hi)

AllBelow-snoc :
    (n i : ℕ) (pose : List (List ℕ)) (raw : Raws)
    → i < n
    → AllBelow i raw
    → AllBelow n (raw ++ ((i, pose) ∷ []))
AllBelow-snoc n i pose [] low h = (low, tt)
AllBelow-snoc n i pose ((j, p) ∷ raw) low (hj, h) =
    (omega (arith, hj), AllBelow-snoc n i pose raw low h)

AllBelow-weaken : (n i : ℕ) (raw : Raws) → i ≤ n → AllBelow i raw → AllBelow n raw
AllBelow-weaken n i [] low h = tt
AllBelow-weaken n i ((j, p) ∷ raw) low (hj, h) = (omega (arith, hj), AllBelow-weaken n i raw low h)

module _ (n bones : ℕ) (few : n < 2 ^ 16) where
  pub Gives-raws :
      (fs : List Frame) (index : ℕ) (raw : Raws)
      → index + length fs ≤ n
      → AllBelow index raw
      → All (λ (f : Frame). RawIsPose bones f.raw) fs
      → Gives
          (read_raws (count_raw fs) n bones raw)
          (write_raw index fs)
          (raw ++ raws_from index fs)
  unfolding read_raws write_raw count_raw raws_from raws_at write_raw_frame
  Gives-raws [] index raw low below h = rw (append-nil raw) (Gives-pure raw)
  Gives-raws (f ∷ fs) index raw low below (hf, h) = elim (Option-cases f.raw) [
    | inl e ↦ rw e (
        Gives-raws fs (index + 1) raw (omega (arith, low))
          (AllBelow-weaken (index + 1) index raw (omega arith) below) h)
    | inr (pose, e) ↦
        let unused = has_raw-below index raw below in
        let inside : leb n index ≡ false = ground (arith, low) in
        let free : not (leb n index || has_raw index raw) ≡ true = rw (inside, unused) refl in
        let next = AllBelow-snoc (index + 1) index pose raw (omega arith) below in
        let rest =
          Gives-raws fs (index + 1) (raw ++ ((index, pose) ∷ [])) (omega (arith, low)) next h in
        rw (e, append_assoc (write_u16 index) (write_pose pose) (write_raw (index + 1) fs))
          (Gives-bind _ _ (Gives-u16 index (omega (arith, low, few))) (
            Gives-expect _ _ _ free (
              Gives-bind _ _ (Gives-pose bones pose (rw e at hf))
                (rw (append_assoc raw ((index, pose) ∷ []) (raws_from (index + 1) fs)) at rest))))
  ]
