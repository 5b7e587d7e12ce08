-- ===== src/Pose/Examples.antt =====
-- The theorems on the pose codec, applied at concrete values.
use halospawns_infra.Prelude.{
  ℕ, zero, suc, ◌<◌, ◌≡◌, refl, false, none, some, List, [], ◌∷◌, ◌++◌, length, replicate, map, All,
  arith,
}
use halospawns_infra.Prelude.Results.{Result, ok}
use halospawns_infra.Prelude.Int.{ℤ, pos, negsuc}
use halospawns_infra.Delta.Writer.{text_eq}
use halospawns_infra.Pose.Error.{Error}
use halospawns_infra.Pose.Wire.{write_signed, signed}
use halospawns_infra.Pose.Wire.Bytes.{IsI32}
use halospawns_infra.Pose.Wire.Varint.{signed-write}
use halospawns_infra.Pose.Track.{track, untrack}
use halospawns_infra.Pose.Track.RoundTrip.{untrack-track}
use halospawns_infra.Pose.Runs.{Frame, Run, value_at, channel, write_runs, verify_tracks}
use halospawns_infra.Pose.Runs.Verified.{IsRun, verify_tracks-write_runs}
use halospawns_infra.Delta.Floats.{is_finite}
use halospawns_infra.Pose.Unpack.{read_runs}
use halospawns_infra.Pose.Unpack.Raw.{IsComponent}
use halospawns_infra.Pose.Unpack.ReadBack.{IsReadable, decoded, read_runs-write_runs}
use halospawns_infra.Pose.Skeleton.{is_invalid, order, world, parents}
use halospawns_infra.Pose.Skeleton.Follows.{parent_at}
use halospawns_infra.Pose.Skeleton.Sorted.{IsOrder, order-returns, order-IsOrder}
use halospawns_infra.Pose.Skeleton.Acyclic.{order-acyclic}
use halospawns_infra.Pose.Skeleton.Parents.{parents-order}

signed-write_example : signed (write_signed (negsuc 299) ++ (7 ∷ [])) ≡ ok (negsuc 299, 7 ∷ [])
signed-write_example = signed-write (negsuc 299) (7 ∷ []) (omega arith, omega arith)

untrack-track_example :
    untrack 3 (track (pos 5) (negsuc 2 ∷ pos 9 ∷ []) ++ (7 ∷ []))
    ≡ ok (pos 5 ∷ negsuc 2 ∷ pos 9 ∷ [], 7 ∷ [])
untrack-track_example =
    untrack-track (pos 5) (negsuc 2 ∷ pos 9 ∷ []) (7 ∷ []) (omega arith, omega arith)
      ((omega arith, omega arith), ((omega arith, omega arith), tt))

-- A run of two frames of one node, of which the second is kept as it is.
abbrev still : List ℤ
still = pos 0 ∷ pos 0 ∷ pos 0 ∷ pos 0 ∷ pos 0 ∷ pos 0 ∷ pos 0 ∷ pos 0 ∷ []

abbrev moved : List ℤ
moved = pos 70000 ∷ pos 0 ∷ pos 0 ∷ pos 0 ∷ pos 0 ∷ pos 0 ∷ pos 0 ∷ negsuc 4 ∷ []

abbrev two_frames : List Frame
two_frames =
    record { values = moved ∷ []; raw = none }
    ∷ record { values = still ∷ []; raw = some (replicate 13 2 ∷ []) }
    ∷ []

abbrev one_run : Run
one_run = record { first = 3; player = 15; parents = negsuc 0 ∷ []; frames = two_frames }

channels_fit : (node ch : ℕ) → All IsI32 (channel node ch two_frames)
unfolding channel value_at
channels_fit zero zero = ((omega arith, omega arith), ((omega arith, omega arith), tt))
channels_fit zero (suc zero) = ((omega arith, omega arith), ((omega arith, omega arith), tt))
channels_fit zero (suc (suc zero)) = ((omega arith, omega arith), ((omega arith, omega arith), tt))
channels_fit zero (suc (suc (suc zero))) =
    ((omega arith, omega arith), ((omega arith, omega arith), tt))
channels_fit zero (suc (suc (suc (suc zero)))) =
    ((omega arith, omega arith), ((omega arith, omega arith), tt))
channels_fit zero (suc (suc (suc (suc (suc zero))))) =
    ((omega arith, omega arith), ((omega arith, omega arith), tt))
channels_fit zero (suc (suc (suc (suc (suc (suc zero)))))) =
    ((omega arith, omega arith), ((omega arith, omega arith), tt))
channels_fit zero (suc (suc (suc (suc (suc (suc (suc zero))))))) =
    ((omega arith, omega arith), ((omega arith, omega arith), tt))
channels_fit zero (suc (suc (suc (suc (suc (suc (suc (suc ch)))))))) =
    ((omega arith, omega arith), ((omega arith, omega arith), tt))
channels_fit (suc node) ch = ((omega arith, omega arith), ((omega arith, omega arith), tt))

one_run-IsRun : IsRun one_run
one_run-IsRun = record {
  first_fits = omega arith;
  player_fits = omega arith;
  some_frame = omega arith;
  few_frames = omega arith;
  few_bones = omega arith;
  parents_fit = ((omega arith, omega arith), tt);
  values_fit = channels_fit;
}

verify_tracks-write_runs_example :
    verify_tracks (one_run ∷ []) (write_runs (one_run ∷ [])) ≡ ok (tt, [])
verify_tracks-write_runs_example =
    verify_tracks-write_runs (one_run ∷ []) (omega arith) (one_run-IsRun, tt)

-- A root with two nodes under it, the second before the first.
abbrev three_nodes : List ℤ
three_nodes = pos 2 ∷ pos 0 ∷ negsuc 0 ∷ []

order-returns_example : (r : Result Error (List ℕ)) × (order three_nodes ≡ some r)
order-returns_example = order-returns three_nodes

three_ordered : order three_nodes ≡ some (ok (2 ∷ 0 ∷ 1 ∷ []))
unfolding order
three_ordered = refl

order-IsOrder_example : IsOrder three_nodes (2 ∷ 0 ∷ 1 ∷ [])
order-IsOrder_example = order-IsOrder three_nodes (2 ∷ 0 ∷ 1 ∷ []) three_ordered

abbrev three_ranks : ℕ → ℕ
three_ranks zero = 1
three_ranks (suc zero) = 2
three_ranks (suc (suc i)) = 0

three_valid : (i : ℕ) → i < 3 → is_invalid 3 i (parent_at three_nodes i) ≡ false
unfolding is_invalid parent_at
three_valid zero h = refl
three_valid (suc zero) h = refl
three_valid (suc (suc zero)) h = refl
three_valid (suc (suc (suc i))) h = absurd (omega arith)

three_falls : (i p : ℕ) → i < 3 → parent_at three_nodes i ≡ pos p → three_ranks p < three_ranks i
unfolding parent_at
three_falls zero p h e = (let two : 2 ≡ p = cc in rw (← two) (omega arith))
three_falls (suc zero) p h e = (let none_yet : 0 ≡ p = cc in rw (← none_yet) (omega arith))
three_falls (suc (suc zero)) p h e = cc
three_falls (suc (suc (suc i))) p h e = absurd (omega arith)

order-acyclic_example : (xs : List ℕ) × (order three_nodes ≡ some (ok xs))
order-acyclic_example =
    order-acyclic three_nodes three_ranks (record { valid = three_valid; falls = three_falls })
      (omega arith) (omega arith)

two_roots : parents [] 2 world [] ≡ some (ok (negsuc 0 ∷ negsuc 0 ∷ []))
unfolding parents text_eq
two_roots = refl

parents-order_example :
    (length {A = ℤ} (negsuc 0 ∷ negsuc 0 ∷ []) ≡ 2)
    × ((xs : List ℕ) × (order (negsuc 0 ∷ negsuc 0 ∷ []) ≡ some (ok xs)))
parents-order_example =
    parents-order [] 2 world [] (negsuc 0 ∷ negsuc 0 ∷ []) (omega arith) (omega arith) two_roots

root_ordered : order (negsuc 0 ∷ []) ≡ some (ok (0 ∷ []))
unfolding order
root_ordered = refl

small_components : All IsComponent (replicate 13 2)
unfolding is_finite
small_components = (
  (omega arith, refl),
  (
    (omega arith, refl),
    (
      (omega arith, refl),
      (
        (omega arith, refl),
        (
          (omega arith, refl),
          (
            (omega arith, refl),
            (
              (omega arith, refl),
              (
                (omega arith, refl),
                (
                  (omega arith, refl),
                  (
                    (omega arith, refl),
                    ((omega arith, refl), ((omega arith, refl), ((omega arith, refl), tt))),
                  ),
                ),
              ),
            ),
          ),
        ),
      ),
    ),
  ),
)

one_run-IsReadable : IsReadable 5 0 one_run
one_run-IsReadable = record {
  is_run = one_run-IsRun;
  some_bone = omega arith;
  few_bones = omega arith;
  few_players = omega arith;
  inside = omega arith;
  few_poses = omega arith;
  ordered = (0 ∷ [], root_ordered);
  shaped = ((refl, (refl, tt)), ((refl, (refl, tt)), tt));
  raw_poses = (tt, ((refl, ((refl, small_components), tt)), tt));
}

read_runs-write_runs_example :
    read_runs 5 (write_runs (one_run ∷ [])) ≡ ok (map decoded (one_run ∷ []), [])
read_runs-write_runs_example =
    read_runs-write_runs 5 (one_run ∷ []) (omega arith) (omega arith) (one_run-IsReadable, tt)
