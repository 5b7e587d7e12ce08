-- ===== src/Parser/Examples.antt =====
-- The theorems on the replay parser's parts, applied at concrete values.
use halospawns_infra.Prelude.{zero, suc, ◌+◌, ◌++◌, none, some, ltb, map, true}
use halospawns_infra.Prelude.Int.{pos}
use halospawns_infra.Delta.Codes.{Text}
use halospawns_infra.Delta.Value.{number}
use halospawns_infra.Parser.Reduce
use halospawns_infra.Parser.Reduce.{reduce}
use halospawns_infra.Parser.Reduce.Ready.{in_order}
use halospawns_infra.Parser.Reduce.InOrder.{occurs, ArriveOnce, reduce-in_order}
use halospawns_infra.Parser.Occupancy
use halospawns_infra.Parser.Occupancy.{Coordinates, Player, Occupancy, observe}
use halospawns_infra.Parser.Occupancy.Counted.{IsCounted, new-IsCounted}
use halospawns_infra.Parser.Occupancy.Observed.{observe-IsCounted}
use halospawns_infra.Prelude.{ℕ, zero, suc, ◌≤◌, ◌≡◌, refl, ap, List, [], ◌∷◌, length, take, arith}
use halospawns_infra.Prelude.Results.{Result, ok, err}
use halospawns_infra.Parser.Bounded.{Error, BoundedReader, new, read, reads}
use halospawns_infra.Parser.Bounded.Limit.{read_source, total, reads_bounded, reads_whole}

length-take : (n : ℕ) (s : List ℕ) → length (take n s) ≤ n
length-take zero s = omega arith
length-take (suc n) [] = omega arith
length-take (suc n) (x ∷ s) = omega (arith, length-take n s)

abbrev bytes_or : List ℕ → Result Error (List ℕ × List ℕ) → List ℕ
bytes_or z (ok a) = a.0
bytes_or z (err e) = z

source_fits :
    (s : List ℕ) (size : ℕ) (bs s' : List ℕ) → read_source s size ≡ ok (bs, s') → length bs ≤ size
unfolding read_source
source_fits s size bs s' e = rw (← ap (bytes_or []) e) (length-take size s)

abbrev read_out : BoundedReader (List ℕ)
read_out = record { inner = []; bytes_read = 3; max_bytes = 3 }

three_reads :
    reads read_source (new read_source (7 ∷ 8 ∷ 9 ∷ []) 3) (2 ∷ 2 ∷ 2 ∷ [])
    ≡ ok (7 ∷ 8 ∷ 9 ∷ [], read_out)
unfolding reads read read_source
three_reads = refl

reads_bounded_example :
    (length {A = ℕ} (7 ∷ 8 ∷ 9 ∷ []) ≤ 3) × (read_out.bytes_read ≡ length {A = ℕ} (7 ∷ 8 ∷ 9 ∷ []))
reads_bounded_example =
    reads_bounded read_source source_fits (7 ∷ 8 ∷ 9 ∷ []) 3 (2 ∷ 2 ∷ 2 ∷ []) (7 ∷ 8 ∷ 9 ∷ [])
      read_out three_reads

reads_whole_example :
    (r : BoundedReader (List ℕ)) × (reads read_source
        (new read_source (7 ∷ 8 ∷ 9 ∷ []) 4)
        (2 ∷ 2 ∷ [])
      ≡ ok (take (total (2 ∷ 2 ∷ [])) (7 ∷ 8 ∷ 9 ∷ []), r))
reads_whole_example = reads_whole (7 ∷ 8 ∷ 9 ∷ []) 4 (2 ∷ 2 ∷ []) (omega arith)

-- Three ticks that arrive as 2, 0, 1, and are kept in a list.
abbrev keep : ℕ → List ℕ → Result Reduce.Error (List ℕ)
keep tick kept = ok (kept ++ (tick ∷ []))

abbrev parsed : ℕ → Result Text ℕ
parsed i = ok (i + 10)

abbrev shuffled : List ℕ
shuffled = 2 ∷ 0 ∷ 1 ∷ []

shuffled_once : ArriveOnce 3 shuffled
unfolding occurs
shuffled_once zero = refl
shuffled_once (suc zero) = refl
shuffled_once (suc (suc zero)) = refl
shuffled_once (suc (suc (suc j))) = ground arith

reduce-in_order_example :
    reduce keep [] (map (λ i. (i, parsed i)) shuffled) ≡ in_order keep [] parsed 3
reduce-in_order_example = reduce-in_order keep [] parsed 3 shuffled (omega arith) shuffled_once

-- Coordinates that are whole numbers, in cells of one unit.
abbrev whole : Coordinates
whole = record {
  parse = λ s. none;
  is_whole = λ v. true;
  in_slots = λ v. ltb v 64;
  to_i64 = pos;
  is_far = λ v. ltb 1000 v;
  cell_of = pos;
}

abbrev at_origin : Player
at_origin = record {
  player_index = number 3;
  is_hostman = none;
  player_object_data = some (record {
    x = record { present = true; value = number 1 };
    y = record { present = true; value = number 2 };
    z = record { present = true; value = number 3 };
  });
}

observe-IsCounted_example : IsCounted 0 (observe whole at_origin Occupancy.new)
observe-IsCounted_example = observe-IsCounted whole at_origin Occupancy.new new-IsCounted
