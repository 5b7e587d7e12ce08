-- ===== src/Pose/Track.antt =====
-- `track` and `untrack` of lambda/h1_film/pose_codec/src/wire.rs: one channel of one node over time.
pub mod RoundTrip
use halospawns_infra.Prelude.{
  ℕ, zero, suc, ◌+◌, ◌-◌, ◌≤◌, ◌<◌, ◌^◌, Bool, true, false, ◌&&◌, List, [], ◌∷◌, ◌++◌, length, ltb,
  leb, ◌==◌, if◌then◌else◌,
}
use halospawns_infra.Prelude.Results.{Result, ok, err}
use halospawns_infra.Prelude.Int.{ℤ, pos, negsuc, pos_part, neg_part, ◌+ℤ◌, ◌-ℤ◌}
use halospawns_infra.Pose.Error.{
  Error, unknown_track_mode, delta_overflow, value_overflow, out_of_range,
}
use halospawns_infra.Pose.Wire.{M, ◌>>=◌, pure, raise, u8, i32, signed, write_i32, write_signed}

unfoldable pub ℤ_eq : ℤ → ℤ → Bool
ℤ_eq (pos a) (pos b) = a == b
ℤ_eq (pos a) (negsuc b) = false
ℤ_eq (negsuc a) (pos b) = false
ℤ_eq (negsuc a) (negsuc b) = a == b

-- `values.iter().all(|v| *v == values[0])`, for the values after the first
unfoldable pub all_equal : ℤ → List ℤ → Bool
all_equal first [] = true
all_equal first (v ∷ vs) = ℤ_eq v first && all_equal first vs

-- The bytes of `d` and of `d2` after the loop over the pairs. The differences of i32 values and the
-- differences of these are far inside an i64.
unfoldable pub deltas : ℤ → List ℤ → List ℕ
deltas last [] = []
deltas last (v ∷ vs) = write_signed (v -ℤ last) ++ deltas v vs

unfoldable pub second_deltas : ℤ → ℤ → List ℤ → List ℕ
second_deltas last last_delta [] = []
second_deltas last last_delta (v ∷ vs) =
    write_signed (v -ℤ last -ℤ last_delta) ++ second_deltas v (v -ℤ last) vs

-- fn track, for the values `first ∷ rest`; the code indexes the first one.
unfoldable pub track : ℤ → List ℤ → List ℕ
track first rest =
    if all_equal first rest
    then 0 ∷ write_i32 first
    else if ltb (length (second_deltas first (pos 0) rest)) (length (deltas first rest))
    then 2 ∷ (write_i32 first ++ second_deltas first (pos 0) rest)
    else 1 ∷ (write_i32 first ++ deltas first rest)

-- `checked_add` of an i64 and `i32::try_from`
unfoldable pub fits : ℕ → ℤ → Bool
fits w v = ltb (pos_part v) (2 ^ (w - 1)) && leb (neg_part v) (2 ^ (w - 1))

abbrev pub checked : ℕ → Error → ℤ → Result Error ℤ
checked w e v = if fits w v then ok v else err e

abbrev pub lift_result : {A : Type 0} → Result Error A → M A
lift_result (ok a) r = ok (a, r)
lift_result (err e) r = err e

-- The next difference, from the last one and what is read.
unfoldable pub next_delta : ℕ → ℤ → ℤ → Result Error ℤ
unfolding fits
next_delta mode delta d = if mode == 1 then ok d else checked 64 delta_overflow (delta +ℤ d)

-- `for _ in 1..n`
unfoldable pub untrack_loop : ℕ → ℕ → ℤ → ℤ → M (List ℤ)
unfolding fits
untrack_loop zero mode last delta = pure []
untrack_loop (suc n) mode last delta =
    let same = (do vs ← untrack_loop n mode last delta; pure (last ∷ vs)) in
    if mode == 0 then same else (do
      d ← signed
      delta' ← lift_result (next_delta mode delta d)
      sum ← lift_result (checked 64 value_overflow (last +ℤ delta'))
      next ← lift_result (checked 32 out_of_range sum)
      vs ← untrack_loop n mode next delta'
      pure (next ∷ vs))

-- fn untrack
unfoldable pub untrack : ℕ → M (List ℤ)
unfolding untrack_loop
untrack n = do
  mode ← u8
  if ltb 2 mode
      then raise unknown_track_mode
      else do first ← i32; vs ← untrack_loop (n - 1) mode first (pos 0); pure (first ∷ vs)
