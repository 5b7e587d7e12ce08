-- ===== src/Film/Examples.antt =====
-- The theorems on the film encoder's parts, applied at concrete values.
use halospawns_infra.Prelude.{◌^◌, ◌+◌, some, none, if◌then◌else◌}
use halospawns_infra.Delta.Examples.Toy.{toy, toy-Lawful}
use halospawns_infra.Delta.Floats.{exact_f32}
use halospawns_infra.Delta.Value.{
  Value, null, number, array, object, Items, nil, cons, end, field, items_of, number_of,
  length_items, has_key, field_at,
}
use halospawns_infra.Delta.Writer.{text_eq}
use halospawns_infra.Delta.FloatArray.{exact_number, exact_numbers}
use halospawns_infra.Delta.WriteDelta.{float_arrays, write_delta}
use halospawns_infra.Film.FloatDelta
use halospawns_infra.Film.FloatDelta.Equal.{fits, write-write_delta}
use halospawns_infra.Film.OrderedDelta
use halospawns_infra.Film.OrderedDelta.Keyed.{Keyed}
use halospawns_infra.Film.OrderedDelta.Equal.{write_ordered-write_delta}
use halospawns_infra.Film.Refill.{refill}
use halospawns_infra.Film.Sampling.{sample_count, output_tick}
use halospawns_infra.Film.Sampling.Nearest.{output_tick_nearest}
use halospawns_infra.Film.Refill.Filled.{ByteTexts, refill-source}
use halospawns_infra.Prelude.{
  suc, ◌*◌, ◌≤◌, ◌<◌, ◌⊎◌, ◌≡◌, ◌++◌, ℕ, refl, Bool, true, List, [], ◌∷◌, arith,
}
use halospawns_infra.Film.Sampling.Retime.{resample, merge, merge_positions, extend, append_items}
use halospawns_infra.Film.Sampling.Gathered.{Gathered, shown, resample-Gathered}
use halospawns_infra.Prelude.Results.{ok}
use halospawns_infra.Prelude.OrderedMap.{BTreeMap, get, insert, place, replace}
use halospawns_infra.Film.Counters as Count
use halospawns_infra.Film.Counters.Lookup.{get-serialize}
use halospawns_infra.Film.TextEqual.{equal}
use halospawns_infra.Film.TextEqual.Sound.{equal_lem}
use halospawns_infra.Film.Pool.{Pool, retire, take}
use halospawns_infra.Film.Pool.Bounds.{
  IsBounded, Evicted, Taken, offered, total, retire-IsBounded, take-IsBounded,
}

-- A pool of two records.
abbrev two_records : Pool ℕ
two_records = record { entries = (3, 70) ∷ (5, 71) ∷ []; bytes = 8 }

two_records-IsBounded : IsBounded two_records
unfolding total
two_records-IsBounded = record {
  counted = refl;
  few_bytes = omega arith;
  few_records = omega arith;
}

abbrev any_record : ℕ → Bool
any_record r = true

retire-IsBounded_example : Evicted (two_records.entries ++ offered 72 4) (retire 72 4 two_records)
retire-IsBounded_example = retire-IsBounded 72 4 two_records two_records-IsBounded

take-IsBounded_example : Taken any_record (take any_record two_records)
take-IsBounded_example = take-IsBounded any_record two_records two_records-IsBounded

equal_lem_example :
    (equal (1 ∷ 2 ∷ 3 ∷ 4 ∷ 5 ∷ []) (1 ∷ 2 ∷ 3 ∷ 4 ∷ 6 ∷ []) ≡ true
      → ◌≡◌ {A = List ℕ} (1 ∷ 2 ∷ 3 ∷ 4 ∷ 5 ∷ []) (1 ∷ 2 ∷ 3 ∷ 4 ∷ 6 ∷ []))
    × (◌≡◌ {A = List ℕ} (1 ∷ 2 ∷ 3 ∷ 4 ∷ 5 ∷ []) (1 ∷ 2 ∷ 3 ∷ 4 ∷ 6 ∷ [])
        → equal (1 ∷ 2 ∷ 3 ∷ 4 ∷ 5 ∷ []) (1 ∷ 2 ∷ 3 ∷ 4 ∷ 6 ∷ []) ≡ true)
equal_lem_example =
    equal_lem (1 ∷ 2 ∷ 3 ∷ 4 ∷ 5 ∷ []) (1 ∷ 2 ∷ 3 ∷ 4 ∷ 6 ∷ [])
      (omega arith, (omega arith, (omega arith, (omega arith, (omega arith, tt)))))
      (omega arith, (omega arith, (omega arith, (omega arith, (omega arith, tt)))))

-- Two arrays of f32 numbers in the toy arithmetic.
abbrev old_numbers : Items
old_numbers = cons (number (2 ^ 60 + 1)) (cons (number (2 ^ 60 + 2)) nil)

abbrev new_numbers : Items
new_numbers = cons (number (2 ^ 60 + 1)) (cons (number (2 ^ 60 + 5)) nil)

write-write_delta_example :
    FloatDelta.write toy (some (array old_numbers)) (array new_numbers) none ≡ (
      if fits toy toy-Lawful (some (array old_numbers)) (array new_numbers)
      then some (write_delta toy (some (array old_numbers)) (array new_numbers) none)
      else none)
write-write_delta_example =
    write-write_delta toy toy-Lawful (some (array old_numbers)) (array new_numbers) none

-- The fast path takes them.
taken : fits toy toy-Lawful (some (array old_numbers)) (array new_numbers) ≡ true
unfolding fits float_arrays exact_numbers exact_number exact_f32 items_of number_of length_items
taken = refl

-- Two objects with the keys "a" and "b", of which the second value differs.
abbrev old_object : Value
old_object = object (field (97 ∷ []) (number 1) (field (98 ∷ []) (number 2) end))

abbrev new_object : Value
new_object = object (field (97 ∷ []) (number 1) (field (98 ∷ []) (array (cons null nil)) end))

old_Keyed : Keyed old_object
unfolding Keyed has_key text_eq
old_Keyed = ((omega arith, tt), (refl, (tt, ((omega arith, tt), (refl, (tt, tt))))))

new_Keyed : Keyed new_object
unfolding Keyed has_key text_eq
new_Keyed = ((omega arith, tt), (refl, (tt, ((omega arith, tt), (refl, ((tt, tt), tt))))))

write_ordered-write_delta_example :
    OrderedDelta.write toy (some old_object) new_object none
    ≡ write_delta toy (some old_object) new_object none
write_ordered-write_delta_example =
    write_ordered-write_delta toy toy-Lawful (some old_object) new_object none old_Keyed new_Keyed

old_texts : ByteTexts old_object
unfolding ByteTexts
old_texts = ((omega arith, tt), (tt, ((omega arith, tt), (tt, tt))))

new_texts : ByteTexts new_object
unfolding ByteTexts
new_texts = ((omega arith, tt), (tt, ((omega arith, tt), ((tt, tt), tt))))

refill-source_example : refill old_object new_object ≡ new_object
refill-source_example = refill-source old_object new_object old_texts new_texts

output_tick_nearest_example :
    (output_tick 9 4 (sample_count 11 4) < sample_count 11 4)
    × ((9 ≤ 4 * output_tick 9 4 (sample_count 11 4))
        ⊎ (suc (output_tick 9 4 (sample_count 11 4)) ≡ sample_count 11 4))
    × (4 * output_tick 9 4 (sample_count 11 4) < 9 + 4)
output_tick_nearest_example = output_tick_nearest 9 11 3 (omega arith)

-- Two kills at the ticks 1 and 2, which the sample 1 of four ticks shows, and one at the last.
abbrev kills : BTreeMap ℕ Value
kills =
    (1, array (cons (number 1) nil))
    ∷ (2, array (cons (number 2) nil))
    ∷ (8, array (cons null nil))
    ∷ []

resample-Gathered_example :
    Gathered (λ k. shown 4 3 k kills) (resample (λ a b. a) 4 3 true kills [])
resample-Gathered_example = resample-Gathered (λ a b. a) 4 3 kills

abbrev both_kills : Items
both_kills = cons (number 1) (cons (number 2) nil)

abbrev kills_by_sample : BTreeMap ℕ Value
kills_by_sample = (1, array both_kills) ∷ (2, array (cons null nil)) ∷ []

kills_gathered : resample (λ a b. a) 4 3 true kills [] ≡ ok kills_by_sample
unfolding resample merge merge_positions extend output_tick items_of length_items append_items get
    insert place replace
kills_gathered = refl

-- A player with two kills and deaths that are null, and no assists.
abbrev some_counters : Count.Counters
some_counters =
    Count.from_player (object (field Count.kills (number 2) (field Count.deaths null end))) null

get-serialize_example :
    (Count.get some_counters Count.kills ≡ field_at (Count.serialize some_counters) Count.kills)
    × (Count.index some_counters Count.kills
        ≡ Count.at_key (object (Count.serialize some_counters)) Count.kills)
get-serialize_example = get-serialize some_counters Count.kills
