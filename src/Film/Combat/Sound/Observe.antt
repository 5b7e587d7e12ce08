-- ===== src/Film/Combat/Sound/Observe.antt =====
-- The state of combat.rs over `observe`.
use halospawns_infra.Prelude.{
  ℕ, ◌<◌, ◌≡◌, Bool, true, false, Option, none, some, List, [], arith, All, Bool-cases, inl, inr,
  ltb, ltb→lt, if◌then◌else◌, ◌==◌,
}
use halospawns_infra.Prelude.Results.{Result, ok}
use halospawns_infra.Prelude.OrderedMap.{BTreeMap, number_order, insert}
use halospawns_infra.Prelude.OrderedMap.Laws.{number_order-IsExact, All-insert}
use halospawns_infra.Delta.Codes.{Text}
use halospawns_infra.Pose.Unpack.{max_players}
use halospawns_infra.Film.Combat.{Error, Amounts, Coverage, Frame, Tick, Combat, each}
use halospawns_infra.Film.Combat.Events.{observe_weapon, observe_shot}
use halospawns_infra.Film.Combat.Outcomes.{observe_damage, observe_death, observe_award}
use halospawns_infra.Film.Combat.Observe.{
  begin, is_late, observe_player, observe_roster, invalid_frame, raise_coverage, observe_frame,
  observe_source, observe_rest, observe,
}
use halospawns_infra.Film.Combat.Kept.{Kept, >>=-Kept, each-Kept}
use halospawns_infra.Film.Combat.Sound.{
  with_flags, IsSound, IsLevels, observe_weapon-IsSound, observe_shot-IsSound,
}
use halospawns_infra.Film.Combat.Sound.Outcomes.{
  observe_damage-IsSound, observe_death-IsSound, observe_award-IsSound,
}

-- Only the slots and the levels change.
with_slots :
    (c : Combat) (slots : BTreeMap ℕ (Unit {0}))
    → All (λ e. e.0 < max_players) slots
    → IsSound c
    → IsSound (record c { slots = slots })
with_slots c slots players s = record {
  traced = s.traced;
  few_discharges = s.few_discharges;
  few_rows = s.few_rows;
  few_deaths = s.few_deaths;
  few_weapons = s.few_weapons;
  players = players;
  levels = s.levels;
}

observe_player-IsSound : (p : Option ℕ) (c : Combat) → IsSound c → Kept IsSound (observe_player p c)
unfolding observe_player
observe_player-IsSound none c s = λ e. cc
observe_player-IsSound (some p) c s = elim (Bool-cases (ltb p max_players)) [
  | inl fits ↦ rw fits (
      with_slots c (insert number_order p tt c.slots)
        (All-insert (λ e. e.0 < max_players) number_order-IsExact p tt c.slots (ltb→lt _ _ fits)
          s.players)
        s)
  | inr large ↦ rw large (λ e. cc)
]

observe_roster-IsSound :
    (players : Option (List (Option ℕ))) (c : Combat)
    → IsSound c
    → Kept IsSound (observe_roster players c)
unfolding observe_roster
observe_roster-IsSound none c s = λ e. cc
observe_roster-IsSound (some players) c s =
    each-Kept IsSound observe_player observe_player-IsSound players c s

if-IsSound : (b : Bool) (c d : Combat) → IsSound c → IsSound d → IsSound (if b then c else d)
if-IsSound true c d s t = s
if-IsSound false c d s t = t

begin-IsSound :
    (tick : Tick) (ordinal : ℕ) (c : Combat) → IsSound c → IsSound (begin tick ordinal c)
unfolding begin
begin-IsSound tick ordinal c s =
    if-IsSound (ordinal == 0) (record c { partial_recording = is_late tick.current_tick }) c
      (with_flags c c.seen c.missing (is_late tick.current_tick) c.ended c.awards s) s

-- An accepted frame has levels up to 2.
valid_levels : (f : Frame) → invalid_frame f ≡ false → IsLevels f.coverage
unfolding invalid_frame
valid_levels f e = (ground arith, ground arith, ground arith, ground arith)

raised :
    (v : Coverage) (c : Combat)
    → IsLevels v
    → IsSound c
    → IsSound (raise_coverage v (record c { seen = true }))
raised v c l s = record {
  traced = s.traced;
  few_discharges = s.few_discharges;
  few_rows = s.few_rows;
  few_deaths = s.few_deaths;
  few_weapons = s.few_weapons;
  players = s.players;
  levels = (
    omega (arith, l, s.levels),
    omega (arith, l, s.levels),
    omega (arith, l, s.levels),
    omega (arith, l, s.levels),
  );
}

unless :
    (b : Bool) (c : Combat) (rest : Result Error Combat)
    → IsSound c
    → Kept IsSound rest
    → Kept IsSound (if b then ok c else rest)
unless true c rest s h = s
unless false c rest s h = h

module _ (A : Amounts) (count_chars : Text → ℕ) where
  observe_frame-IsSound :
      (f : Frame) (ordinal : ℕ) (c : Combat)
      → IsSound c
      → Kept IsSound (observe_frame A count_chars f ordinal c)
  unfolding observe_frame
  observe_frame-IsSound f ordinal c s = elim (Bool-cases (invalid_frame f)) [
    | inl bad ↦ rw bad (λ e. cc)
    | inr good ↦ rw good (
        >>=-Kept IsSound IsSound
          (each (observe_weapon count_chars) f.weapons
            (raise_coverage f.coverage (record c { seen = true })))
          _
          (each-Kept IsSound (observe_weapon count_chars) (observe_weapon-IsSound count_chars)
            f.weapons _ (raised f.coverage c (valid_levels f good) s))
          (λ c1 s1.
            >>=-Kept IsSound IsSound (each observe_shot f.shots c1) _
              (each-Kept IsSound observe_shot observe_shot-IsSound f.shots c1 s1)
              (λ c2 s2.
                >>=-Kept IsSound IsSound (each (observe_damage A) f.damage c2) _
                  (each-Kept IsSound (observe_damage A) (observe_damage-IsSound A) f.damage c2 s2)
                  (λ c3 s3.
                    >>=-Kept IsSound IsSound (each (observe_death A ordinal) f.deaths c3) _
                      (each-Kept IsSound (observe_death A ordinal) (observe_death-IsSound A ordinal)
                        f.deaths c3 s3)
                      (λ c4 s4.
                        >>=-Kept (λ q. IsSound q.0) IsSound (each observe_award f.awards (c4, [])) _
                          (each-Kept (λ q. IsSound q.0) observe_award observe_award-IsSound f.awards
                            (c4, []) s4)
                          (λ q h. h))))))
  ]

  observe_source-IsSound :
      (o : Option (Option Frame)) (ordinal : ℕ) (c : Combat)
      → IsSound c
      → Kept IsSound (observe_source A count_chars o ordinal c)
  unfolding observe_source
  observe_source-IsSound none ordinal c s =
      with_flags c c.seen true c.partial_recording c.ended c.awards s
  observe_source-IsSound (some none) ordinal c s = λ e. cc
  observe_source-IsSound (some (some f)) ordinal c s = observe_frame-IsSound f ordinal c s

  observe_rest-IsSound :
      (tick : Tick) (ordinal : ℕ) (c : Combat)
      → IsSound c
      → Kept IsSound (observe_rest A count_chars tick ordinal c)
  unfolding observe_rest
  observe_rest-IsSound tick ordinal c s =
      observe_source-IsSound tick.combat ordinal _
        (with_flags c c.seen _ c.partial_recording _ c.awards s)

  -- In a sound state of combat.rs, no weapon of a slot has more hits than shots, the discharges
  -- kept that may still hit counted as hits; no slot or weapon has 2^32 shots; no discharge is
  -- numbered behind the last one; discharges, rows of damage, deaths and weapons are within their
  -- limits; slots are below sixteen and levels of coverage at most two. From a sound state,
  -- `observe` of any tick gives a sound state, or an error that is no failed `unwrap`.
  pub observe-IsSound :
      (tick : Tick) (ordinal : ℕ) (c : Combat)
      → IsSound c
      → Kept IsSound (observe A count_chars tick ordinal c)
  unfolding observe
  observe-IsSound tick ordinal c s =
      >>=-Kept IsSound IsSound (observe_roster tick.players (begin tick ordinal c)) _
        (observe_roster-IsSound tick.players (begin tick ordinal c)
          (begin-IsSound tick ordinal c s))
        (λ d h. unless d.ended d _ h (observe_rest-IsSound tick ordinal d h))
