-- ===== src/Film/Combat/Sound.antt =====
-- What holds of the state of combat.rs between ticks.
pub mod Outcomes
pub mod Observe
use halospawns_infra.Prelude.{
  ℕ, suc, ◌+◌, ◌≤◌, ◌<◌, ◌^◌, ◌≡◌, refl, max, Bool, true, false, ◌&&◌, not, Option, none, some,
  List, [], ◌∷◌, arith, length, All, Bool-cases, Option-cases, inl, inr, ltb, leb, ◌==◌, ==_iff,
  ltb→lt, if◌then◌else◌,
}
use halospawns_infra.Prelude.Results.{Result, ok, err, ◌>>=◌}
use halospawns_infra.Prelude.OrderedMap.{
  BTreeMap, number_order, get, get_or, insert, contains_key, pop_first,
}
use halospawns_infra.Prelude.OrderedMap.Laws.{length-insert, insert_new, count}
use halospawns_infra.Delta.Codes.{Text}
use halospawns_infra.Pose.Unpack.{max_players}
use halospawns_infra.Film.Combat.{
  Error, Coverage, Combat, Award, Weapon, Shot, text_order, ShotKey, shot_order, new, slot, weapon,
  invalid_weapon, identity_changed, catalogue_limit, unordered_discharges, shot_overflow,
}
use halospawns_infra.Film.Combat.Events.{
  refuse_if, observe_weapon, known_weapon, invalid_name, same_weapon, observe_shot, fired,
  make_room, add_discharge, max_discharges, set_shot_coverage, ◌>>◌,
}
use halospawns_infra.Film.Combat.Outcomes.{max_damage_rows, max_deaths}
use halospawns_infra.Film.Combat.Kept.{
  Kept, IsCheck, >>=-Kept, >>-Kept, refuse_if-IsCheck, slot-IsCheck, weapon-IsCheck,
}
use halospawns_infra.Film.Combat.Lineage.{
  Traced, fired_at, hits_at, pending, fired-Traced, pop_first-Traced,
}

abbrev pub IsLevels : Coverage → Type 0
IsLevels v = (v.of_shots ≤ 2) × (v.of_damage ≤ 2) × (v.of_deaths ≤ 2) × (v.of_awards ≤ 2)

-- Every hit is one of a shot that was fired, and each collection keeps its limit.
pub record IsSound (c : Combat) : Type 0 where
  pub traced : Traced c.shots c.discharges c.last_discharge
  pub few_discharges : length c.discharges ≤ max_discharges
  pub few_rows : length c.damage ≤ max_damage_rows
  pub few_deaths : length c.deaths ≤ max_deaths
  pub few_weapons : length c.weapons ≤ 64
  pub players : All (λ e. e.0 < max_players) c.slots
  pub levels : IsLevels c.coverage

-- What the limits do not speak of may change.
pub with_flags :
    (c : Combat) (seen missing partial_recording ended : Bool) (awards : BTreeMap ℕ Award)
    → IsSound c
    → IsSound (record c {
      seen = seen;
      missing = missing;
      partial_recording = partial_recording;
      ended = ended;
      awards = awards;
    })
with_flags c seen missing partial_recording ended awards s = record {
  traced = s.traced;
  few_discharges = s.few_discharges;
  few_rows = s.few_rows;
  few_deaths = s.few_deaths;
  few_weapons = s.few_weapons;
  players = s.players;
  levels = s.levels;
}

pub new-IsSound : (network_recording : Bool) → IsSound (new network_recording)
unfolding new fired_at hits_at pending get count
new-IsSound b = record {
  traced = record { numbered = tt; accounted = λ k. omega arith; fits = λ k. omega arith };
  few_discharges = omega arith;
  few_rows = omega arith;
  few_deaths = omega arith;
  few_weapons = omega arith;
  players = tt;
  levels = ground arith;
}

-- A weapon is new, or has an entry already.
known_weapon-room :
    (c : Combat) (w : Weapon) (o : Option Weapon)
    → get text_order w.weapon_id c.weapons ≡ o
    → length c.weapons ≤ 64
    → Kept (λ _. length (insert text_order w.weapon_id w c.weapons) ≤ 64) (known_weapon c w o)
unfolding known_weapon
known_weapon-room c w none e h = elim (Bool-cases (length c.weapons == 64)) [
  | inl full ↦ rw full (λ p. cc)
  | inr room ↦ rw (room, length-insert, e) (ground arith)
]
known_weapon-room c w (some old) e h = elim (Bool-cases (same_weapon old w)) [
  | inl same ↦ rw (same, length-insert, e) h
  | inr other ↦ rw other (λ p. cc)
]

pub observe_weapon-IsSound :
    (count_chars : Text → ℕ) (w : Weapon) (c : Combat)
    → IsSound c
    → Kept IsSound (observe_weapon count_chars w c)
unfolding observe_weapon
observe_weapon-IsSound count_chars w c s =
    let added = record c { weapons = insert text_order w.weapon_id w c.weapons } in
    let known = known_weapon c w (get text_order w.weapon_id c.weapons) in
    >>-Kept IsSound (refuse_if (invalid_name count_chars w) invalid_weapon) (known >> ok added)
      (refuse_if-IsCheck (invalid_name count_chars w) invalid_weapon (λ e. cc))
      (>>=-Kept (λ _. length (insert text_order w.weapon_id w c.weapons) ≤ 64) IsSound known
        (λ _. ok added) (known_weapon-room c w _ refl s.few_weapons)
        (λ _ few. record {
          traced = s.traced;
          few_discharges = s.few_discharges;
          few_rows = s.few_rows;
          few_deaths = s.few_deaths;
          few_weapons = few;
          players = s.players;
          levels = s.levels;
        }))

length-pop_first :
    (m : BTreeMap ℕ (ShotKey × Bool))
    → length m ≤ max_discharges
    → length (pop_first m) < max_discharges
length-pop_first [] h = omega arith
length-pop_first (e ∷ m) h = omega arith

length-insert-le :
    {V : Type 0} (k : ℕ) (v : V) (m : BTreeMap ℕ V)
    → length (insert number_order k v m) ≤ suc (length m)
length-insert-le k v m = ground (arith, length-insert number_order k v m)

-- A shot is added behind the discharges that are kept.
add_shot-IsSound :
    (key : ShotKey) (id : ℕ) (kept : BTreeMap ℕ (ShotKey × Bool)) (v : Coverage) (c : Combat)
    → c.last_discharge < id
    → fired_at key c.shots + 1 < 2 ^ 32
    → Traced c.shots kept c.last_discharge
    → length kept < max_discharges
    → IsLevels v
    → IsSound c
    → IsSound (record c {
      coverage = v;
      shots = insert shot_order key (fired_at key c.shots + 1, hits_at key c.shots) c.shots;
      discharges = insert number_order id (key, false) kept;
      last_discharge = id;
    })
add_shot-IsSound key id kept v c later small traced room levels s = record {
  traced = fired-Traced key id later small traced;
  few_discharges = omega (arith, length-insert-le id (key, false) kept);
  few_rows = s.few_rows;
  few_deaths = s.few_deaths;
  few_weapons = s.few_weapons;
  players = s.players;
  levels = levels;
}

-- What `observe_shot` does behind its checks.
abbrev fire : Shot → Combat → Result Error Combat
fire s c = fired (s.slot_index, s.weapon_id) (record c { last_discharge = s.discharge_id }) >>= λ d.
    ok (add_discharge s.discharge_id (s.slot_index, s.weapon_id) (make_room d))

fire-IsSound :
    (s : Shot) (c : Combat)
    → c.last_discharge < s.discharge_id
    → IsSound c
    → Kept IsSound (fire s c)
unfolding fired make_room fired_at hits_at
fire-IsSound s c later h =
    let key : ShotKey = (s.slot_index, s.weapon_id) in
    elim (Bool-cases (ltb (fired_at key c.shots + 1) (2 ^ 32))) [
      | inr much ↦ rw much (λ e. cc)
      | inl small ↦ elim (Bool-cases (length c.discharges == max_discharges)) [
        | inl full ↦
            rw (small, full)
              (add_shot-IsSound key s.discharge_id (pop_first c.discharges)
                (record c.coverage { of_shots = 2 }) c later (ltb→lt _ _ small)
                (pop_first-Traced c.discharges h.traced)
                (length-pop_first c.discharges h.few_discharges)
                (omega arith, h.levels.1, h.levels.2, h.levels.3) h)
        | inr rest ↦
            rw (small, rest)
              (add_shot-IsSound key s.discharge_id c.discharges c.coverage c later
                (ltb→lt _ _ small) h.traced (ground arith) h.levels h)
      ]
    ]

pub observe_shot-IsSound : (s : Shot) (c : Combat) → IsSound c → Kept IsSound (observe_shot s c)
unfolding observe_shot
observe_shot-IsSound s c h =
    >>-Kept IsSound (slot c (some s.slot_index)) _ (slot-IsCheck c (some s.slot_index)) (
      >>-Kept IsSound (weapon c (some s.weapon_id)) _ (weapon-IsCheck c (some s.weapon_id))
        (elim (Bool-cases (leb s.discharge_id c.last_discharge)) [
          | inl late ↦ rw late (λ e. cc)
          | inr later ↦ rw later (fire-IsSound s c (ground arith) h)
        ]))
