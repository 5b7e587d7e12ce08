-- ===== src/Film/Combat/Sound/Outcomes.antt =====
-- The state of combat.rs over the loops on damage, deaths and awards.
use halospawns_infra.Prelude.{
  ℕ, ◌≤◌, ◌≡◌, refl, Bool, true, false, ◌&&◌, ◌||◌, not, Option, none, some, arith, length,
  length-append, Bool-cases, Option-cases, inl, inr, ◌==◌, if◌then◌else◌,
}
use halospawns_infra.Prelude.Results.{ok}
use halospawns_infra.Prelude.OrderedMap.{BTreeMap, number_order, get, get_or, insert, contains_key}
use halospawns_infra.Prelude.OrderedMap.Laws.{length-insert, length-replace}
use halospawns_infra.Delta.Writer.{text_eq}
use halospawns_infra.Film.Combat.{
  Amounts, Combat, Damage, Death, Award, ShotKey, shot_order, DamageKey, damage_order, slot, weapon,
  amount_max, invalid_damage, damage_overflow, invalid_death, duplicate_award, awards_decreased,
}
use halospawns_infra.Film.Combat.Events.{refuse_if}
use halospawns_infra.Film.Combat.Outcomes.{
  max_damage_rows, max_deaths, is_slot, is_text, mark_hit, hit_discharge, trace, add_total,
  add_damage, damage_key, invalid_amounts, observe_damage, push_death, invalid_event, observe_death,
  has_decreased, observe_award, opponent,
}
use halospawns_infra.Film.Combat.Kept.{
  Kept, >>=-Kept, >>-Kept, refuse_if-IsCheck, slot-IsCheck, weapon-IsCheck,
}
use halospawns_infra.Film.Combat.Lineage.{hit-Traced, shot_known}
use halospawns_infra.Film.Combat.Sound.{IsSound}

mark_hit-IsSound :
    (id : ℕ) (key : ShotKey) (c : Combat)
    → get number_order id c.discharges ≡ some (key, false)
    → IsSound c
    → Kept IsSound (mark_hit id key c (get shot_order key c.shots))
unfolding mark_hit
mark_hit-IsSound id key c kept s = elim (Option-cases (get shot_order key c.shots)) [
  | inl absent ↦ absurd (shot_known key id kept s.traced absent)
  | inr ((fired, hits), found) ↦ rw found (record {
    traced = hit-Traced key id fired hits kept found s.traced;
    few_discharges = rw (length-replace number_order id (key, true) c.discharges) s.few_discharges;
    few_rows = s.few_rows;
    few_deaths = s.few_deaths;
    few_weapons = s.few_weapons;
    players = s.players;
    levels = s.levels;
  })
]

hit_discharge-IsSound :
    (d : Damage) (id : ℕ) (c : Combat) (o : Option (ShotKey × Bool))
    → get number_order id c.discharges ≡ o
    → IsSound c
    → Kept IsSound (hit_discharge d id c o)
unfolding hit_discharge
hit_discharge-IsSound d id c none kept s = record {
  traced = s.traced;
  few_discharges = s.few_discharges;
  few_rows = s.few_rows;
  few_deaths = s.few_deaths;
  few_weapons = s.few_weapons;
  players = s.players;
  levels = (ground arith, s.levels.1, s.levels.2, s.levels.3);
}
hit_discharge-IsSound d id c (some (key, true)) kept s =
    elim (Bool-cases (not (is_slot d.attacker_slot key.0) || not (is_text d.weapon_id key.1))) [
      | inl bad ↦ rw bad (λ e. cc)
      | inr good ↦ rw good s
    ]
hit_discharge-IsSound d id c (some (key, false)) kept s =
    elim (Bool-cases (not (is_slot d.attacker_slot key.0) || not (is_text d.weapon_id key.1))) [
      | inl bad ↦ rw bad (λ e. cc)
      | inr good ↦ rw good (mark_hit-IsSound id key c kept s)
    ]

trace-IsSound : (d : Damage) (c : Combat) (id : Option ℕ) → IsSound c → Kept IsSound (trace d c id)
unfolding trace
trace-IsSound d c none s = s
trace-IsSound d c (some id) s =
    hit_discharge-IsSound d id c (get number_order id c.discharges) refl s

traced_if-IsSound :
    (b : Bool) (d : Damage) (c : Combat)
    → IsSound c
    → Kept IsSound (if b then trace d c d.discharge_id else ok c)
traced_if-IsSound true d c s = trace-IsSound d c d.discharge_id s
traced_if-IsSound false d c s = s

row_room :
    (key : DamageKey) (v : ℕ × ℕ) (rows : BTreeMap DamageKey (ℕ × ℕ))
    → ((length rows == max_damage_rows) && not (contains_key damage_order key rows)) ≡ false
    → length rows ≤ max_damage_rows
    → length (insert damage_order key v rows) ≤ max_damage_rows
row_room key v rows e h = rw (length-insert damage_order key v rows) (ground arith)

push_death-IsSound :
    (ordinal : ℕ) (d : Death) (c : Combat) → IsSound c → IsSound (push_death ordinal d c)
unfolding push_death
push_death-IsSound ordinal d c s = elim (Bool-cases (length c.deaths == max_deaths)) [
  | inl full ↦ rw full (record {
    traced = s.traced;
    few_discharges = s.few_discharges;
    few_rows = s.few_rows;
    few_deaths = s.few_deaths;
    few_weapons = s.few_weapons;
    players = s.players;
    levels = (s.levels.0, s.levels.1, omega arith, s.levels.3);
  })
  | inr room ↦ rw room (record {
    traced = s.traced;
    few_discharges = s.few_discharges;
    few_rows = s.few_rows;
    few_deaths = rw (length-append c.deaths _) (ground arith);
    few_weapons = s.few_weapons;
    players = s.players;
    levels = s.levels;
  })
]

module _ (A : Amounts) where
  open A use {plus, less}

  add_damage-IsSound : (d : Damage) (c : Combat) → IsSound c → Kept IsSound (add_damage A d c)
  unfolding add_damage add_total
  add_damage-IsSound d c s =
      let total = get_or (get damage_order (damage_key d) c.damage) (0, 0) in
      elim (Bool-cases (
        (length c.damage == max_damage_rows)
        && not (contains_key damage_order (damage_key d) c.damage))) [
          | inl full ↦ rw full (record {
            traced = s.traced;
            few_discharges = s.few_discharges;
            few_rows = s.few_rows;
            few_deaths = s.few_deaths;
            few_weapons = s.few_weapons;
            players = s.players;
            levels = (s.levels.0, omega arith, s.levels.2, s.levels.3);
          })
          | inr room ↦ rw room (
              >>-Kept IsSound
                (refuse_if
                  (less amount_max (plus total.0 d.shield_damage)
                    || less amount_max (plus total.1 d.health_damage))
                  damage_overflow)
                _
                (refuse_if-IsCheck
                  (less amount_max (plus total.0 d.shield_damage)
                    || less amount_max (plus total.1 d.health_damage))
                  damage_overflow (λ e. cc))
                (record {
                  traced = s.traced;
                  few_discharges = s.few_discharges;
                  few_rows =
                      row_room (damage_key d)
                        (plus total.0 d.shield_damage, plus total.1 d.health_damage) c.damage room
                        s.few_rows;
                  few_deaths = s.few_deaths;
                  few_weapons = s.few_weapons;
                  players = s.players;
                  levels = s.levels;
                }))
        ]

  pub observe_damage-IsSound :
      (d : Damage) (c : Combat) → IsSound c → Kept IsSound (observe_damage A d c)
  unfolding observe_damage
  observe_damage-IsSound d c s =
      >>-Kept IsSound (slot c d.attacker_slot) _ (slot-IsCheck c d.attacker_slot) (
        >>-Kept IsSound (slot c (some d.victim_slot)) _ (slot-IsCheck c (some d.victim_slot)) (
          >>-Kept IsSound (weapon c d.weapon_id) _ (weapon-IsCheck c d.weapon_id) (
            >>-Kept IsSound (refuse_if (invalid_amounts A d) invalid_damage) _
              (refuse_if-IsCheck (invalid_amounts A d) invalid_damage (λ e. cc))
              (>>=-Kept IsSound IsSound _ (add_damage A d)
                (traced_if-IsSound (text_eq d.relationship opponent) d c s)
                (add_damage-IsSound d)))))

  pub observe_death-IsSound :
      (ordinal : ℕ) (d : Death) (c : Combat)
      → IsSound c
      → Kept IsSound (observe_death A ordinal d c)
  unfolding observe_death
  observe_death-IsSound ordinal d c s =
      >>-Kept IsSound (slot c d.killer_slot) _ (slot-IsCheck c d.killer_slot) (
        >>-Kept IsSound (slot c (some d.victim_slot)) _ (slot-IsCheck c (some d.victim_slot)) (
          >>-Kept IsSound (weapon c d.weapon_id) _ (weapon-IsCheck c d.weapon_id) (
            >>-Kept IsSound (refuse_if (invalid_event A d) invalid_death) _
              (refuse_if-IsCheck (invalid_event A d) invalid_death (λ e. cc))
              (push_death-IsSound ordinal d c s))))

pub observe_award-IsSound :
    (a : Award) (p : Combat × BTreeMap ℕ (Unit {0}))
    → IsSound p.0
    → Kept (λ q. IsSound q.0) (observe_award a p)
unfolding observe_award
observe_award-IsSound a (c, seen) s =
    >>-Kept (λ q. IsSound q.0) (slot c (some a.slot_index)) _ (slot-IsCheck c (some a.slot_index))
      (>>-Kept (λ q. IsSound q.0)
        (refuse_if (contains_key number_order a.slot_index seen) duplicate_award) _
        (refuse_if-IsCheck (contains_key number_order a.slot_index seen) duplicate_award (λ e. cc))
        (>>-Kept (λ q. IsSound q.0)
          (refuse_if (has_decreased a (get number_order a.slot_index c.awards)) awards_decreased) _
          (refuse_if-IsCheck (has_decreased a (get number_order a.slot_index c.awards))
            awards_decreased (λ e. cc))
          (record {
            traced = s.traced;
            few_discharges = s.few_discharges;
            few_rows = s.few_rows;
            few_deaths = s.few_deaths;
            few_weapons = s.few_weapons;
            players = s.players;
            levels = s.levels;
          })))
