-- ===== src/Film/Combat/Outcomes.antt =====
-- The loops of `observe` of combat.rs over damage, deaths and awards, with a function for the body of each.
use halospawns_infra.Prelude.{
  ℕ, ◌+◌, ◌%◌, ◌^◌, max, Bool, true, false, ◌&&◌, ◌||◌, not, Option, none, some, [], ◌∷◌, ◌++◌,
  length, ltb, ◌==◌, if◌then◌else◌,
}
use halospawns_infra.Prelude.Results.{Result, ok, err, ◌>>=◌}
use halospawns_infra.Prelude.OrderedMap.{
  BTreeMap, number_order, get, get_or, contains_key, insert, replace, is_some,
}
use halospawns_infra.Delta.Codes.{Text}
use halospawns_infra.Delta.Writer.{text_eq}
use halospawns_infra.Delta.Floats.{is_finite}
use halospawns_infra.Film.Combat.{
  Error, Amounts, amount_max, position_max, Damage, Death, Award, ShotKey, shot_order, DamageKey,
  damage_order, Event, Combat, slot, weapon, invalid_damage, contradicts_lineage, damage_overflow,
  invalid_death, duplicate_award, awards_decreased, panic,
}
use halospawns_infra.Film.Combat.Events.{
  ◌>>◌, refuse_if, set_shot_coverage, set_damage_coverage, set_death_coverage, environment,
}

abbrev pub opponent : Text
opponent = b'o' ∷ b'p' ∷ b'p' ∷ b'o' ∷ b'n' ∷ b'e' ∷ b'n' ∷ b't' ∷ []

abbrev pub friendly : Text
friendly = b'f' ∷ b'r' ∷ b'i' ∷ b'e' ∷ b'n' ∷ b'd' ∷ b'l' ∷ b'y' ∷ []

abbrev pub self_text : Text
self_text = b's' ∷ b'e' ∷ b'l' ∷ b'f' ∷ []

abbrev pub unknown : Text
unknown = b'u' ∷ b'n' ∷ b'k' ∷ b'n' ∷ b'o' ∷ b'w' ∷ b'n' ∷ []

abbrev pub kill : Text
kill = b'k' ∷ b'i' ∷ b'l' ∷ b'l' ∷ []

abbrev pub betrayal : Text
betrayal = b'b' ∷ b'e' ∷ b't' ∷ b'r' ∷ b'a' ∷ b'y' ∷ b'a' ∷ b'l' ∷ []

abbrev pub suicide : Text
suicide = b's' ∷ b'u' ∷ b'i' ∷ b'c' ∷ b'i' ∷ b'd' ∷ b'e' ∷ []

-- `slot == other`, for a slot that may be absent
abbrev pub is_slot : Option ℕ → ℕ → Bool
is_slot none b = false
is_slot (some a) b = a == b

-- `is_some_and(|slot| slot != victim)`
abbrev pub is_other : Option ℕ → ℕ → Bool
is_other none b = false
is_other (some a) b = not (a == b)

abbrev pub is_text : Option Text → Text → Bool
is_text none b = false
is_text (some a) b = text_eq a b

unfoldable pub fits_relationship : Damage → Bool
fits_relationship d =
    if text_eq d.relationship opponent || text_eq d.relationship friendly
    then is_other d.attacker_slot d.victim_slot
    else if text_eq d.relationship self_text
    then is_slot d.attacker_slot d.victim_slot
    else if text_eq d.relationship environment
    then not (is_some d.attacker_slot)
    else text_eq d.relationship unknown

-- `self.shots.get_mut(key).unwrap().1 += 1; *hit = true`
unfoldable pub mark_hit : ℕ → ShotKey → Combat → Option (ℕ × ℕ) → Result Error Combat
mark_hit id key c none = err panic
mark_hit id key c (some (fired, hit)) = ok (record c {
  shots = replace shot_order key (fired, (hit + 1) % 2 ^ 32) c.shots;
  discharges = replace number_order id (key, true) c.discharges;
})

-- What is known of the discharge.
unfoldable pub hit_discharge : Damage → ℕ → Combat → Option (ShotKey × Bool) → Result Error Combat
unfolding mark_hit
hit_discharge d id c none = ok (set_shot_coverage (max c.coverage.of_shots 1) c)
hit_discharge d id c (some (key, true)) =
    if not (is_slot d.attacker_slot key.0) || not (is_text d.weapon_id key.1)
    then err contradicts_lineage
    else ok c
hit_discharge d id c (some (key, false)) =
    if not (is_slot d.attacker_slot key.0) || not (is_text d.weapon_id key.1)
    then err contradicts_lineage
    else mark_hit id key c (get shot_order key c.shots)

-- `if let Some(discharge) = damage.discharge_id`
unfoldable pub trace : Damage → Combat → Option ℕ → Result Error Combat
unfolding hit_discharge
trace d c none = ok c
trace d c (some id) = hit_discharge d id c (get number_order id c.discharges)

abbrev pub max_damage_rows : ℕ
max_damage_rows = 2048

abbrev pub damage_key : Damage → DamageKey
damage_key d = (d.attacker_slot, (d.victim_slot, (d.weapon_id, d.relationship)))

unfoldable pub fits_kind : Death → Bool
fits_kind d =
    if text_eq d.kind kill || text_eq d.kind betrayal
    then is_other d.killer_slot d.victim_slot
    else if text_eq d.kind suicide
    then is_slot d.killer_slot d.victim_slot
    else if text_eq d.kind environment
    then not (is_some d.killer_slot)
    else text_eq d.kind unknown

abbrev pub is_headshot : Option Bool → Bool
is_headshot none = false
is_headshot (some b) = b

abbrev pub max_deaths : ℕ
max_deaths = 8192

-- `self.next_event += 1`, and the push
unfoldable pub push_death : ℕ → Death → Combat → Combat
push_death ordinal d c =
    let e : Event = record { death = d; event_index = c.next_event; source_tick = ordinal } in
    let counted = record c { next_event = (c.next_event + 1) % 2 ^ 32 } in
    if length c.deaths == max_deaths
    then set_death_coverage 2 counted
    else record counted { deaths = c.deaths ++ (e ∷ []) }

module _ (A : Amounts) where
  open A use {plus, less, at_most}

  -- `is_finite() && value >= 0.0 && value <= …`
  unfoldable pub is_amount : ℕ → Bool
  is_amount v = is_finite v && (at_most 0 v && at_most v amount_max)

  unfoldable pub invalid_amounts : Damage → Bool
  unfolding is_amount fits_relationship
  invalid_amounts d =
      not (is_amount d.shield_damage && is_amount d.health_damage)
      || (at_most (plus d.shield_damage d.health_damage) 0 || not (fits_relationship d))

  -- `let total = self.damage.entry(key).or_default()` and the additions
  unfoldable pub add_total : DamageKey → Damage → Combat → ℕ × ℕ → Result Error Combat
  add_total key d c total =
      let shield = plus total.0 d.shield_damage in
      let health = plus total.1 d.health_damage in
      refuse_if (less amount_max shield || less amount_max health) damage_overflow
      >> ok (record c { damage = insert damage_order key (shield, health) c.damage })

  unfoldable pub add_damage : Damage → Combat → Result Error Combat
  unfolding add_total
  add_damage d c =
      if (length c.damage == max_damage_rows)
        && not (contains_key damage_order (damage_key d) c.damage)
      then ok (set_damage_coverage 2 c)
      else add_total (damage_key d) d c (get_or (get damage_order (damage_key d) c.damage) (0, 0))

  -- `for damage in frame.damage`
  unfoldable pub observe_damage : Damage → Combat → Result Error Combat
  unfolding slot weapon invalid_amounts trace add_damage
  observe_damage d c =
      slot c d.attacker_slot
      >> slot c (some d.victim_slot)
      >> weapon c d.weapon_id
      >> refuse_if (invalid_amounts d) invalid_damage
      >> ((if text_eq d.relationship opponent then trace d c d.discharge_id else ok c)
          >>= add_damage d)

  -- `!value.is_finite() || value.abs() > 1e6`
  unfoldable pub is_far : ℕ → Bool
  is_far v = not (is_finite v) || less position_max (v % 2 ^ 63)

  unfoldable pub is_outside : Option (ℕ × ℕ × ℕ) → Bool
  unfolding is_far
  is_outside none = false
  is_outside (some (x, y, z)) = is_far x || (is_far y || is_far z)

  unfoldable pub invalid_event : Death → Bool
  unfolding fits_kind is_outside
  invalid_event d =
      not (fits_kind d)
      || ((not (is_some d.killer_slot) && is_some d.killer_position)
          || ((is_headshot d.headshot && (not (text_eq d.kind kill) || not (is_some d.weapon_id)))
              || (is_outside d.killer_position || is_outside d.victim_position)))

  -- `for death in frame.deaths`
  unfoldable pub observe_death : ℕ → Death → Combat → Result Error Combat
  unfolding slot weapon invalid_event push_death
  observe_death ordinal d c =
      slot c d.killer_slot
      >> slot c (some d.victim_slot)
      >> weapon c d.weapon_id
      >> refuse_if (invalid_event d) invalid_death
      >> ok (push_death ordinal d c)

-- `award.… < previous.…`
unfoldable pub has_decreased : Award → Option Award → Bool
has_decreased a none = false
has_decreased a (some previous) =
    ltb a.longest_kill_streak previous.longest_kill_streak
    || (ltb a.double_kills previous.double_kills
        || (ltb a.triple_kills previous.triple_kills || ltb a.overkills previous.overkills))

-- `for award in frame.awards`, with the set `award_slots`
unfoldable pub observe_award :
    Award → Combat × BTreeMap ℕ (Unit {0}) → Result Error (Combat × BTreeMap ℕ (Unit {0}))
unfolding slot has_decreased
observe_award a (c, seen) =
    slot c (some a.slot_index)
    >> refuse_if (contains_key number_order a.slot_index seen) duplicate_award
    >> refuse_if (has_decreased a (get number_order a.slot_index c.awards)) awards_decreased
    >> ok (
      record c { awards = insert number_order a.slot_index a c.awards },
      insert number_order a.slot_index tt seen,
    )
