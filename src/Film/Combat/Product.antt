-- ===== src/Film/Combat/Product.antt =====
-- `product` of combat.rs: the coverage of each list, and the deaths that are dropped, newest first, while
-- the JSON is over its budget. How many bytes serde_json writes is a parameter.
pub mod Fits
use mathlib.Core.List.{reverse}
use halospawns_infra.Prelude.{
  ℕ, ◌+◌, ◌-◌, max, Bool, true, false, ◌||◌, List, [], ◌∷◌, ltb, ◌==◌, if◌then◌else◌,
}
use halospawns_infra.Prelude.Results.{Result, ok, err, ◌>>=◌}
use halospawns_infra.Prelude.OrderedMap.{BTreeMap, keys, into_values}
use halospawns_infra.Delta.Writer.{text_eq}
use halospawns_infra.Film.Combat.{
  Error, Weapon, ShotKey, DamageKey, Event, Award, Combat, byte_budget, panic,
}

-- `status` and `reason` of the JSON.
pub data Status : Type 0 where
  unsupported_exporter capped missing_evidence from_the_middle complete : Status

-- The members of the JSON that are not constant.
pub record Product : Type 0 where
  pub weapons : List Weapon
  pub shot_coverage : Status
  pub damage_coverage : Status
  pub death_coverage : Status
  pub award_coverage : Status
  pub shots : BTreeMap ShotKey (ℕ × ℕ)
  pub damage : BTreeMap DamageKey (ℕ × ℕ)
  pub deaths : List Event
  pub awards : List Award

-- `let coverage = |level| …`
unfoldable pub status : Combat → ℕ → Status
status c level =
    if c.seen
    then (if level == 2
        then capped
        else if (level == 1) || c.missing
        then missing_evidence
        else if c.partial_recording
        then from_the_middle
        else complete)
    else unsupported_exporter

-- `if self.awards.keys() … != self.slots`; sets of numbers are compared in order.
unfoldable pub award_level : Combat → ℕ
award_level c =
    if text_eq (keys c.awards) (keys c.slots)
    then c.coverage.of_awards
    else max c.coverage.of_awards 1

unfoldable pub whole : Combat → Product
unfolding status award_level
whole c = record {
  weapons = into_values c.weapons;
  shot_coverage = status c c.coverage.of_shots;
  damage_coverage = status c c.coverage.of_damage;
  death_coverage = status c c.coverage.of_deaths;
  award_coverage = status c (award_level c);
  shots = c.shots;
  damage = c.damage;
  deaths = c.deaths;
  awards = into_values c.awards;
}

-- MAX_BYTES - 64 * 1024
abbrev pub budget : ℕ
budget = 983040

abbrev pub comma : List Event → ℕ
comma [] = 0
comma (e ∷ es) = 1

module _ (json_length : Product → ℕ) (event_length : Event → ℕ) where
  -- `while bytes > budget`, on the deaths from the newest to the oldest. A subtraction below 0 panics.
  unfoldable pub trim : List Event → ℕ → Result Error (List Event)
  trim [] bytes = if ltb budget bytes then err byte_budget else ok []
  trim (e ∷ es) bytes =
      let rest = trim es (bytes - (event_length e + comma es)) in
      if ltb budget bytes
      then (if ltb bytes (event_length e + comma es) then err panic else rest)
      else ok (e ∷ es)

  abbrev pub with_deaths : Product → List Event → Product
  with_deaths p deaths = record p { deaths = deaths }

  -- `if serde_json::to_vec(&product)?.len() > budget`
  unfoldable pub shorten : Product → Result Error Product
  unfolding trim
  shorten p =
      let short = record p { death_coverage = capped } in
      let kept = trim (reverse p.deaths) (json_length short) in
      if ltb budget (json_length p)
      then (kept >>= λ deaths. ok (with_deaths short (reverse deaths)))
      else ok p

  -- fn product
  unfoldable pub product : Combat → Result Error Product
  unfolding shorten whole
  product c = shorten (whole c)
