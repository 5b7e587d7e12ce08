-- ===== src/Film/Combat/Examples.antt =====
-- The theorems on combat.rs, applied to two players, one of whom fires twice and hits once.
use halospawns_infra.Prelude.{
  zero, leb, ltb, ◌==◌, false, length, length-append, ◌+◌, some, none, if◌then◌else◌,
}
use mathlib.Core.List.{reverse, reverse-cons}
use halospawns_infra.Film.Combat.{
  Amounts, Coverage, Frame, Tick, Weapon, Shot, Damage, Death, Event, Combat, new,
}
use halospawns_infra.Film.Combat.Events.{weapon_text}
use halospawns_infra.Film.Combat.Outcomes.{opponent, kill}
use halospawns_infra.Film.Combat.Observe.{observe, schema_text}
use halospawns_infra.Film.Combat.Kept.{Kept}
use halospawns_infra.Film.Combat.Sound.{IsSound, new-IsSound}
use halospawns_infra.Film.Combat.Sound.Observe.{observe-IsSound}
use halospawns_infra.Film.Combat.Product.{Product, comma, product}
use halospawns_infra.Film.Combat.Product.Fits.{Lengths, Fitted, product-Fitted}
use halospawns_infra.Film.Combat.{Error, ShotKey}
use halospawns_infra.Film.Combat.Run.{IsReport, film_product, observe_ticks, film_product-IsReport}
use halospawns_infra.Film.Combat.Product.{shorten}
use halospawns_infra.Prelude.Results.{Result, ok, err}
use halospawns_infra.Prelude.OrderedMap.{BTreeMap, get, insert}
use halospawns_infra.Delta.Writer.{text_eq}
use halospawns_infra.Delta.Floats.{is_finite}
use halospawns_infra.Film.Combat.Events.{observe_weapon, observe_shot}
use halospawns_infra.Film.Combat.Outcomes.{observe_damage, observe_death, observe_award}
use halospawns_infra.Film.Combat.Observe.{
  observe_rest, observe_source, observe_frame, observe_roster, observe_player, begin,
}
use halospawns_infra.Prelude.{suc, ◌≡◌, ℕ, refl, true, List, [], ◌∷◌, arith}

abbrev plain_amounts : Amounts
plain_amounts = record { plus = λ a b. a + b; less = λ a b. ltb a b; at_most = λ a b. leb a b }

abbrev rifle : Weapon
rifle = record { weapon_id = b'a' ∷ []; tag_path = b'p' ∷ []; category = weapon_text }

abbrev first_shot : Shot
first_shot = record { discharge_id = 5; slot_index = 0; weapon_id = b'a' ∷ [] }

abbrev second_shot : Shot
second_shot = record { discharge_id = 6; slot_index = 0; weapon_id = b'a' ∷ [] }

abbrev wound : Damage
wound = record {
  discharge_id = some 5;
  attacker_slot = some 0;
  victim_slot = 1;
  weapon_id = some (b'a' ∷ []);
  relationship = opponent;
  shield_damage = 3;
  health_damage = 4;
}

abbrev loss : Death
loss = record {
  killer_slot = some 0;
  victim_slot = 1;
  weapon_id = some (b'a' ∷ []);
  kind = kill;
  headshot = some true;
  killer_position = none;
  victim_position = none;
}

abbrev no_coverage : Coverage
no_coverage = record { of_shots = 0; of_damage = 0; of_deaths = 0; of_awards = 0 }

abbrev fight : Frame
fight = record {
  schema = schema_text;
  coverage = no_coverage;
  weapons = rifle ∷ [];
  shots = first_shot ∷ second_shot ∷ [];
  damage = wound ∷ [];
  deaths = loss ∷ [];
  awards = [];
}

abbrev fight_tick : Tick
fight_tick = record {
  current_tick = some 0;
  players = some (some 0 ∷ some 1 ∷ []);
  game_ended_this_tick = none;
  combat = some (some fight);
}

observe-IsSound_example : Kept IsSound (observe plain_amounts length fight_tick 0 (new false))
observe-IsSound_example =
    observe-IsSound plain_amounts length fight_tick 0 (new false) (new-IsSound false)

-- JSON that grows by 99 bytes for each death, and by a comma between them.
abbrev deaths_length : ℕ → ℕ
deaths_length zero = 0
deaths_length (suc n) = deaths_length n + (99 + (if n == 0 then 0 else 1))

abbrev long_json : Product → ℕ
long_json p = 982900 + deaths_length (length p.deaths)

abbrev death_json : Event → ℕ
death_json e = 99

length-reverse : (es : List Event) → length (reverse es) ≡ length es
length-reverse [] = refl
length-reverse (e ∷ es) =
    rw (reverse-cons e es) (omega (arith, length-append (reverse es) (e ∷ []), length-reverse es))

comma_lem : (es : List Event) → (if length es == 0 then 0 else 1) ≡ comma es
comma_lem [] = refl
comma_lem (e ∷ es) = ground arith

long-Lengths : Lengths long_json death_json
long-Lengths = record {
  one_more =
      λ p es e. rw (length-reverse (e ∷ es), length-reverse es) (omega (arith, comma_lem es));
}

abbrev two_deaths : Combat
two_deaths = record {
  seen = true;
  missing = false;
  partial_recording = false;
  ended = true;
  coverage = no_coverage;
  slots = [];
  weapons = [];
  shots = [];
  discharges = [];
  last_discharge = 0;
  damage = [];
  deaths =
      record { death = loss; event_index = 0; source_tick = 0 }
      ∷ record { death = loss; event_index = 1; source_tick = 9 }
      ∷ [];
  next_event = 2;
  awards = [];
}

product-Fitted_example : Fitted long_json two_deaths (product long_json death_json two_deaths)
product-Fitted_example = product-Fitted long-Lengths two_deaths

film_product-IsReport_example :
    Kept
      (IsReport long_json)
      (film_product plain_amounts length long_json death_json false (fight_tick ∷ []))
film_product-IsReport_example =
    film_product-IsReport plain_amounts length long-Lengths false (fight_tick ∷ [])

-- Two shots, one of which hits.
abbrev shots_of : Result Error Product → BTreeMap ShotKey (ℕ × ℕ)
shots_of (ok p) = p.shots
shots_of (err e) = []

fight_counted :
    shots_of (film_product plain_amounts length long_json death_json false (fight_tick ∷ []))
    ≡ ((0, b'a' ∷ []), (2, 1)) ∷ []
unfolding film_product observe_ticks observe observe_rest observe_source observe_frame
    observe_roster observe_player observe_weapon observe_shot observe_damage observe_death
    observe_award begin new product shorten text_eq get insert is_finite
fight_counted = refl
