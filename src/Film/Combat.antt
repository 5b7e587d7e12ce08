-- ===== src/Film/Combat.antt =====
-- The state of `Combat` of lambda/h1_film/encoder/src/combat.rs, what it reads of a tick, and its checks of
-- slots and weapons. What serde_json parses is given: a field that is absent, or not of its type, is none.
pub mod Events
pub mod Outcomes
pub mod Observe
pub mod Product
pub mod Kept
pub mod Lineage
pub mod Sound
pub mod Run
mod Examples
use halospawns_infra.Prelude.{
  ℕ, ◌%◌, ◌^◌, Bool, true, false, ◌&&◌, ◌||◌, not, Option, none, some, List, [], ◌∷◌, ltb, ◌==◌,
  if◌then◌else◌,
}
use halospawns_infra.Prelude.Results.{Result, ok, err, ◌>>=◌}
use halospawns_infra.Prelude.OrderedMap.{
  Order, BTreeMap, number_order, pair_order, option_order, contains_key, is_some, get,
}
use halospawns_infra.Delta.Codes.{Text}
use halospawns_infra.Delta.Writer.{text_eq}

-- One error for each message, and `panic` for a failed `unwrap`.
pub data Error : Type 0 where
  missing_roster invalid_roster invalid_source invalid_envelope invalid_weapon : Error
  identity_changed catalogue_limit unordered_discharges shot_overflow : Error
  invalid_damage contradicts_lineage damage_overflow invalid_death : Error
  duplicate_award awards_decreased unknown_slot unknown_weapon byte_budget panic : Error

-- The arithmetic of f64, as patterns of 64 bits: `x + y`, `x < y`, `x <= y`.
pub record Amounts : Type 0 where
  pub plus : ℕ → ℕ → ℕ
  pub less : ℕ → ℕ → Bool
  pub at_most : ℕ → ℕ → Bool

-- 9_007_199_254_740_991.0 and 1e6
abbrev pub amount_max : ℕ
amount_max = 0x433FFFFFFFFFFFFF

abbrev pub position_max : ℕ
position_max = 0x412E848000000000

-- `String`'s order, byte by byte.
unfoldable pub text_before : Text → Text → Bool
text_before xs [] = false
text_before [] (y ∷ ys) = true
text_before (x ∷ xs) (y ∷ ys) = ltb x y || ((x == y) && text_before xs ys)

abbrev pub text_order : Order Text
text_order = record { same = text_eq; before = text_before }

pub record Weapon : Type 0 where
  pub weapon_id : Text
  pub tag_path : Text
  pub category : Text

pub record Shot : Type 0 where
  pub discharge_id : ℕ
  pub slot_index : ℕ
  pub weapon_id : Text

pub record Damage : Type 0 where
  pub discharge_id : Option ℕ
  pub attacker_slot : Option ℕ
  pub victim_slot : ℕ
  pub weapon_id : Option Text
  pub relationship : Text
  pub shield_damage : ℕ
  pub health_damage : ℕ

pub record Death : Type 0 where
  pub killer_slot : Option ℕ
  pub victim_slot : ℕ
  pub weapon_id : Option Text
  pub kind : Text
  pub headshot : Option Bool
  pub killer_position : Option (ℕ × ℕ × ℕ)
  pub victim_position : Option (ℕ × ℕ × ℕ)

pub record Award : Type 0 where
  pub slot_index : ℕ
  pub longest_kill_streak : ℕ
  pub double_kills : ℕ
  pub triple_kills : ℕ
  pub overkills : ℕ

-- The four levels of `coverage`.
pub record Coverage : Type 0 where
  pub of_shots : ℕ
  pub of_damage : ℕ
  pub of_deaths : ℕ
  pub of_awards : ℕ

pub record Frame : Type 0 where
  pub schema : Text
  pub coverage : Coverage
  pub weapons : List Weapon
  pub shots : List Shot
  pub damage : List Damage
  pub deaths : List Death
  pub awards : List Award

-- What `observe` reads of a tick; `combat` is none if there is no such field, and some none if it does
-- not parse.
pub record Tick : Type 0 where
  pub current_tick : Option ℕ
  pub players : Option (List (Option ℕ))
  pub game_ended_this_tick : Option Bool
  pub combat : Option (Option Frame)

abbrev pub ShotKey : Type 0
ShotKey = ℕ × Text

abbrev pub shot_order : Order ShotKey
shot_order = pair_order number_order text_order

abbrev pub DamageKey : Type 0
DamageKey = Option ℕ × (ℕ × (Option Text × Text))

abbrev pub damage_order : Order DamageKey
damage_order =
    pair_order (option_order number_order)
      (pair_order number_order (pair_order (option_order text_order) text_order))

-- A death with the two members that are added to its JSON.
pub record Event : Type 0 where
  pub death : Death
  pub event_index : ℕ
  pub source_tick : ℕ

pub record Combat : Type 0 where
  pub seen : Bool
  pub missing : Bool
  pub partial_recording : Bool
  pub ended : Bool
  pub coverage : Coverage
  pub slots : BTreeMap ℕ (Unit {0})
  pub weapons : BTreeMap Text Weapon
  pub shots : BTreeMap ShotKey (ℕ × ℕ)
  pub discharges : BTreeMap ℕ (ShotKey × Bool)
  pub last_discharge : ℕ
  pub damage : BTreeMap DamageKey (ℕ × ℕ)
  pub deaths : List Event
  pub next_event : ℕ
  pub awards : BTreeMap ℕ Award

-- fn new
unfoldable pub new : Bool → Combat
new network_recording = record {
  seen = false;
  missing = false;
  partial_recording = false;
  ended = false;
  coverage = record {
    of_shots = if network_recording then 1 else 0;
    of_damage = if network_recording then 1 else 0;
    of_deaths = 0;
    of_awards = 0;
  };
  slots = [];
  weapons = [];
  shots = [];
  discharges = [];
  last_discharge = 0;
  damage = [];
  deaths = [];
  next_event = 0;
  awards = [];
}

-- fn slot
unfoldable pub slot : Combat → Option ℕ → Result Error (Unit {0})
slot c none = ok tt
slot c (some s) = if contains_key number_order s c.slots then ok tt else err unknown_slot

-- fn weapon
unfoldable pub weapon : Combat → Option Text → Result Error (Unit {0})
weapon c none = ok tt
weapon c (some w) = if contains_key text_order w c.weapons then ok tt else err unknown_weapon

-- A loop over a list, with `?` in its body.
unfoldable pub each : {A S : Type 0} → (A → S → Result Error S) → List A → S → Result Error S
each body [] s = ok s
each body (x ∷ xs) s = do s' ← body x s; each body xs s'
