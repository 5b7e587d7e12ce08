-- ===== src/Film/Combat/Events.antt =====
-- The loops of `observe` of combat.rs over weapons and shots, with a function for the body of each.
use halospawns_infra.Prelude.{
  ℕ, ◌+◌, ◌^◌, Bool, true, false, ◌&&◌, ◌||◌, not, Option, none, some, [], ◌∷◌, length, ltb, leb,
  ◌==◌, if◌then◌else◌,
}
use halospawns_infra.Prelude.Results.{Result, ok, err, ◌>>=◌}
use halospawns_infra.Prelude.OrderedMap.{number_order, get, get_or, insert, pop_first}
use halospawns_infra.Delta.Codes.{Text}
use halospawns_infra.Delta.Writer.{text_eq}
use halospawns_infra.Film.Combat.{
  Error, text_order, Weapon, Shot, ShotKey, shot_order, Combat, slot, weapon, invalid_weapon,
  identity_changed, catalogue_limit, unordered_discharges, shot_overflow,
}

-- A check before the rest of a body.
infixr 5 ◌>>◌
abbrev pub ◌>>◌ : {A : Type 0} → Result Error (Unit {0}) → Result Error A → Result Error A
m >> rest = m >>= λ _. rest

abbrev pub refuse_if : Bool → Error → Result Error (Unit {0})
refuse_if true e = err e
refuse_if false e = ok tt

-- `self.coverage[0] = level` and so on
abbrev pub set_shot_coverage : ℕ → Combat → Combat
set_shot_coverage level c = record c { coverage = record c.coverage { of_shots = level } }

abbrev pub set_damage_coverage : ℕ → Combat → Combat
set_damage_coverage level c = record c { coverage = record c.coverage { of_damage = level } }

abbrev pub set_death_coverage : ℕ → Combat → Combat
set_death_coverage level c = record c { coverage = record c.coverage { of_deaths = level } }

abbrev pub weapon_text : Text
weapon_text = b'w' ∷ b'e' ∷ b'a' ∷ b'p' ∷ b'o' ∷ b'n' ∷ []

abbrev pub grenade : Text
grenade = b'g' ∷ b'r' ∷ b'e' ∷ b'n' ∷ b'a' ∷ b'd' ∷ b'e' ∷ []

abbrev pub melee : Text
melee = b'm' ∷ b'e' ∷ b'l' ∷ b'e' ∷ b'e' ∷ []

abbrev pub vehicle : Text
vehicle = b'v' ∷ b'e' ∷ b'h' ∷ b'i' ∷ b'c' ∷ b'l' ∷ b'e' ∷ []

abbrev pub environment : Text
environment = b'e' ∷ b'n' ∷ b'v' ∷ b'i' ∷ b'r' ∷ b'o' ∷ b'n' ∷ b'm' ∷ b'e' ∷ b'n' ∷ b't' ∷ []

-- `is_ascii_lowercase() || is_ascii_digit()`
abbrev pub is_plain : ℕ → Bool
is_plain c = (leb b'a' c && leb c b'z') || (leb b'0' c && leb c b'9')

unfoldable pub later_plain : Text → Bool
later_plain [] = true
later_plain (c ∷ cs) =
    (is_plain c || ((c == b'_') || ((c == b'.') || (c == b'-')))) && later_plain cs

-- The test of the characters of a weapon's name, with their index.
unfoldable pub plain_name : Text → Bool
unfolding later_plain
plain_name [] = true
plain_name (c ∷ cs) = is_plain c && later_plain cs

unfoldable pub is_category : Text → Bool
is_category c =
    text_eq c weapon_text
    || (text_eq c grenade || (text_eq c melee || (text_eq c vehicle || text_eq c environment)))

unfoldable pub same_weapon : Weapon → Weapon → Bool
same_weapon a b =
    text_eq a.weapon_id b.weapon_id
    && (text_eq a.tag_path b.tag_path && text_eq a.category b.category)

abbrev pub is_empty : Text → Bool
is_empty t = length t == 0

-- The entry of a weapon with the same name, if there is one.
unfoldable pub known_weapon : Combat → Weapon → Option Weapon → Result Error (Unit {0})
unfolding same_weapon
known_weapon c w none = refuse_if (length c.weapons == 64) catalogue_limit
known_weapon c w (some previous) = refuse_if (not (same_weapon previous w)) identity_changed

module _ (count_chars : Text → ℕ) where
  unfoldable pub invalid_name : Weapon → Bool
  unfolding plain_name is_category
  invalid_name w =
      is_empty w.weapon_id
      || (ltb 64 (length w.weapon_id)
          || (not (plain_name w.weapon_id)
              || (is_empty w.tag_path
                  || (ltb 240 (count_chars w.tag_path) || not (is_category w.category)))))

  -- `for weapon in frame.weapons`
  unfoldable pub observe_weapon : Weapon → Combat → Result Error Combat
  unfolding invalid_name known_weapon
  observe_weapon w c =
      refuse_if (invalid_name w) invalid_weapon
      >> known_weapon c w (get text_order w.weapon_id c.weapons)
      >> ok (record c { weapons = insert text_order w.weapon_id w c.weapons })

abbrev pub max_discharges : ℕ
max_discharges = 65536

-- `summary.0 = summary.0.checked_add(1)?`
unfoldable pub fired : ShotKey → Combat → Result Error Combat
fired key c =
    let summary = get_or (get shot_order key c.shots) (0, 0) in
    if ltb (summary.0 + 1) (2 ^ 32)
    then ok (record c { shots = insert shot_order key (summary.0 + 1, summary.1) c.shots })
    else err shot_overflow

-- `if self.discharges.len() == MAX_DISCHARGES`
unfoldable pub make_room : Combat → Combat
make_room c =
    if length c.discharges == max_discharges
    then set_shot_coverage 2 (record c { discharges = pop_first c.discharges })
    else c

abbrev pub add_discharge : ℕ → ShotKey → Combat → Combat
add_discharge id key c = record c { discharges = insert number_order id (key, false) c.discharges }

-- `for shot in frame.shots`
unfoldable pub observe_shot : Shot → Combat → Result Error Combat
unfolding slot weapon fired make_room
observe_shot s c =
    slot c (some s.slot_index)
    >> weapon c (some s.weapon_id)
    >> refuse_if (leb s.discharge_id c.last_discharge) unordered_discharges
    >> (fired (s.slot_index, s.weapon_id) (record c { last_discharge = s.discharge_id }) >>= λ d.
        ok (add_discharge s.discharge_id (s.slot_index, s.weapon_id) (make_room d)))
