-- ===== src/Film/Counters.antt =====
-- `Counters` of lambda/h1_film/encoder/src/counters.rs. What `Serialize` writes is the object that JSON has of it.
pub mod Lookup
use halospawns_infra.Prelude.{
  ℕ, zero, suc, ◌==◌, leb, Bool, true, false, Option, none, some, List, [], ◌∷◌, if◌then◌else◌,
}
use halospawns_infra.Prelude.OrderedMap.{get_or}
use halospawns_infra.Delta.Codes.{Text}
use halospawns_infra.Delta.Writer.{text_eq}
use halospawns_infra.Delta.Value.{Value, null, Fields, end, field, field_at, fields_of, and_then}

abbrev pub kills : Text
kills = b'k' ∷ b'i' ∷ b'l' ∷ b'l' ∷ b's' ∷ []

abbrev pub deaths : Text
deaths = b'd' ∷ b'e' ∷ b'a' ∷ b't' ∷ b'h' ∷ b's' ∷ []

abbrev pub assists : Text
assists = b'a' ∷ b's' ∷ b's' ∷ b'i' ∷ b's' ∷ b't' ∷ b's' ∷ []

abbrev pub suicides : Text
suicides = b's' ∷ b'u' ∷ b'i' ∷ b'c' ∷ b'i' ∷ b'd' ∷ b'e' ∷ b's' ∷ []

abbrev pub team_kills : Text
team_kills = b't' ∷ b'e' ∷ b'a' ∷ b'm' ∷ b'_' ∷ b'k' ∷ b'i' ∷ b'l' ∷ b'l' ∷ b's' ∷ []

abbrev pub shots_fired : Text
shots_fired = b's' ∷ b'h' ∷ b'o' ∷ b't' ∷ b's' ∷ b'_' ∷ b'f' ∷ b'i' ∷ b'r' ∷ b'e' ∷ b'd' ∷ []

abbrev pub shots_hit : Text
shots_hit = b's' ∷ b'h' ∷ b'o' ∷ b't' ∷ b's' ∷ b'_' ∷ b'h' ∷ b'i' ∷ b't' ∷ []

abbrev pub score : Text
score = b's' ∷ b'c' ∷ b'o' ∷ b'r' ∷ b'e' ∷ []

abbrev pub ctf_score : Text
ctf_score = b'c' ∷ b't' ∷ b'f' ∷ b'_' ∷ b's' ∷ b'c' ∷ b'o' ∷ b'r' ∷ b'e' ∷ []

abbrev pub damage_dealt : Text
damage_dealt =
    b'd' ∷ b'a' ∷ b'm' ∷ b'a' ∷ b'g' ∷ b'e' ∷ b'_' ∷ b'd' ∷ b'e' ∷ b'a' ∷ b'l' ∷ b't' ∷ []

abbrev pub damage_received : Text
damage_received =
    b'd' ∷ b'a' ∷ b'm' ∷ b'a' ∷ b'g' ∷ b'e' ∷ b'_' ∷ b'r' ∷ b'e' ∷ b'c' ∷ b'e' ∷ b'i' ∷ b'v' ∷ b'e'
    ∷ b'd' ∷ []

abbrev pub camo_count : Text
camo_count = b'c' ∷ b'a' ∷ b'm' ∷ b'o' ∷ b'_' ∷ b'c' ∷ b'o' ∷ b'u' ∷ b'n' ∷ b't' ∷ []

abbrev pub overshield_count : Text
overshield_count =
    b'o' ∷ b'v' ∷ b'e' ∷ b'r' ∷ b's' ∷ b'h' ∷ b'i' ∷ b'e' ∷ b'l' ∷ b'd' ∷ b'_' ∷ b'c' ∷ b'o' ∷ b'u'
    ∷ b'n' ∷ b't' ∷ []

abbrev pub unit : Text
unit = b'u' ∷ b'n' ∷ b'i' ∷ b't' ∷ []

abbrev pub primary_nades : Text
primary_nades =
    b'p' ∷ b'r' ∷ b'i' ∷ b'm' ∷ b'a' ∷ b'r' ∷ b'y' ∷ b'_' ∷ b'n' ∷ b'a' ∷ b'd' ∷ b'e' ∷ b's' ∷ []

abbrev pub secondary_nades : Text
secondary_nades =
    b's' ∷ b'e' ∷ b'c' ∷ b'o' ∷ b'n' ∷ b'd' ∷ b'a' ∷ b'r' ∷ b'y' ∷ b'_' ∷ b'n' ∷ b'a' ∷ b'd' ∷ b'e'
    ∷ b's' ∷ []

abbrev pub object_ref : Text
object_ref = b'o' ∷ b'b' ∷ b'j' ∷ b'e' ∷ b'c' ∷ b't' ∷ b'_' ∷ b'r' ∷ b'e' ∷ b'f' ∷ []

abbrev pub player_object_data : Text
player_object_data =
    b'p' ∷ b'l' ∷ b'a' ∷ b'y' ∷ b'e' ∷ b'r' ∷ b'_' ∷ b'o' ∷ b'b' ∷ b'j' ∷ b'e' ∷ b'c' ∷ b't' ∷ b'_'
    ∷ b'd' ∷ b'a' ∷ b't' ∷ b'a' ∷ []

-- FIELDS
abbrev pub field_names : List Text
field_names =
    kills ∷ deaths ∷ assists ∷ suicides ∷ team_kills ∷ shots_fired ∷ shots_hit ∷ score ∷ ctf_score
    ∷ damage_dealt ∷ damage_received ∷ camo_count ∷ overshield_count ∷ unit ∷ primary_nades
    ∷ secondary_nades ∷ []

-- The match of `get`, from names to indices.
abbrev pub indices : List (Text × ℕ)
indices =
    (kills, 0)
    ∷ (deaths, 1)
    ∷ (assists, 2)
    ∷ (suicides, 3)
    ∷ (team_kills, 4)
    ∷ (shots_fired, 5)
    ∷ (shots_hit, 6)
    ∷ (score, 7)
    ∷ (ctf_score, 8)
    ∷ (damage_dealt, 9)
    ∷ (damage_received, 10)
    ∷ (camo_count, 11)
    ∷ (overshield_count, 12)
    ∷ (unit, 13)
    ∷ (primary_nades, 14)
    ∷ (secondary_nades, 15)
    ∷ []

abbrev pub Counters : Type 0
Counters = List (Option Value)

-- serde_json's `get` and `[]`
unfoldable pub member : Value → Text → Option Value
unfolding fields_of
member v key = and_then (fields_of v) (λ fs. field_at fs key)

abbrev pub at_key : Value → Text → Value
at_key v key = get_or (member v key) null

-- The branches of `from_fn`.
unfoldable pub counter : Value → Value → ℕ → Text → Option Value
unfolding member
counter player metadata index name =
    if leb index 8
    then member player name
    else if leb index 12
    then member metadata name
    else if index == 13
    then some (at_key player object_ref)
    else some (at_key (at_key player player_object_data) name)

unfoldable pub from_player_at : Value → Value → ℕ → List Text → Counters
unfolding counter
from_player_at player metadata index [] = []
from_player_at player metadata index (name ∷ names) =
    counter player metadata index name ∷ from_player_at player metadata (suc index) names

-- fn from_player
unfoldable pub from_player : Value → Value → Counters
unfolding from_player_at
from_player player metadata = from_player_at player metadata 0 field_names

-- `self.0[index]`
unfoldable pub counter_at : Counters → ℕ → Option Value
counter_at [] i = none
counter_at (c ∷ cs) zero = c
counter_at (c ∷ cs) (suc i) = counter_at cs i

unfoldable pub index_of : List (Text × ℕ) → Text → Option ℕ
unfolding text_eq
index_of [] key = none
index_of ((name, i) ∷ table) key =
    let rest = index_of table key in if text_eq name key then some i else rest

-- fn get
unfoldable pub get : Counters → Text → Option Value
unfolding index_of counter_at
get counters key = and_then (index_of indices key) (counter_at counters)

-- fn index
unfoldable pub index : Counters → Text → Value
unfolding get
index counters key = get_or (get counters key) null

-- `FIELDS.iter().zip(&self.0)`
unfoldable pub serialize_from : List Text → Counters → Fields
serialize_from [] counters = end
serialize_from (name ∷ names) [] = end
serialize_from (name ∷ names) (none ∷ counters) = serialize_from names counters
serialize_from (name ∷ names) (some v ∷ counters) = field name v (serialize_from names counters)

-- fn serialize
unfoldable pub serialize : Counters → Fields
unfolding serialize_from
serialize counters = serialize_from field_names counters
