-- ===== src/Parser/Occupancy.antt =====
-- `Occupancy` of lambda/replay_parser/native/src/main.rs: in which cells of the map the players of each slot
-- were seen, and why samples were left out. The maps of counts are hash maps there; the order of their
-- entries is not observed, since the output sorts them.
pub mod Counted
pub mod Observed
use halospawns_infra.Prelude.{
  ℕ, ◌+◌, ◌-◌, ◌^◌, min, Bool, true, false, ◌&&◌, ◌||◌, not, Option, none, some, List, [], ◌∷◌,
  length, ltb, leb, ◌==◌, if◌then◌else◌,
}
use halospawns_infra.Prelude.Int.{ℤ, pos, negsuc}
use halospawns_infra.Prelude.OrderedMap.{
  Order, BTreeMap, pair_order, get, get_or, insert, contains_key,
}
use halospawns_infra.Delta.Codes.{Text}
use halospawns_infra.Delta.Floats.{is_finite}
use halospawns_infra.Delta.Value.{Value, null, bool, number, string, array, object}
use halospawns_infra.Film.Combat.{text_order}

abbrev pub max_cells_per_slot : ℕ
max_cells_per_slot = 50000

abbrev pub max_cells_total : ℕ
max_cells_total = 200000

abbrev pub max_counter : ℕ
max_counter = 2147483647

abbrev pub invalid_slot : Text
invalid_slot =
    b'i' ∷ b'n' ∷ b'v' ∷ b'a' ∷ b'l' ∷ b'i' ∷ b'd' ∷ b'_' ∷ b's' ∷ b'l' ∷ b'o' ∷ b't' ∷ []

abbrev pub hostman : Text
hostman = b'h' ∷ b'o' ∷ b's' ∷ b't' ∷ b'm' ∷ b'a' ∷ b'n' ∷ []

abbrev pub missing_player_object : Text
missing_player_object =
    b'm' ∷ b'i' ∷ b's' ∷ b's' ∷ b'i' ∷ b'n' ∷ b'g' ∷ b'_' ∷ b'p' ∷ b'l' ∷ b'a' ∷ b'y' ∷ b'e' ∷ b'r'
    ∷ b'_' ∷ b'o' ∷ b'b' ∷ b'j' ∷ b'e' ∷ b'c' ∷ b't' ∷ []

abbrev pub missing_coordinate : Text
missing_coordinate =
    b'm' ∷ b'i' ∷ b's' ∷ b's' ∷ b'i' ∷ b'n' ∷ b'g' ∷ b'_' ∷ b'c' ∷ b'o' ∷ b'o' ∷ b'r' ∷ b'd' ∷ b'i'
    ∷ b'n' ∷ b'a' ∷ b't' ∷ b'e' ∷ []

abbrev pub non_finite : Text
non_finite = b'n' ∷ b'o' ∷ b'n' ∷ b'_' ∷ b'f' ∷ b'i' ∷ b'n' ∷ b'i' ∷ b't' ∷ b'e' ∷ []

abbrev pub out_of_bounds : Text
out_of_bounds =
    b'o' ∷ b'u' ∷ b't' ∷ b'_' ∷ b'o' ∷ b'f' ∷ b'_' ∷ b'b' ∷ b'o' ∷ b'u' ∷ b'n' ∷ b'd' ∷ b's' ∷ []

abbrev pub slot_cell_limit : Text
slot_cell_limit =
    b's' ∷ b'l' ∷ b'o' ∷ b't' ∷ b'_' ∷ b'c' ∷ b'e' ∷ b'l' ∷ b'l' ∷ b'_' ∷ b'l' ∷ b'i' ∷ b'm' ∷ b'i'
    ∷ b't' ∷ []

abbrev pub global_cell_limit : Text
global_cell_limit =
    b'g' ∷ b'l' ∷ b'o' ∷ b'b' ∷ b'a' ∷ b'l' ∷ b'_' ∷ b'c' ∷ b'e' ∷ b'l' ∷ b'l' ∷ b'_' ∷ b'l' ∷ b'i'
    ∷ b'm' ∷ b'i' ∷ b't' ∷ []

-- What is done with an f64: `str::parse`, `fract() == 0.0`, `(0.0..64.0).contains(&x)`, `as i64`,
-- `abs() > MAX_COORDINATE_ABS`, and `(x / cell_size).floor() as i64` for the cell size that is set.
pub record Coordinates : Type 0 where
  pub parse : Text → Option ℕ
  pub is_whole : ℕ → Bool
  pub in_slots : ℕ → Bool
  pub to_i64 : ℕ → ℤ
  pub is_far : ℕ → Bool
  pub cell_of : ℕ → ℤ

-- `CapturedValue`
pub record CapturedValue : Type 0 where
  pub present : Bool
  pub value : Value

pub record PlayerObjectData : Type 0 where
  pub x : CapturedValue
  pub y : CapturedValue
  pub z : CapturedValue

-- What `observe` reads of a player; `is_hostman` is what `optional_bool` finds, if there are derived stats.
pub record Player : Type 0 where
  pub player_index : Value
  pub is_hostman : Option Bool
  pub player_object_data : Option PlayerObjectData

-- The order of i64
unfoldable pub same_int : ℤ → ℤ → Bool
same_int (pos a) (pos b) = a == b
same_int (pos a) (negsuc b) = false
same_int (negsuc a) (pos b) = false
same_int (negsuc a) (negsuc b) = a == b

unfoldable pub before_int : ℤ → ℤ → Bool
before_int (pos a) (pos b) = ltb a b
before_int (pos a) (negsuc b) = false
before_int (negsuc a) (pos b) = true
before_int (negsuc a) (negsuc b) = ltb b a

abbrev pub int_order : Order ℤ
int_order = record { same = same_int; before = before_int }

-- The slot, and x, y and z.
abbrev pub CellKey : Type 0
CellKey = ℤ × (ℤ × (ℤ × ℤ))

abbrev pub cell_order : Order CellKey
cell_order = pair_order int_order (pair_order int_order (pair_order int_order int_order))

pub record Occupancy : Type 0 where
  pub samples_seen : ℕ
  pub cells : BTreeMap CellKey ℕ
  pub cell_counts_by_slot : BTreeMap ℤ ℕ
  pub observations_by_slot : BTreeMap ℤ ℕ
  pub discarded : BTreeMap Text ℕ

-- `Occupancy::default()`
abbrev pub new : Occupancy
new = record {
  samples_seen = 0;
  cells = [];
  cell_counts_by_slot = [];
  observations_by_slot = [];
  discarded = [];
}

-- `saturating_add` of u64
abbrev pub saturating_add : ℕ → ℕ → ℕ
saturating_add a b = min (a + b) (2 ^ 64 - 1)

-- fn bounded_add
unfoldable pub bounded_add : ℕ → ℕ → ℕ
bounded_add current amount = min (saturating_add current amount) max_counter

-- `let count = map.entry(key).or_default(); *count = bounded_add(*count, 1);`
unfoldable pub count_one : {K : Type 0} → Order K → K → BTreeMap K ℕ → BTreeMap K ℕ
unfolding bounded_add
count_one o k m = insert o k (bounded_add (get_or (get o k m) 0) 1) m

-- fn discard
unfoldable pub discard : Text → Occupancy → Occupancy
unfolding count_one
discard reason o = record o { discarded = count_one text_order reason o.discarded }

-- The end of `observe`.
unfoldable pub add_observation : CellKey → Occupancy → Occupancy
unfolding count_one
add_observation key o = record o {
  cells = count_one cell_order key o.cells;
  observations_by_slot = count_one int_order key.0 o.observations_by_slot;
}

-- `*self.cell_counts_by_slot.entry(slot).or_default() += 1`
unfoldable pub add_cell : CellKey → Occupancy → Occupancy
add_cell key o =
    let cells_of_slot = get_or (get int_order key.0 o.cell_counts_by_slot) 0 in
    record o {
      cell_counts_by_slot = insert int_order key.0 (cells_of_slot + 1) o.cell_counts_by_slot;
    }

-- `if !self.cells.contains_key(&key)`
unfoldable pub observe_cell : CellKey → Occupancy → Occupancy
unfolding add_observation add_cell discard
observe_cell key o =
    if contains_key cell_order key o.cells
    then add_observation key o
    else if leb max_cells_per_slot (get_or (get int_order key.0 o.cell_counts_by_slot) 0)
    then discard slot_cell_limit o
    else if leb max_cells_total (length o.cells)
    then discard global_cell_limit o
    else add_observation key (add_cell key o)

module _ (C : Coordinates) where
  open C use {parse, is_whole, in_slots, to_i64, is_far, cell_of}

  -- fn value_as_f64
  unfoldable pub value_as_f64 : Value → Option ℕ
  value_as_f64 (number v) = some v
  value_as_f64 (string s) = parse s
  value_as_f64 null = none
  value_as_f64 (bool b) = none
  value_as_f64 (array vs) = none
  value_as_f64 (object fs) = none

  abbrev pub slot_of : Option ℕ → Option ℤ
  slot_of none = none
  slot_of (some v) =
      if not (is_finite v) || (not (is_whole v) || not (in_slots v)) then none else some (to_i64 v)

  -- fn spatial_slot; a Boolean is no number anyway.
  unfoldable pub spatial_slot : Value → Option ℤ
  unfolding value_as_f64
  spatial_slot v = slot_of (value_as_f64 v)

  abbrev pub only_finite : Option ℕ → Option ℕ
  only_finite none = none
  only_finite (some v) = if is_finite v then some v else none

  -- fn spatial_coordinate
  unfoldable pub spatial_coordinate : Value → Option ℕ
  unfolding value_as_f64
  spatial_coordinate v = only_finite (value_as_f64 v)

  -- The three coordinates, each of which may be missing.
  unfoldable pub observe_position : ℤ → Option ℕ → Option ℕ → Option ℕ → Occupancy → Occupancy
  unfolding observe_cell discard
  observe_position slot (some x) (some y) (some z) o =
      if is_far x || (is_far y || is_far z)
      then discard out_of_bounds o
      else observe_cell (slot, (cell_of x, (cell_of y, cell_of z))) o
  observe_position slot none y z o = discard non_finite o
  observe_position slot (some x) none z o = discard non_finite o
  observe_position slot (some x) (some y) none o = discard non_finite o

  unfoldable pub observe_object : ℤ → Option PlayerObjectData → Occupancy → Occupancy
  unfolding observe_position spatial_coordinate discard
  observe_object slot none o = discard missing_player_object o
  observe_object slot (some p) o =
      if not p.x.present || (not p.y.present || not p.z.present)
      then discard missing_coordinate o
      else observe_position slot (spatial_coordinate p.x.value) (spatial_coordinate p.y.value)
          (spatial_coordinate p.z.value) o

  abbrev pub is_true : Option Bool → Bool
  is_true none = false
  is_true (some b) = b

  unfoldable pub observe_slot : Option ℤ → Player → Occupancy → Occupancy
  unfolding observe_object discard
  observe_slot none p o = discard invalid_slot o
  observe_slot (some slot) p o =
      if is_true p.is_hostman then discard hostman o else observe_object slot p.player_object_data o

  -- fn observe
  unfoldable pub observe : Player → Occupancy → Occupancy
  unfolding observe_slot spatial_slot bounded_add
  observe p o =
      observe_slot (spatial_slot p.player_index) p
        (record o { samples_seen = bounded_add o.samples_seen 1 })
