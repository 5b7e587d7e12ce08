-- ===== src/Film/Sampling/Retime.antt =====
-- `retime_metadata` of lambda/h1_film/encoder/src/sampling.rs: events and metrics move to the samples that
-- show their ticks. `str::parse` and `to_string` of a `usize` and the sum of two f64 are parameters.
use halospawns_infra.Prelude.{
  ℕ, Bool, true, false, ◌||◌, ◌==◌, Option, none, some, List, [], ◌∷◌, ◌++◌, ltb, if◌then◌else◌,
}
use halospawns_infra.Prelude.Results.{Result, ok, err, ◌>>=◌, ok_or}
use halospawns_infra.Prelude.OrderedMap.{BTreeMap, number_order, get, get_or}
use halospawns_infra.Prelude.OrderedMap as Ordered
use halospawns_infra.Delta.Codes.{Text}
use halospawns_infra.Delta.Floats.{is_finite}
use halospawns_infra.Delta.Writer.{text_eq}
use halospawns_infra.Delta.Value.{
  Value, null, bool, number, string, array, object, Items, nil, cons, Fields, end, field, number_of,
  items_of, fields_of, and_then, length_items, field_at, insert,
}
use halospawns_infra.Film.Sampling.{output_tick}

-- `panic` for a failed `unwrap`.
pub data Error : Type 0 where
  invalid_tick expected_positions too_many_positions non_numeric panic : Error

-- The names of METRICS, and whether a metric has positions.
abbrev pub kills_by_tick : Text
kills_by_tick =
    b'k' ∷ b'i' ∷ b'l' ∷ b'l' ∷ b's' ∷ b'_' ∷ b'b' ∷ b'y' ∷ b'_' ∷ b't' ∷ b'i' ∷ b'c' ∷ b'k' ∷ []

abbrev pub deaths_by_tick : Text
deaths_by_tick =
    b'd' ∷ b'e' ∷ b'a' ∷ b't' ∷ b'h' ∷ b's' ∷ b'_' ∷ b'b' ∷ b'y' ∷ b'_' ∷ b't' ∷ b'i' ∷ b'c' ∷ b'k'
    ∷ []

abbrev pub metrics : List Text
metrics =
    kills_by_tick
    ∷ deaths_by_tick
    ∷ (b'a' ∷ b's' ∷ b's' ∷ b'i' ∷ b's' ∷ b't' ∷ b's' ∷ b'_' ∷ b'b' ∷ b'y' ∷ b'_' ∷ b't' ∷ b'i'
        ∷ b'c' ∷ b'k' ∷ [])
    ∷ (b's' ∷ b'h' ∷ b'o' ∷ b't' ∷ b's' ∷ b'_' ∷ b'b' ∷ b'y' ∷ b'_' ∷ b't' ∷ b'i' ∷ b'c' ∷ b'k'
        ∷ [])
    ∷ (b'd' ∷ b'a' ∷ b'm' ∷ b'a' ∷ b'g' ∷ b'e' ∷ b'_' ∷ b'd' ∷ b'e' ∷ b'a' ∷ b'l' ∷ b't' ∷ b'_'
        ∷ b'b' ∷ b'y' ∷ b'_' ∷ b't' ∷ b'i' ∷ b'c' ∷ b'k' ∷ [])
    ∷ (b'd' ∷ b'a' ∷ b'm' ∷ b'a' ∷ b'g' ∷ b'e' ∷ b'_' ∷ b'r' ∷ b'e' ∷ b'c' ∷ b'e' ∷ b'i' ∷ b'v'
        ∷ b'e' ∷ b'd' ∷ b'_' ∷ b'b' ∷ b'y' ∷ b'_' ∷ b't' ∷ b'i' ∷ b'c' ∷ b'k' ∷ [])
    ∷ []

abbrev pub events_key : Text
events_key = b'e' ∷ b'v' ∷ b'e' ∷ b'n' ∷ b't' ∷ b's' ∷ []

abbrev pub meta_key : Text
meta_key = b'g' ∷ b'a' ∷ b'm' ∷ b'e' ∷ b'_' ∷ b'm' ∷ b'e' ∷ b't' ∷ b'a' ∷ []

abbrev pub players_key : Text
players_key = b'p' ∷ b'l' ∷ b'a' ∷ b'y' ∷ b'e' ∷ b'r' ∷ b's' ∷ []

abbrev pub has_positions : Text → Bool
has_positions metric = text_eq metric kills_by_tick || text_eq metric deaths_by_tick

unfoldable pub append_items : Items → Items → Items
append_items nil ws = ws
append_items (cons v vs) ws = cons v (append_items vs ws)

-- `target.extend(..)`, and the limit
unfoldable pub extend : Items → Option Items → Result Error Value
unfolding append_items length_items
extend positions none = err panic
extend positions (some target) =
    let all = append_items target positions in
    if ltb 64 (length_items all) then err too_many_positions else ok (array all)

unfoldable pub merge_positions : Value → Value → Result Error Value
unfolding extend items_of
merge_positions value target =
    ok_or (items_of value) expected_positions >>= λ positions. extend positions (items_of target)

-- `split_once(':')`
unfoldable pub split_once : Text → Option (Text × Text)
split_once [] = none
split_once (c ∷ cs) =
    let rest = split_once cs in
    if c == b':' then some ([], cs) else and_then rest (λ p. some (c ∷ p.0, p.1))

-- `json!(..)` of an f64: JSON has no infinite number.
abbrev pub json_number : ℕ → Value
json_number x = if is_finite x then number x else null

-- The branches of `matches!(metric, ..)`: what an entry starts as.
abbrev pub start : Bool → Value
start true = array nil
start false = number 0

abbrev pub value_at : Bool → ℕ → BTreeMap ℕ Value → Value
value_at positions k m = get_or (get number_order k m) (start positions)

module _ (plus : ℕ → ℕ → ℕ) where
  unfoldable pub merge_delta : Value → Value → Result Error Value
  unfolding number_of is_finite
  merge_delta value target = ok_or (number_of target) panic >>= λ sum.
      ok_or (number_of value) non_numeric >>= λ delta. ok (json_number (plus sum delta))

  -- What a value does to an entry.
  unfoldable pub merge : Bool → Value → Value → Result Error Value
  unfolding merge_positions merge_delta
  merge true value target = merge_positions value target
  merge false value target = merge_delta value target

module _ (plus : ℕ → ℕ → ℕ) (stride count : ℕ) where
  -- `for (tick, value) in source`
  unfoldable pub resample :
      Bool → BTreeMap ℕ Value → BTreeMap ℕ Value → Result Error (BTreeMap ℕ Value)
  unfolding merge output_tick
  resample positions [] resampled = ok resampled
  resample positions ((tick, value) ∷ source) resampled =
      let key = output_tick tick stride count in
      merge plus positions value (value_at positions key resampled) >>= λ target.
      resample positions source (Ordered.insert number_order key target resampled)

module _ (parse : Text → Option ℕ) (to_string : ℕ → Text) (plus : ℕ → ℕ → ℕ)
    (stride count : ℕ) where
  -- `let source: BTreeMap<usize, Value>`
  unfoldable pub parse_series : Fields → BTreeMap ℕ Value → Result Error (BTreeMap ℕ Value)
  parse_series end source = ok source
  parse_series (field tick value series) source = ok_or (parse tick) invalid_tick >>= λ t.
      parse_series series (Ordered.insert number_order t value source)

  -- `*series = resampled.into_iter()..`; different ticks have different texts.
  unfoldable pub to_fields : BTreeMap ℕ Value → Fields
  to_fields [] = end
  to_fields ((tick, value) ∷ m) = field (to_string tick) value (to_fields m)

  unfoldable pub retime_series : Bool → Fields → Result Error Fields
  unfolding resample parse_series to_fields
  retime_series positions series = parse_series series [] >>= λ source.
      resample plus stride count positions source [] >>= λ resampled. ok (to_fields resampled)

  -- `for (_, metric) in METRICS`
  unfoldable pub retime_metric : Text → Fields → Option Fields → Result Error Fields
  unfolding retime_series text_eq
  retime_metric metric player none = ok player
  retime_metric metric player (some series) =
      retime_series (has_positions metric) series >>= λ retimed.
      ok (insert player metric (object retimed))

  unfoldable pub retime_metrics : List Text → Fields → Result Error Fields
  unfolding retime_metric
  retime_metrics [] player = ok player
  retime_metrics (metric ∷ names) player =
      retime_metric metric player (and_then (field_at player metric) fields_of) >>= λ retimed.
      retime_metrics names retimed

  unfoldable pub retime_player : Option Fields → Value → Result Error Value
  unfolding retime_metrics
  retime_player none player = ok player
  retime_player (some fields) player = retime_metrics metrics fields >>= λ fs. ok (object fs)

  -- `for player in players.values_mut()`
  unfoldable pub retime_players : Fields → Result Error Fields
  unfolding retime_player fields_of
  retime_players end = ok end
  retime_players (field name player players) =
      retime_player (fields_of player) player >>= λ retimed.
      retime_players players >>= λ others. ok (field name retimed others)

  -- `*event = json!(..)`
  unfoldable pub retime_event : Value → Value
  unfolding split_once output_tick
  retime_event (string text) = elim (split_once text) [
    | none ↦ string text
    | some (tick, body) ↦ elim (parse tick) [
      | none ↦ string text
      | some t ↦ string (to_string (output_tick t stride count) ++ (b':' ∷ body))
    ]
  ]
  retime_event null = null
  retime_event (bool b) = bool b
  retime_event (number n) = number n
  retime_event (array vs) = array vs
  retime_event (object fs) = object fs

  unfoldable pub retime_events : Items → Items
  unfolding retime_event
  retime_events nil = nil
  retime_events (cons event events) = cons (retime_event event) (retime_events events)

  -- `if let Some(events) = replay.get_mut("events").and_then(Value::as_array_mut)`
  unfoldable pub put_events : Fields → Option Items → Fields
  unfolding retime_events text_eq
  put_events replay none = replay
  put_events replay (some events) = insert replay events_key (array (retime_events events))

  -- `meta.get_mut("players")`, an object
  unfoldable pub put_players : Fields → Option Fields → Result Error Fields
  unfolding retime_players text_eq
  put_players meta none = ok meta
  put_players meta (some players) =
      retime_players players >>= λ retimed. ok (insert meta players_key (object retimed))

  -- `replay.get_mut("game_meta")`, an object
  unfoldable pub put_meta : Fields → Option Fields → Result Error Fields
  unfolding put_players text_eq
  put_meta replay none = ok replay
  put_meta replay (some meta) =
      put_players meta (and_then (field_at meta players_key) fields_of) >>= λ retimed.
      ok (insert replay meta_key (object retimed))

  -- fn retime_metadata
  unfoldable pub retime_metadata : Fields → Result Error Fields
  unfolding put_events put_meta text_eq
  retime_metadata replay =
      let with_events = put_events replay (and_then (field_at replay events_key) items_of) in
      put_meta with_events (and_then (field_at with_events meta_key) fields_of)
