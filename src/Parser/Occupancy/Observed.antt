-- ===== src/Parser/Occupancy/Observed.antt =====
-- The counts of `Occupancy` of main.rs over `observe`.
use halospawns_infra.Prelude.{
  ℕ, ◌||◌, not, Option, none, some, length, arith, Bool-cases, inl, inr, leb,
}
use halospawns_infra.Prelude.Int.{ℤ}
use halospawns_infra.Prelude.OrderedMap.{contains_key}
use halospawns_infra.Parser.Occupancy.{
  Coordinates, Player, PlayerObjectData, CellKey, cell_order, Occupancy, bounded_add, observe_cell,
  observe_position, observe_object, observe_slot, spatial_slot, spatial_coordinate, observe,
  max_cells_per_slot, max_cells_total, slot_cell_limit, global_cell_limit, out_of_bounds,
  non_finite, missing_coordinate, missing_player_object, invalid_slot, hostman, is_true,
}
use halospawns_infra.Parser.Occupancy.Counted.{
  IsCounted, slot_cells, discard-IsCounted, known-IsCounted, new_cell-IsCounted, absent_cell,
}

observe_cell-IsCounted :
    (key : CellKey) (o : Occupancy) → IsCounted 1 o → IsCounted 0 (observe_cell key o)
unfolding observe_cell
observe_cell-IsCounted key o c = elim (Bool-cases (contains_key cell_order key o.cells)) [
  | inl known ↦ rw known (known-IsCounted key o known c)
  | inr new_cell ↦ elim (Bool-cases (leb max_cells_per_slot (slot_cells key.0 o))) [
    | inl full ↦ rw (new_cell, full) (discard-IsCounted slot_cell_limit o c)
    | inr room ↦ elim (Bool-cases (leb max_cells_total (length o.cells))) [
      | inl all ↦ rw (new_cell, room, all) (discard-IsCounted global_cell_limit o c)
      | inr few ↦
          rw (new_cell, room, few)
            (new_cell-IsCounted key o (absent_cell key o.cells new_cell) (ground arith)
              (ground arith) c)
    ]
  ]
]

module _ (C : Coordinates) where
  open C use {is_far, cell_of}

  position-IsCounted :
      (slot : ℤ) (x y z : Option ℕ) (o : Occupancy)
      → IsCounted 1 o
      → IsCounted 0 (observe_position C slot x y z o)
  unfolding observe_position
  position-IsCounted slot (some x) (some y) (some z) o c =
      elim (Bool-cases (is_far x || (is_far y || is_far z))) [
        | inl far ↦ rw far (discard-IsCounted out_of_bounds o c)
        | inr near ↦
            rw near (observe_cell-IsCounted (slot, (cell_of x, (cell_of y, cell_of z))) o c)
      ]
  position-IsCounted slot none y z o c = discard-IsCounted non_finite o c
  position-IsCounted slot (some x) none z o c = discard-IsCounted non_finite o c
  position-IsCounted slot (some x) (some y) none o c = discard-IsCounted non_finite o c

  object-IsCounted :
      (slot : ℤ) (p : Option PlayerObjectData) (o : Occupancy)
      → IsCounted 1 o
      → IsCounted 0 (observe_object C slot p o)
  unfolding observe_object
  object-IsCounted slot none o c = discard-IsCounted missing_player_object o c
  object-IsCounted slot (some p) o c =
      elim (Bool-cases (not p.x.present || (not p.y.present || not p.z.present))) [
        | inl missing ↦ rw missing (discard-IsCounted missing_coordinate o c)
        | inr here ↦ rw here (
            position-IsCounted slot (spatial_coordinate C p.x.value)
              (spatial_coordinate C p.y.value) (spatial_coordinate C p.z.value) o c)
      ]

  slot-IsCounted :
      (slot : Option ℤ) (p : Player) (o : Occupancy)
      → IsCounted 1 o
      → IsCounted 0 (observe_slot C slot p o)
  unfolding observe_slot
  slot-IsCounted none p o c = discard-IsCounted invalid_slot o c
  slot-IsCounted (some slot) p o c = elim (Bool-cases (is_true C p.is_hostman)) [
    | inl host ↦ rw host (discard-IsCounted hostman o c)
    | inr player ↦ rw player (object-IsCounted slot p.player_object_data o c)
  ]

  -- While fewer samples than the largest counter have come, the discarded ones and those in cells
  -- are all samples seen, and those of the slots are those in cells; the cells counted for each
  -- slot are the slot's cells; no slot has more than 50000 cells and there are no more than 200000
  -- in all. Where this holds before `observe` of any player, it holds afterwards.
  pub observe-IsCounted : (p : Player) (o : Occupancy) → IsCounted 0 o → IsCounted 0 (observe C p o)
  unfolding observe bounded_add
  observe-IsCounted p o c =
      slot-IsCounted (spatial_slot C p.player_index) p
        (record o { samples_seen = bounded_add o.samples_seen 1 })
        (record {
          accounted = λ h. let a = c.accounted (omega (arith, h)) in (omega (arith, h, a), a.1);
          per_slot = c.per_slot;
          slot_limit = c.slot_limit;
          few_cells = c.few_cells;
        })
