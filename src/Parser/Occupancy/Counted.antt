-- ===== src/Parser/Occupancy/Counted.antt =====
-- The counts of `Occupancy` of main.rs, over what `observe` does with one cell.
use halospawns_infra.Prelude.{
  ℕ, suc, ◌+◌, ◌≤◌, ◌<◌, ◌≡◌, ◌≢◌, refl, sym, ap, ◌∙◌, min, Bool, true, false, none, length, arith,
  Bool-cases, Option-cases, inl, inr, ==_iff, if◌then◌else◌,
}
use halospawns_infra.Prelude.Int.{ℤ, pos, negsuc}
use halospawns_infra.Prelude.OrderedMap.{Order, BTreeMap, get, get_or, insert, contains_key}
use halospawns_infra.Prelude.OrderedMap.Laws.{
  IsExact, pair_order-IsExact, get-insert, length-insert, insert_new, count, count-place,
  count-replace,
}
use halospawns_infra.Prelude.OrderedMap.Totals.{total, total-insert, get-le-total}
use halospawns_infra.Delta.Codes.{Text}
use halospawns_infra.Film.Combat.Lineage.{text_order-IsExact}
use halospawns_infra.Parser.Occupancy.{
  same_int, int_order, CellKey, cell_order, Occupancy, new, bounded_add, count_one, discard,
  add_observation, add_cell, max_counter, max_cells_per_slot, max_cells_total,
}

same_int_sound : (a b : ℤ) → same_int a b ≡ true → a ≡ b
unfolding same_int
same_int_sound (pos a) (pos b) e = ap pos ((==_iff a b).0 e)
same_int_sound (pos a) (negsuc b) e = cc
same_int_sound (negsuc a) (pos b) e = cc
same_int_sound (negsuc a) (negsuc b) e = ap negsuc ((==_iff a b).0 e)

same_int_refl : (a : ℤ) → same_int a a ≡ true
unfolding same_int
same_int_refl (pos a) = (==_iff a a).1 refl
same_int_refl (negsuc a) = (==_iff a a).1 refl

int_order-IsExact : IsExact int_order
int_order-IsExact = record { same_sound = same_int_sound; same_refl = same_int_refl }

cell_order-IsExact : IsExact cell_order
cell_order-IsExact =
    pair_order-IsExact int_order-IsExact (
      pair_order-IsExact int_order-IsExact (pair_order-IsExact int_order-IsExact int_order-IsExact))

-- A count below the limit goes up by one.
total-count_one :
    {K : Type 0} {o : Order K} (exact : IsExact o) (k : K) (m : BTreeMap K ℕ)
    → total m < max_counter
    → total (count_one o k m) ≡ suc (total m)
unfolding count_one bounded_add
total-count_one {o = o} exact k m small =
    let old = get_or (get o k m) 0 in
    omega (
      arith,
      total-insert exact k (min (min (old + 1) 18446744073709551615) max_counter) m,
      get-le-total exact k m,
    )

abbrev is_of : ℤ → CellKey × ℕ → Bool
is_of s e = same_int e.0.0 s

-- The cells that a slot was seen in.
unfoldable pub cells_of : ℤ → BTreeMap CellKey ℕ → ℕ
cells_of s = count cell_order (is_of s)

pub absent_cell :
    (key : CellKey) (cells : BTreeMap CellKey ℕ)
    → contains_key cell_order key cells ≡ false
    → get cell_order key cells ≡ none
absent_cell key cells e = ground arith

absent_known :
    (key : CellKey) (cells : BTreeMap CellKey ℕ)
    → get cell_order key cells ≡ none
    → contains_key cell_order key cells ≢ true
absent_known key cells absent e = ground arith

cells_of-known :
    (s : ℤ) (key : CellKey) (cells : BTreeMap CellKey ℕ)
    → contains_key cell_order key cells ≡ true
    → cells_of s (count_one cell_order key cells) ≡ cells_of s cells
unfolding cells_of count_one insert
cells_of-known s key cells e = elim (Option-cases (get cell_order key cells)) [
  | inl absent ↦ absurd (absent_known key cells absent e)
  | inr (old, found) ↦ rw found (
      let c =
        count-replace cell_order (is_of s) cell_order-IsExact key (bounded_add old 1) old cells
          found in
      omega (arith, c))
]

cells_of-new :
    (s : ℤ) (key : CellKey) (cells : BTreeMap CellKey ℕ)
    → get cell_order key cells ≡ none
    → cells_of s (count_one cell_order key cells)
      ≡ (if same_int key.0 s then 1 else 0) + cells_of s cells
unfolding cells_of count_one
cells_of-new s key cells e =
    rw (insert_new cell_order key (bounded_add (get_or (get cell_order key cells) 0) 1) cells e) (
      count-place cell_order (is_of s) key (bounded_add (get_or (get cell_order key cells) 0) 1)
        cells)

abbrev pub slot_cells : ℤ → Occupancy → ℕ
slot_cells s o = get_or (get int_order s o.cell_counts_by_slot) 0

-- `owed` samples are seen and not yet counted.
pub record IsCounted (owed : ℕ) (o : Occupancy) : Type 0 where
  pub accounted :
      o.samples_seen < max_counter
      → (total o.discarded + total o.observations_by_slot + owed ≡ o.samples_seen)
        × (total o.cells ≡ total o.observations_by_slot)
  pub per_slot : (s : ℤ) → slot_cells s o ≡ cells_of s o.cells
  pub slot_limit : (s : ℤ) → slot_cells s o ≤ max_cells_per_slot
  pub few_cells : length o.cells ≤ max_cells_total

pub new-IsCounted : IsCounted 0 new
unfolding total get cells_of count
new-IsCounted = record {
  accounted = λ h. (omega arith, refl);
  per_slot = λ s. refl;
  slot_limit = λ s. omega arith;
  few_cells = omega arith;
}

pub discard-IsCounted :
    (reason : Text) (o : Occupancy) → IsCounted 1 o → IsCounted 0 (discard reason o)
unfolding discard
discard-IsCounted reason o c = record {
  accounted = λ h.
      let a = c.accounted h in
      (
        omega (arith, a, total-count_one text_order-IsExact reason o.discarded (omega (arith, a))),
        a.1,
      );
  per_slot = c.per_slot;
  slot_limit = c.slot_limit;
  few_cells = c.few_cells;
}

counts-observed :
    (key : CellKey) (o : Occupancy)
    → IsCounted 1 o
    → o.samples_seen < max_counter
    → (total o.discarded + total (count_one int_order key.0 o.observations_by_slot) + 0
        ≡ o.samples_seen)
      × (total (count_one cell_order key o.cells)
          ≡ total (count_one int_order key.0 o.observations_by_slot))
counts-observed key o c h =
    let a = c.accounted h in
    let seen = total-count_one int_order-IsExact key.0 o.observations_by_slot (omega (arith, a)) in
    let cell = total-count_one cell_order-IsExact key o.cells (omega (arith, a)) in
    (omega (arith, a, seen), omega (arith, a, seen, cell))

length-count_one :
    (key : CellKey) (cells : BTreeMap CellKey ℕ)
    → length (count_one cell_order key cells)
      ≡ (if contains_key cell_order key cells then length cells else suc (length cells))
unfolding count_one
length-count_one key cells = length-insert cell_order key _ cells

pub known-IsCounted :
    (key : CellKey) (o : Occupancy)
    → contains_key cell_order key o.cells ≡ true
    → IsCounted 1 o
    → IsCounted 0 (add_observation key o)
unfolding add_observation
known-IsCounted key o e c = record {
  accounted = counts-observed key o c;
  per_slot = λ s. c.per_slot s ∙ sym (cells_of-known s key o.cells e);
  slot_limit = c.slot_limit;
  few_cells = rw (length-count_one key o.cells, e) c.few_cells;
}

slot_cells-add_cell :
    (s : ℤ) (key : CellKey) (o : Occupancy)
    → slot_cells s (add_observation key (add_cell key o))
      ≡ (if same_int key.0 s then slot_cells key.0 o + 1 else slot_cells s o)
unfolding add_observation add_cell
slot_cells-add_cell s key o =
    rw (get-insert int_order-IsExact s key.0 (slot_cells key.0 o + 1) o.cell_counts_by_slot)
      (ground arith)

one_more :
    (s : ℤ) (key : CellKey) (o : Occupancy)
    → IsCounted 1 o
    → (if same_int key.0 s then slot_cells key.0 o + 1 else slot_cells s o)
      ≡ (if same_int key.0 s then 1 else 0) + cells_of s o.cells
one_more s key o c = elim (Bool-cases (same_int key.0 s)) [
  | inl e ↦ rw e (rw (same_int_sound key.0 s e) (omega (arith, c.per_slot s)))
  | inr e ↦ rw e (omega (arith, c.per_slot s))
]

pub new_cell-IsCounted :
    (key : CellKey) (o : Occupancy)
    → get cell_order key o.cells ≡ none
    → slot_cells key.0 o < max_cells_per_slot
    → length o.cells < max_cells_total
    → IsCounted 1 o
    → IsCounted 0 (add_observation key (add_cell key o))
unfolding add_observation add_cell
new_cell-IsCounted key o e room few c = record {
  accounted = counts-observed key o c;
  per_slot =
      λ s. slot_cells-add_cell s key o ∙ one_more s key o c ∙ sym (cells_of-new s key o.cells e);
  slot_limit = λ s. rw (slot_cells-add_cell s key o) (ground (arith, c.slot_limit s));
  few_cells = rw (length-count_one key o.cells, e) (omega arith);
}
