-- ===== src/Film/OrderedDelta.antt =====
-- lambda/h1_film/encoder/src/ordered_delta.rs: deltas of values whose objects mostly have their keys in
-- one order.
pub mod Marks
pub mod Keyed
pub mod Alike
pub mod Steps
pub mod Equal
use halospawns_infra.Prelude.{
  ℕ, zero, suc, ◌+◌, ◌*◌, ◌/◌, ◌%◌, ◌^◌, Bool, true, false, ◌&&◌, ◌||◌, not, Option, none, some,
  List, [], ◌∷◌, length, bit_and, bit_or, ltb, leb, ◌==◌, if◌then◌else◌,
}
use halospawns_infra.Delta.Codes.{Text, delta_same, delta_object, delta_array, delta_dense_array}
use halospawns_infra.Delta.Floats.{Floats}
use halospawns_infra.Delta.Value.{
  Value, null, bool, number, string, array, object, Items, nil, cons, Fields, end, field, items_of,
  fields_of, and_then, length_items, length_fields, item_at, field_at,
}
use halospawns_infra.Delta.Same.{same as same_scalar}
use halospawns_infra.Delta.Writer
use halospawns_infra.Delta.Writer.{Write, ◌>>◌, done, byte, varuint}
use halospawns_infra.Delta.FloatArray.{exact_numbers}
use halospawns_infra.Delta.WriteDelta.{write_delta}
use halospawns_infra.Film.TextEqual.{equal}
use halospawns_infra.Film.FloatDelta

-- fn same; `b` is the whole object that the values of other keys are taken from. The last branch,
-- `same_scalar`, is reached with values that are not both objects or both arrays.
unfoldable mutual
  pub same : Value → Value → Bool
  same (object as_fields) next = elim (fields_of next) [
    | none ↦ same_scalar (object as_fields) next
    | some b ↦ (length_fields as_fields == length_fields b) && fields_same b as_fields b
  ]
  same (array as_items) next = elim (items_of next) [
    | none ↦ same_scalar (array as_items) next
    | some b ↦ (length_items as_items == length_items b) && items_same as_items b
  ]
  same null next = same_scalar null next
  same (bool x) next = same_scalar (bool x) next
  same (number x) next = same_scalar (number x) next
  same (string x) next = same_scalar (string x) next

  pub items_same : Items → Items → Bool
  items_same nil bs = true
  items_same (cons a qs) nil = true
  items_same (cons a qs) (cons b bs) = same a b && items_same qs bs

  pub fields_same : Fields → Fields → Fields → Bool
  fields_same whole end bs = true
  fields_same whole (field key a qs) end = true
  fields_same whole (field key a qs) (field other b bs) =
      (if equal key other
        then same a b
        else (elim (field_at whole key) [ none ↦ false | some w ↦ same a w ]))
      && fields_same whole qs bs

-- `previous.is_some_and(|previous| same(previous, next))`
unfoldable pub is_same : Option Value → Value → Bool
is_same none next = false
is_same (some previous) next = same previous next

-- `a.keys().zip(b.keys()).all(..)`
unfoldable pub keys_equal : Fields → Fields → Bool
keys_equal end bs = true
keys_equal (field key a qs) end = true
keys_equal (field key a qs) (field other b bs) = equal key other && keys_equal qs bs

-- The loop that sets a bit for each value that differs.
unfoldable pub mark : ℕ → Fields → Fields → ℕ → ℕ
mark i end bs changed = changed
mark i (field j a qs) end changed = changed
mark i (field j a qs) (field k b bs) changed =
    mark (i + 1) qs bs (if same a b then changed else bit_or changed (2 ^ i))

-- `changed & (1 << i) != 0`
unfoldable pub is_marked : ℕ → ℕ → Bool
is_marked changed i = not (bit_and changed (2 ^ i) == 0)

-- `count_ones` of a u64
unfoldable pub count_ones_loop : ℕ → ℕ → ℕ
count_ones_loop zero v = 0
count_ones_loop (suc rounds) v = v % 2 + count_ones_loop rounds (v / 2)

unfoldable pub count_ones : ℕ → ℕ
count_ones v = count_ones_loop 64 v

-- The indices of the items that differ.
unfoldable pub changed_indices : Items → ℕ → Items → List ℕ
unfolding is_same
changed_indices nil i ps = []
changed_indices (cons b bs) i ps =
    let rest = changed_indices bs (i + 1) ps in
    if not (is_same (item_at ps i) b) then i ∷ rest else rest

-- `changed.peek() == Some(&i)`, and `changed.next()`
unfoldable pub starts_with : ℕ → List ℕ → Bool
starts_with i [] = false
starts_with i (c ∷ changed) = c == i

unfoldable pub next_changed : ℕ → List ℕ → List ℕ
next_changed i [] = []
next_changed i (c ∷ changed) = if c == i then changed else c ∷ changed

abbrev pub is_some : {A : Type 0} → Option A → Bool
is_some none = false
is_some (some a) = true

module _ (F : Floats) where
  -- Both are f32 arrays of one length, and not empty.
  unfoldable pub both_exact : Items → Items → Bool
  both_exact a b =
      (length_items a == length_items b)
      && (not (length_items b == 0) && (is_some (exact_numbers F a) && is_some (exact_numbers F b)))

  abbrev pub unless_written : Option Write → Write → Write
  unless_written none rest = rest
  unless_written (some m) rest = m

  -- The fast path and the test for `DELTA_SAME`, before the rest of `write_inner`.
  unfoldable pub before_rest : Option Value → Value → Option Value → Bool → Write → Write
  before_rest previous next before changed_known rest =
      unless_written (FloatDelta.write F previous next before)
        (if not changed_known && is_same previous next then byte delta_same else rest)

  -- fn write_inner; the loops over the changed indices walk along `b`, in which they are in order.
  unfoldable mutual
    unfolding before_rest

    pub write_inner : Option Value → Value → Option Value → Bool → Write
    write_inner previous null before known =
        before_rest previous null before known (write_delta F previous null before)
    write_inner previous (bool x) before known =
        before_rest previous (bool x) before known (write_delta F previous (bool x) before)
    write_inner previous (number x) before known =
        before_rest previous (number x) before known (write_delta F previous (number x) before)
    write_inner previous (string x) before known =
        before_rest previous (string x) before known (write_delta F previous (string x) before)
    write_inner previous (object b) before known =
        before_rest previous (object b) before known (elim (and_then previous fields_of) [
          | none ↦ write_delta F previous (object b) before
          | some a ↦
              if (length_fields a == length_fields b)
                && (leb (length_fields a) 64 && keys_equal a b)
              then (do
                byte delta_object
                varuint 0
                varuint (count_ones (mark 0 a b 0))
                write_marked (mark 0 a b 0) 0 b a (and_then before fields_of))
              else write_delta F previous (object b) before
        ])
    write_inner previous (array b) before known =
        before_rest previous (array b) before known (elim (and_then previous items_of) [
          | none ↦ write_delta F previous (array b) before
          | some a ↦
              if both_exact a b
              then write_delta F previous (array b) before
              else if (length_items a == length_items b)
                  && ltb (length_items b / 2) (length (changed_indices b 0 a))
              then (do
                byte delta_dense_array
                write_dense b 0 (changed_indices b 0 a) a (and_then before items_of))
              else (do
                byte delta_array
                varuint (length_items b)
                varuint (length (changed_indices b 0 a))
                write_sparse b 0 (changed_indices b 0 a) a (and_then before items_of))
        ])

    pub write_marked : ℕ → ℕ → Fields → Fields → Option Fields → Write
    write_marked changed i end a history = done
    write_marked changed i (field key b bs) end history = done
    write_marked changed i (field key b bs) (field j a qs) history =
        let rest = write_marked changed (i + 1) bs qs history in
        if is_marked changed i
        then (do
          Writer.string key
          write_inner (some a) b (and_then history (λ h. field_at h key)) true
          rest)
        else rest

    pub write_dense : Items → ℕ → List ℕ → Items → Option Items → Write
    write_dense nil i changed a history = done
    write_dense (cons b bs) i changed a history =
        let rest = write_dense bs (i + 1) (next_changed i changed) a history in
        if starts_with i changed
        then (do write_inner (item_at a i) b (and_then history (λ h. item_at h i)) true; rest)
        else (do byte delta_same; rest)

    pub write_sparse : Items → ℕ → List ℕ → Items → Option Items → Write
    write_sparse nil i changed a history = done
    write_sparse (cons b bs) i changed a history =
        let rest = write_sparse bs (i + 1) (next_changed i changed) a history in
        if starts_with i changed
        then (do
          varuint i
          write_inner (item_at a i) b (and_then history (λ h. item_at h i)) true
          rest)
        else rest

  -- fn write
  unfoldable pub write : Option Value → Value → Option Value → Write
  unfolding write_inner
  write previous next before = write_inner previous next before false
