-- ===== src/Film/OrderedDelta/Steps.antt =====
-- The parts of `write_inner` of ordered_delta.rs against those of `write_delta` of viewer.rs: which
-- values have changed, and how many.
use halospawns_infra.Prelude.{
  ℕ, zero, suc, ◌+◌, ◌<◌, ◌≡◌, refl, sym, ap, ◌∙◌, Bool, true, false, ◌&&◌, Option, none, some, inl,
  inr, List, [], length, ◌==◌, arith, Bool-cases,
}
use halospawns_infra.Delta.Codes.{Text, delta_same}
use halospawns_infra.Delta.Floats.{Floats}
use halospawns_infra.Prelude.Results.{Result, ok, err}
use halospawns_infra.Delta.Error.{Error}
use halospawns_infra.Delta.Writer.{Write, ◌>>◌, Table, append_out, done, byte, text_eq}
use halospawns_infra.Delta.Wire.{text_eq_sound}
use halospawns_infra.Delta.Value.{
  Value, null, bool, number, string, array, object, Items, nil, cons, Fields, end, field,
  length_fields, field_at, has_key, item_at, items_of, fields_of, and_then,
}
use halospawns_infra.Delta.Same
use halospawns_infra.Delta.WriteDelta.{
  write_delta, write_replace, count_changed, count_changes, count_deletions, write_deletions,
}
use halospawns_infra.Film.TextEqual.{equal}
use halospawns_infra.Film.OrderedDelta.{
  same, is_same, keys_equal, changed_indices, starts_with, next_changed,
}
use halospawns_infra.Film.OrderedDelta.Keyed.{Keyed, ItemsKeyed, FieldsKeyed, Found, equal-text_eq}
use halospawns_infra.Film.OrderedDelta.Alike.{same_both}
use halospawns_infra.Film.OrderedDelta.Marks.{count_different}

abbrev pub KeyedOption : Option Value → Type 0
KeyedOption none = Unit
KeyedOption (some v) = Keyed v

pub is_same_both :
    (previous : Option Value) (next : Value)
    → KeyedOption previous
    → Keyed next
    → is_same previous next ≡ Same.delta_same previous next
unfolding is_same Same.delta_same
is_same_both none next kp kn = refl
is_same_both (some p) next kp kn = same_both p next kp kn

-- A value that has not changed is one byte.
pub write_delta-same :
    (F : Floats) (previous : Option Value) (next : Value) (before : Option Value)
    → Same.delta_same previous next ≡ true
    → write_delta F previous next before ≡ byte delta_same
unfolding write_delta write_replace
write_delta-same F previous null before e = rw e refl
write_delta-same F previous (bool b) before e = rw e refl
write_delta-same F previous (number n) before e = rw e refl
write_delta-same F previous (string s) before e = rw e refl
write_delta-same F previous (array vs) before e = rw e refl
write_delta-same F previous (object fs) before e = rw e refl

pub Keyed-item_at : (ps : Items) (i : ℕ) → ItemsKeyed ps → KeyedOption (item_at ps i)
unfolding item_at ItemsKeyed
Keyed-item_at nil i h = tt
Keyed-item_at (cons p ps) zero (h, hs) = h
Keyed-item_at (cons p ps) (suc i) (h, hs) = Keyed-item_at ps i hs

-- The indices to come are behind the one at hand.
later_indices :
    (bs : Items) (i j : ℕ) (ps : Items)
    → i < j
    → (starts_with i (changed_indices bs j ps) ≡ false)
      × (next_changed i (changed_indices bs j ps) ≡ changed_indices bs j ps)
unfolding changed_indices starts_with next_changed
later_indices nil i j ps h = (refl, refl)
later_indices (cons b bs) i j ps h = elim (Bool-cases (is_same (item_at ps j) b)) [
  | inl e ↦ rw e (later_indices bs i (j + 1) ps (omega arith))
  | inr e ↦ (let other : (j == i) ≡ false = ground arith in rw (e, other) (refl, refl))
]

module _ (ps : Items) (i : ℕ) (b : Value) (bs : Items) where
  abbrev here : List ℕ
  here = changed_indices (cons b bs) i ps

  pub changed_here :
      is_same (item_at ps i) b ≡ false
      → (starts_with i here ≡ true) × (next_changed i here ≡ changed_indices bs (i + 1) ps)
  unfolding changed_indices starts_with next_changed
  changed_here e =
      (let same_index : (i == i) ≡ true = ground arith in rw (e, same_index) (refl, refl))

  pub kept_here :
      is_same (item_at ps i) b ≡ true
      → (starts_with i here ≡ false) × (next_changed i here ≡ changed_indices bs (i + 1) ps)
  unfolding changed_indices
  kept_here e = rw e (later_indices bs i (i + 1) ps (omega arith))

pub length-changed_indices :
    (bs : Items) (i : ℕ) (ps : Items)
    → ItemsKeyed bs
    → ItemsKeyed ps
    → length (changed_indices bs i ps) ≡ count_changed bs i ps
unfolding changed_indices count_changed ItemsKeyed
length-changed_indices nil i ps hb hp = refl
length-changed_indices (cons b bs) i ps (hb, hbs) hp =
    let rest = length-changed_indices bs (i + 1) ps hbs hp in
    let e = is_same_both (item_at ps i) b (Keyed-item_at ps i hp) hb in
    elim (Bool-cases (is_same (item_at ps i) b)) [
      | inl s ↦ rw (s, ← e, s) rest
      | inr s ↦ rw (s, ← e, s) (omega (arith, rest))
    ]

has_key-field_at :
    (fs : Fields) (k : Text) (v : Value) → field_at fs k ≡ some v → has_key fs k ≡ true
unfolding has_key field_at
has_key-field_at end k v e = cc
has_key-field_at (field j w fs) k v e = elim (Bool-cases (text_eq j k)) [
  | inl t ↦ rw t refl
  | inr t ↦ rw t (has_key-field_at fs k v (rw (field_at, t) at e))
]

-- The keys of two objects side by side.
pub data SideBySide : Fields → Fields → Type 0 where
  ends : SideBySide end end
  both :
      {k : Text} {a b : Value} {qs bs : Fields}
      → SideBySide qs bs
      → SideBySide (field k a qs) (field k b bs)

pub keys_equal-SideBySide :
    (qs bs : Fields)
    → FieldsKeyed qs
    → FieldsKeyed bs
    → length_fields qs ≡ length_fields bs
    → keys_equal qs bs ≡ true
    → SideBySide qs bs
unfolding FieldsKeyed length_fields keys_equal
keys_equal-SideBySide end end kq kb e h = ends
keys_equal-SideBySide end (field k b bs) kq kb e h = absurd (omega arith)
keys_equal-SideBySide (field j a qs) end kq kb e h = absurd (omega arith)
keys_equal-SideBySide (field j a qs) (field k b bs) (bj, (hj, (ka, kq))) (bk, (hk, (kb, kbs))) e h =
    let (first, rest) = and_true (equal j k) (keys_equal qs bs) h in
    let same_key : j ≡ k = text_eq_sound j k (sym (equal-text_eq j k bj bk) ∙ first) in
    rw same_key (both (keys_equal-SideBySide qs bs kq kbs (omega (arith, e)) rest))
  where
    and_true : (a b : Bool) → (a && b) ≡ true → (a ≡ true) × (b ≡ true)
    and_true true b h = (refl, h)
    and_true false b h = cc

-- No key is deleted.
pub no_deletions :
    {qs bs : Fields} (whole : Fields)
    → SideBySide qs bs
    → Found whole bs
    → (count_deletions qs whole ≡ 0) × (write_deletions qs whole ≡ done)
unfolding count_deletions write_deletions Found
no_deletions whole ends f = (refl, refl)
no_deletions whole (both {k} {a} {b} {qs} {bs} s) (e, f) =
    let (c, w) = no_deletions whole s f in rw (has_key-field_at whole k b e) (c, w)

-- As many values differ as `write_delta` counts.
pub count_changes-different :
    {qs bs : Fields} (whole : Fields)
    → SideBySide qs bs
    → Found whole qs
    → FieldsKeyed qs
    → FieldsKeyed bs
    → count_changes bs whole ≡ count_different qs bs
unfolding count_changes count_different Found FieldsKeyed Same.delta_same
count_changes-different whole ends f kq kb = refl
count_changes-different whole (both {k} {a} {b} {qs} {bs} s) (e, f) (bj, (hj, (ka, kq)))
      (bk, (hk, (kb, kbs))) =
    let rest = count_changes-different whole s f kq kbs in
    elim (Bool-cases (same a b)) [
      | inl t ↦ rw (e, ← same_both a b ka kb, t) (omega (arith, rest))
      | inr t ↦ rw (e, ← same_both a b ka kb, t) (omega (arith, rest))
    ]

pub side_tail :
    {j k : Text} {a b : Value} {qs bs : Fields}
    → SideBySide (field j a qs) (field k b bs)
    → (j ≡ k) × SideBySide qs bs
side_tail (both s) = (refl, s)

pub side_end : {X : Type 0} {k : Text} {b : Value} {bs : Fields} → SideBySide end (field k b bs) → X
side_end s = elim s [ ]

-- What is kept of a value is keyed.
pub Keyed-items_of :
    (o : Option Value) (a : Items) → KeyedOption o → and_then o items_of ≡ some a → ItemsKeyed a
unfolding items_of Keyed
Keyed-items_of none a k e = cc
Keyed-items_of (some null) a k e = cc
Keyed-items_of (some (bool b)) a k e = cc
Keyed-items_of (some (number n)) a k e = cc
Keyed-items_of (some (string s)) a k e = cc
Keyed-items_of (some (object fs)) a k e = cc
Keyed-items_of (some (array ps)) a k e = let same : ps ≡ a = some_same ps a e in rw (← same) k
  where
    some_same : (x y : Items) → ◌≡◌ {A = Option Items} (some x) (some y) → x ≡ y
    some_same x y h = ap (λ (o : Option Items). elim o [ none ↦ x | some z ↦ z ]) h

pub Keyed-fields_of :
    (o : Option Value) (a : Fields) → KeyedOption o → and_then o fields_of ≡ some a → FieldsKeyed a
unfolding fields_of Keyed
Keyed-fields_of none a k e = cc
Keyed-fields_of (some null) a k e = cc
Keyed-fields_of (some (bool b)) a k e = cc
Keyed-fields_of (some (number n)) a k e = cc
Keyed-fields_of (some (string s)) a k e = cc
Keyed-fields_of (some (array ps)) a k e = cc
Keyed-fields_of (some (object fs)) a k e = let same : fs ≡ a = some_same fs a e in rw (← same) k
  where
    some_same : (x y : Fields) → ◌≡◌ {A = Option Fields} (some x) (some y) → x ≡ y
    some_same x y h = ap (λ (o : Option Fields). elim o [ none ↦ x | some z ↦ z ]) h

-- Writing nothing first changes nothing.
append_nothing : (r : Result Error (List ℕ × Table)) → append_out [] r ≡ r
append_nothing (ok (out, t)) = refl
append_nothing (err e) = refl

pub done_then : (k : Write) → (done >> k) ≡ k
done_then k = λ i t. append_nothing (k t) i
