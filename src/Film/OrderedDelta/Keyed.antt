-- ===== src/Film/OrderedDelta/Keyed.antt =====
-- Values whose objects have no key twice, with keys that are bytes: what serde_json's maps and
-- strings promise, and what ordered_delta.rs relies on.
use halospawns_infra.Prelude.{
  ◌≡◌, refl, ap, Bool, true, false, ◌||◌, Option, none, some, inl, inr, Bool-cases,
}
use halospawns_infra.Delta.Codes.{Text}
use halospawns_infra.Delta.Writer.{text_eq}
use halospawns_infra.Delta.Wire.{text_eq_sound, text_eq_refl}
use halospawns_infra.Delta.Value.{
  Value, null, bool, number, string, array, object, Items, nil, cons, Fields, end, field, field_at,
  has_key,
}
use halospawns_infra.Film.TextEqual.{equal}
use halospawns_infra.Film.TextEqual.Sound.{AllBytes, equal_lem}

unfoldable mutual
  pub Keyed : Value → Type 0
  Keyed null = Unit
  Keyed (bool b) = Unit
  Keyed (number n) = Unit
  Keyed (string s) = Unit
  Keyed (array vs) = ItemsKeyed vs
  Keyed (object fs) = FieldsKeyed fs

  pub ItemsKeyed : Items → Type 0
  ItemsKeyed nil = Unit
  ItemsKeyed (cons v vs) = Keyed v × ItemsKeyed vs

  pub FieldsKeyed : Fields → Type 0
  FieldsKeyed end = Unit
  FieldsKeyed (field k v fs) = AllBytes k × ((has_key fs k ≡ false) × (Keyed v × FieldsKeyed fs))

pub equal-text_eq : (a b : Text) → AllBytes a → AllBytes b → equal a b ≡ text_eq a b
equal-text_eq a b ha hb = elim (Bool-cases (equal a b)) [
  | inl e ↦ (let same : a ≡ b = (equal_lem a b ha hb).0 e in rw (e, same, text_eq_refl b) refl)
  | inr e ↦ elim (Bool-cases (text_eq a b)) [
    | inl t ↦ absurd_same (rw ((equal_lem a b ha hb).1 (text_eq_sound a b t)) at e)
    | inr t ↦ rw (e, t) refl
  ]
]
  where
    absurd_same : {A : Type 0} → ◌≡◌ {A = Bool} true false → A
    absurd_same h = cc

or_false : (a b : Bool) → (a || b) ≡ false → (a ≡ false) × (b ≡ false)
or_false true b h = cc
or_false false b h = (refl, h)

text_eq_differ : (a b : Text) → text_eq a b ≡ false → text_eq b a ≡ false
text_eq_differ a b h = elim (Bool-cases (text_eq b a)) [
  | inl t ↦ absurd_same (rw (text_eq_sound b a t, text_eq_refl a) at h)
  | inr t ↦ t
]
  where
    absurd_same : {A : Type 0} → ◌≡◌ {A = Bool} true false → A
    absurd_same h = cc

-- The value of a key that is there.
pub Keyed-field_at :
    (fs : Fields) (k : Text) (v : Value) → FieldsKeyed fs → field_at fs k ≡ some v → Keyed v
unfolding FieldsKeyed field_at
Keyed-field_at end k v h e = cc
Keyed-field_at (field j w fs) k v (hb, (hn, (hw, hf))) e = elim (Bool-cases (text_eq j k)) [
  | inl t ↦ (let same : w ≡ v = some_same w v (rw (field_at, t) at e) in rw (← same) hw)
  | inr t ↦ Keyed-field_at fs k v hf (rw (field_at, t) at e)
]
  where
    some_same : (a b : Value) → ◌≡◌ {A = Option Value} (some a) (some b) → a ≡ b
    some_same a b h = ap (λ (o : Option Value). elim o [ none ↦ a | some x ↦ x ]) h

-- The fields of an object are found in a larger one.
unfoldable pub Found : Fields → Fields → Type 0
Found whole end = Unit
Found whole (field k v fs) = (field_at whole k ≡ some v) × Found whole fs

Found-weaken :
    (j : Text) (w : Value) (whole fs : Fields)
    → has_key fs j ≡ false
    → Found whole fs
    → Found (field j w whole) fs
unfolding Found has_key field_at
Found-weaken j w whole end h f = tt
Found-weaken j w whole (field k v fs) h (e, f) =
    let (other, more) = or_false (text_eq k j) (has_key fs j) h in
    (rw (text_eq_differ k j other) e, Found-weaken j w whole fs more f)

pub Found-refl : (fs : Fields) → FieldsKeyed fs → Found fs fs
unfolding Found FieldsKeyed field_at
Found-refl end h = tt
Found-refl (field k v fs) (hb, (hn, (hv, h))) =
    (rw (text_eq_refl k) refl, Found-weaken k v fs fs hn (Found-refl fs h))
