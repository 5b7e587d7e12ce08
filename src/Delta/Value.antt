-- ===== src/Delta/Value.antt =====
-- JSON values, as serde_json's `Value` on the writing side and `DecodedValue` on the reading side.
-- A number is the bit pattern of its f64, which is all that the codec reads of it. An object keeps
-- the order of its keys (serde_json's `preserve_order`, and `IndexMap`).
use halospawns_infra.Prelude.{
  ℕ, zero, suc, max, ◌≡◌, Bool, true, false, ◌||◌, Option, none, some, List, if◌then◌else◌,
}
use halospawns_infra.Delta.Codes.{Text}
use halospawns_infra.Delta.Writer.{text_eq}
use halospawns_infra.Delta.Floats.{IsF64, is_finite}

mutual
  pub data Value : Type 0 where
    null : Value
    bool : Bool → Value
    number : ℕ → Value
    string : Text → Value
    array : Items → Value
    object : Fields → Value

  pub data Items : Type 0 where
    nil : Items
    cons : Value → Items → Items

  pub data Fields : Type 0 where
    end : Fields
    field : Text → Value → Fields → Fields

-- fn number, as_array and as_object
unfoldable pub number_of : Value → Option ℕ
number_of (number v) = some v
number_of null = none
number_of (bool b) = none
number_of (string s) = none
number_of (array vs) = none
number_of (object fs) = none

unfoldable pub items_of : Value → Option Items
items_of (array vs) = some vs
items_of null = none
items_of (bool b) = none
items_of (number v) = none
items_of (string s) = none
items_of (object fs) = none

unfoldable pub fields_of : Value → Option Fields
fields_of (object fs) = some fs
fields_of null = none
fields_of (bool b) = none
fields_of (number v) = none
fields_of (string s) = none
fields_of (array vs) = none

-- `and_then`
abbrev pub and_then : {A B : Type 0} → Option A → (A → Option B) → Option B
and_then none f = none
and_then (some a) f = f a

-- `len`
unfoldable pub length_items : Items → ℕ
length_items nil = 0
length_items (cons v vs) = suc (length_items vs)

unfoldable pub length_fields : Fields → ℕ
length_fields end = 0
length_fields (field k v fs) = suc (length_fields fs)

-- `values.get(index)`
unfoldable pub item_at : Items → ℕ → Option Value
item_at nil i = none
item_at (cons v vs) zero = some v
item_at (cons v vs) (suc i) = item_at vs i

-- `get`, `contains_key`
unfoldable pub field_at : Fields → Text → Option Value
field_at end k = none
field_at (field j v fs) k = if text_eq j k then some v else field_at fs k

unfoldable pub has_key : Fields → Text → Bool
has_key end k = false
has_key (field j v fs) k = text_eq j k || has_key fs k

-- `IndexMap::insert`: in place if the key is there, else at the end
unfoldable pub insert : Fields → Text → Value → Fields
insert end k v = field k v end
insert (field j w fs) k v = if text_eq j k then field j v fs else field j w (insert fs k v)

-- `IndexMap::shift_remove`
unfoldable pub shift_remove : Fields → Text → Fields
shift_remove end k = end
shift_remove (field j w fs) k = if text_eq j k then fs else field j w (shift_remove fs k)

unfoldable pub append_fields : Fields → Fields → Fields
append_fields end gs = gs
append_fields (field k v fs) gs = field k v (append_fields fs gs)

-- How deep arrays and objects are nested; a scalar is 1 deep.
unfoldable mutual
  pub depth : Value → ℕ
  depth null = 1
  depth (bool b) = 1
  depth (number n) = 1
  depth (string s) = 1
  depth (array vs) = suc (depth_items vs)
  depth (object fs) = suc (depth_fields fs)

  pub depth_items : Items → ℕ
  depth_items nil = 0
  depth_items (cons v vs) = max (depth v) (depth_items vs)

  pub depth_fields : Fields → ℕ
  depth_fields end = 0
  depth_fields (field k v fs) = max (depth v) (depth_fields fs)

-- What Rust's types promise of a value: an f64 that is finite (serde_json has no other), texts in
-- UTF-8, and no key twice in an object.
module _ (is_utf8 : List ℕ → Bool) where
  unfoldable mutual
    pub IsJson : Value → Type 0
    IsJson null = Unit
    IsJson (bool b) = Unit
    IsJson (number n) = IsF64 n × (is_finite n ≡ true)
    IsJson (string s) = is_utf8 s ≡ true
    IsJson (array vs) = AllJson vs
    IsJson (object fs) = FieldsJson fs

    pub AllJson : Items → Type 0
    AllJson nil = Unit
    AllJson (cons v vs) = IsJson v × AllJson vs

    pub FieldsJson : Fields → Type 0
    FieldsJson end = Unit
    FieldsJson (field k v fs) =
        (is_utf8 k ≡ true) × (has_key fs k ≡ false) × IsJson v × FieldsJson fs
