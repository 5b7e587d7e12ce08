-- ===== src/Delta/Keys.antt =====
-- Objects with distinct keys: inserting in order rebuilds them.
use halospawns_infra.Prelude.{◌≡◌, refl, ap, true, false, ◌||◌, arith}
use halospawns_infra.Delta.Codes.{Text}
use halospawns_infra.Delta.Wire.{text_eq_sound, text_eq_refl}
use halospawns_infra.Delta.Value.{Value, Fields, end, field, has_key, insert, append_fields}

-- No key of `acc` is one of `fs`.
abbrev pub Fresh : Fields → Fields → Type 0
Fresh acc fs = (k : Text) → has_key acc k ≡ true → has_key fs k ≡ false

pub append_fields_assoc :
    (a b c : Fields) → append_fields (append_fields a b) c ≡ append_fields a (append_fields b c)
unfolding append_fields
append_fields_assoc end b c = refl
append_fields_assoc (field k v a) b c = ap (λ t. field k v t) (append_fields_assoc a b c)

pub append_fields-end : (a : Fields) → append_fields a end ≡ a
unfolding append_fields
append_fields-end end = refl
append_fields-end (field k v a) = ap (λ t. field k v t) (append_fields-end a)

pub has_key-append :
    (a b : Fields) (k : Text) → has_key (append_fields a b) k ≡ (has_key a k || has_key b k)
unfolding has_key append_fields
has_key-append end b k = refl
has_key-append (field j v a) b k = ground (arith, has_key-append a b k)

pub insert-fresh :
    (acc : Fields) (k : Text) (v : Value)
    → has_key acc k ≡ false
    → insert acc k v ≡ append_fields acc (field k v end)
unfolding has_key insert append_fields
insert-fresh end k v h = refl
insert-fresh (field j w acc) k v h = ground (arith, insert-fresh acc k v)

pub Fresh-end : (fs : Fields) → Fresh end fs
unfolding has_key
Fresh-end fs k h = cc

pub Fresh-head :
    (acc fs : Fields) (k : Text) (v : Value) → Fresh acc (field k v fs) → has_key acc k ≡ false
unfolding has_key
Fresh-head acc fs k v fresh = ground (arith, fresh k, text_eq_refl k)

pub Fresh-tail :
    (acc fs : Fields) (k : Text) (v : Value)
    → Fresh acc (field k v fs)
    → has_key fs k ≡ false
    → Fresh (append_fields acc (field k v end)) fs
unfolding has_key
Fresh-tail acc fs k v fresh alone j h =
    ground (arith, has_key-append acc (field k v end) j, fresh j, text_eq_sound k j)
