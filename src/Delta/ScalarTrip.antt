-- ===== src/Delta/ScalarTrip.antt =====
-- A null, a truth value, a number or a text that `write_delta` wrote after any other value.
use halospawns_infra.Prelude.{
  ℕ, suc, ◌≤◌, ◌≡◌, refl, ap, sym, Bool, true, false, Option, none, some, List, ==_iff, arith,
  Bool-cases, inl, inr,
}
use halospawns_infra.Delta.Codes.{delta_same as same_tag, delta_replace}
use halospawns_infra.Delta.Floats.{Floats, Lawful, IsF64}
use halospawns_infra.Delta.Value.{
  Value, null, bool, number, string, array, object, number_of, items_of, fields_of, depth, IsJson,
}
use halospawns_infra.Delta.Same.{bool_eq, is_null, is_bool, is_text, same, delta_same}
use halospawns_infra.Delta.Writer
use halospawns_infra.Delta.Writer.{Write}
use halospawns_infra.Delta.Sync.{Reads, Reads-bind, Reads-bind_done, Reads-pure}
use halospawns_infra.Delta.Wire.{text_eq_sound}
use halospawns_infra.Delta.Values.{Reads-byte, read_back}
use halospawns_infra.Delta.Write.{write_value}
use halospawns_infra.Delta.WriteDelta.{write_number_or_replace, write_replace, write_delta}
use halospawns_infra.Delta.ReadDelta.{patch_tagged, read_patched}
use halospawns_infra.Delta.NumberTrip.{Reads-number_delta}

-- The value has no parts.
unfoldable pub IsScalar : Value → Type 0
IsScalar null = Unit
IsScalar (bool b) = Unit
IsScalar (number v) = Unit
IsScalar (string s) = Unit
IsScalar (array vs) = ⊥
IsScalar (object fs) = ⊥

is_null_sound : (n : Value) → is_null n ≡ true → null ≡ n
unfolding is_null
is_null_sound null e = refl
is_null_sound (bool b) e = cc
is_null_sound (number v) e = cc
is_null_sound (string s) e = cc
is_null_sound (array vs) e = cc
is_null_sound (object fs) e = cc

bool_eq_sound : (a b : Bool) → bool_eq a b ≡ true → a ≡ b
unfolding bool_eq
bool_eq_sound true b e = sym e
bool_eq_sound false true e = cc
bool_eq_sound false false e = refl

is_bool_sound : (a : Bool) (n : Value) → is_bool a n ≡ true → bool a ≡ n
unfolding is_bool
is_bool_sound a (bool b) e = ap bool (bool_eq_sound a b e)
is_bool_sound a null e = cc
is_bool_sound a (number v) e = cc
is_bool_sound a (string s) e = cc
is_bool_sound a (array vs) e = cc
is_bool_sound a (object fs) e = cc

is_text_sound : (a : List ℕ) (n : Value) → is_text a n ≡ true → string a ≡ n
unfolding is_text
is_text_sound a (string s) e = ap string (text_eq_sound a s e)
is_text_sound a null e = cc
is_text_sound a (bool b) e = cc
is_text_sound a (number v) e = cc
is_text_sound a (array vs) e = cc
is_text_sound a (object fs) e = cc

number_sound : (a : ℕ) (n : Value) → same (number a) n ≡ true → number a ≡ n
unfolding same number_of
number_sound a (number v) e = ap number ((==_iff a v).0 e)
number_sound a null e = cc
number_sound a (bool b) e = cc
number_sound a (string s) e = cc
number_sound a (array vs) e = cc
number_sound a (object fs) e = cc

array_sound : (ps : _) (n : Value) → IsScalar n → same (array ps) n ≡ true → array ps ≡ n
unfolding same items_of IsScalar
array_sound ps (array vs) s e = absurd s
array_sound ps (object fs) s e = absurd s
array_sound ps null s e = cc
array_sound ps (bool b) s e = cc
array_sound ps (number v) s e = cc
array_sound ps (string t) s e = cc

object_sound : (ps : _) (n : Value) → IsScalar n → same (object ps) n ≡ true → object ps ≡ n
unfolding same fields_of IsScalar
object_sound ps (array vs) s e = absurd s
object_sound ps (object fs) s e = absurd s
object_sound ps null s e = cc
object_sound ps (bool b) s e = cc
object_sound ps (number v) s e = cc
object_sound ps (string t) s e = cc

-- A value that `delta_same` takes for a value without parts is that value.
same_sound : (p n : Value) → IsScalar n → same p n ≡ true → p ≡ n
unfolding same
same_sound null n s e = is_null_sound n e
same_sound (bool a) n s e = is_bool_sound a n e
same_sound (number a) n s e = number_sound a n e
same_sound (string a) n s e = is_text_sound a n e
same_sound (array ps) n s e = array_sound ps n s e
same_sound (object ps) n s e = object_sound ps n s e

delta_same_sound :
    (previous : Option Value) (n : Value)
    → IsScalar n
    → delta_same previous n ≡ true
    → previous ≡ some n
unfolding delta_same
delta_same_sound none n s e = cc
delta_same_sound (some p) n s e = ap some (same_sound p n s e)

module _ (F : Floats) (L : Lawful F) (is_utf8 : List ℕ → Bool) (levels : ℕ)
    (previous before : Option Value) where
  pub Reads-same :
      (n : Value)
      → previous ≡ some n
      → Reads
          (Writer.byte same_tag)
          (read_patched F is_utf8 (suc levels) previous before)
          (λ a. a ≡ n)
  unfolding read_patched
  Reads-same n e =
      Reads-bind_done _ _ _ (Reads-byte same_tag)
        λ t et. rw (et, e) (unfold patch_tagged in Reads-pure n refl)

  pub Reads-replaced :
      (n : Value)
      → IsJson is_utf8 n
      → depth n ≤ suc levels
      → Reads
          (Writer.◌>>◌ (Writer.byte delta_replace) (write_value F n))
          (read_patched F is_utf8 (suc levels) previous before)
          (λ a. a ≡ n)
  unfolding read_patched
  Reads-replaced n json deep =
      Reads-bind _ _ _ _ (Reads-byte delta_replace)
        λ t et. rw et (unfold patch_tagged in read_back F L is_utf8 (suc levels) n json deep)

  Reads-replace :
      (n : Value)
      → IsScalar n
      → IsJson is_utf8 n
      → depth n ≤ suc levels
      → Reads
          (write_replace F previous n)
          (read_patched F is_utf8 (suc levels) previous before)
          (λ a. a ≡ n)
  unfolding write_replace
  Reads-replace n scalar json deep = elim (Bool-cases (delta_same previous n)) [
    | inl e ↦ rw e (Reads-same n (delta_same_sound previous n scalar e))
    | inr e ↦ rw e (Reads-replaced n json deep)
  ]

module _ (F : Floats) (L : Lawful F) (is_utf8 : List ℕ → Bool) (levels : ℕ)
    (before : Option Value) where
  Reads-replaced_number :
      (previous : Option Value) (n : ℕ)
      → IsJson is_utf8 (number n)
      → Reads
          (Writer.◌>>◌ (Writer.byte delta_replace) (write_value F (number n)))
          (read_patched F is_utf8 (suc levels) previous before)
          (λ a. a ≡ number n)
  unfolding depth
  Reads-replaced_number previous n json =
      Reads-replaced F L is_utf8 levels previous before (number n) json (omega arith)

  Reads-number_or_replace :
      (previous : Option Value) (n : ℕ)
      → IsJson is_utf8 (number n)
      → ((p : ℕ) → previous ≡ some (number p) → IsF64 p)
      → Reads
          (write_number_or_replace F previous n before)
          (read_patched F is_utf8 (suc levels) previous before)
          (λ a. a ≡ number n)
  unfolding write_number_or_replace number_of IsJson
  Reads-number_or_replace (some (number p)) n (hn, fin) bits =
      Reads-number_delta F L is_utf8 levels p n before (bits p refl) hn fin
  Reads-number_or_replace none n json bits = Reads-replaced_number none n json
  Reads-number_or_replace (some null) n json bits = Reads-replaced_number (some null) n json
  Reads-number_or_replace (some (bool b)) n json bits = Reads-replaced_number (some (bool b)) n json
  Reads-number_or_replace (some (string s)) n json bits =
      Reads-replaced_number (some (string s)) n json
  Reads-number_or_replace (some (array vs)) n json bits =
      Reads-replaced_number (some (array vs)) n json
  Reads-number_or_replace (some (object fs)) n json bits =
      Reads-replaced_number (some (object fs)) n json

module _ (F : Floats) (L : Lawful F) (is_utf8 : List ℕ → Bool) (levels : ℕ)
    (previous before : Option Value) where
  -- If a value without parts is JSON, and the value before it has 64 bits if it is a number, then
  -- whenever `write_delta` succeeds, `read_patched_value` takes exactly its bytes and gives the
  -- value, whatever the value before was.
  pub Reads-scalar_delta :
      (n : Value)
      → IsScalar n
      → IsJson is_utf8 n
      → ((p : ℕ) → previous ≡ some (number p) → IsF64 p)
      → Reads
          (write_delta F previous n before)
          (read_patched F is_utf8 (suc levels) previous before)
          (λ a. a ≡ n)
  unfolding write_delta depth IsScalar
  Reads-scalar_delta null scalar json bits =
      Reads-replace F L is_utf8 levels previous before null tt json (omega arith)
  Reads-scalar_delta (bool b) scalar json bits =
      Reads-replace F L is_utf8 levels previous before (bool b) tt json (omega arith)
  Reads-scalar_delta (string s) scalar json bits =
      Reads-replace F L is_utf8 levels previous before (string s) tt json (omega arith)
  Reads-scalar_delta (array vs) scalar json bits = absurd scalar
  Reads-scalar_delta (object fs) scalar json bits = absurd scalar
  Reads-scalar_delta (number n) scalar json bits =
      elim (Bool-cases (delta_same previous (number n))) [
        | inl e ↦ rw e (
            Reads-same F L is_utf8 levels previous before (number n)
              (delta_same_sound previous (number n) tt e))
        | inr e ↦ rw e (Reads-number_or_replace F L is_utf8 levels before previous n json bits)
      ]
