-- ===== src/Delta/Values.antt =====
-- A value that `write_value` wrote is read back by `read_value`.
use halospawns_infra.Prelude.{
  ℕ, zero, suc, ◌^◌, ◌≤◌, ◌<◌, ◌≡◌, refl, sym, inl, inr, Bool, true, false, ◌&&◌, not, List, arith,
  ltb, Bool-cases, ==_iff,
}
use halospawns_infra.Prelude.Int.{ℤ, pos, negsuc}
use halospawns_infra.Delta.Reader
use halospawns_infra.Delta.Reader.{M, ◌>>=◌, pure, byte}
use halospawns_infra.Delta.Writer
use halospawns_infra.Delta.Writer.{Write}
use halospawns_infra.Delta.Sync.{Reads, Reads-bytes, Reads-bind, Reads-bind_done, Reads-pure}
use halospawns_infra.Delta.Wire.{Reads-varuint, Reads-string}
use halospawns_infra.Delta.Floats.{
  Floats, Lawful, IsF64, is_finite, is_safe_integer, exact_f32, negative_zero,
}
use halospawns_infra.Delta.Value.{
  Value, null, bool, number, string, array, object, Items, nil, cons, Fields, end, field,
  length_items, length_fields, append_fields, depth, depth_items, depth_fields, IsJson, AllJson,
  FieldsJson,
}
use halospawns_infra.Delta.Keys.{
  Fresh, Fresh-end, Fresh-head, Fresh-tail, insert-fresh, append_fields_assoc, append_fields-end,
}
use halospawns_infra.Delta.Read.{
  from_le, decoded_number, signed_integer, read_integer, read_float32, read_float64, read_string,
  read_items, read_fields, read_array, read_object, read_tagged, read_value,
}
use halospawns_infra.Delta.Write.{
  to_le, sign_byte, unsigned_abs, write_number, write_value, write_items, write_fields,
}

pub Reads-byte : (v : ℕ) → Reads (Writer.byte v) byte (λ a. a ≡ v)
unfolding byte
Reads-byte v = Reads-bytes _ _ v refl (λ rest ss. refl)

pub from_le-to_le_four : (v : ℕ) → v < 2 ^ 32 → from_le (to_le 4 v) ≡ v
unfolding from_le to_le
from_le-to_le_four v h = omega arith

pub from_le-to_le_eight : (v : ℕ) → v < 2 ^ 64 → from_le (to_le 8 v) ≡ v
unfolding from_le to_le
from_le-to_le_eight v h = omega arith

Reads-le_four :
    (v : ℕ) → v < 2 ^ 32 → Reads (Writer.bytes (to_le 4 v)) (Reader.bytes 4) (λ a. from_le a ≡ v)
unfolding to_le Reader.bytes
Reads-le_four v h = Reads-bytes _ _ (to_le 4 v) (from_le-to_le_four v h) (λ rest ss. ground arith)

Reads-le_eight :
    (v : ℕ) → v < 2 ^ 64 → Reads (Writer.bytes (to_le 8 v)) (Reader.bytes 8) (λ a. from_le a ≡ v)
unfolding to_le Reader.bytes
Reads-le_eight v h = Reads-bytes _ _ (to_le 8 v) (from_le-to_le_eight v h) (λ rest ss. ground arith)

signed_integer-abs : (i : ℤ) → signed_integer (sign_byte i) (unsigned_abs i) ≡ i
unfolding signed_integer
signed_integer-abs (pos n) = ground arith
signed_integer-abs (negsuc n) = ground arith

pub depth-pos : (v : Value) → 1 ≤ depth v
unfolding depth
depth-pos (array vs) = omega arith
depth-pos (object fs) = omega arith
depth-pos v = omega arith

module _ (F : Floats) (L : Lawful F) (is_utf8 : List ℕ → Bool) where
  Reads-tagged :
      {P : Value → Type 0} (tag levels : ℕ) (k : Write)
      → Reads k (read_tagged F is_utf8 (read_value F is_utf8 levels) tag) P
      → Reads (Writer.◌>>◌ (Writer.byte tag) k) (read_value F is_utf8 (suc levels)) P
  unfolding read_value
  Reads-tagged tag levels k h =
      Reads-bind _ k _ (read_tagged F is_utf8 (read_value F is_utf8 levels)) (Reads-byte tag)
        (λ a e. rw e h)

  Reads-decoded :
      (v : ℕ)
      → is_finite v ≡ true
      → (w : ℕ) → w ≡ v
      → Reads Writer.done (decoded_number w) (λ a. a ≡ number v)
  unfolding decoded_number
  Reads-decoded v fin w e = rw (e, fin) (Reads-pure (number v) refl)

  -- the three forms of `write_number`
  Reads-integer :
      (v : ℕ)
      → IsF64 v
      → is_finite v ≡ true
      → is_safe_integer F v ≡ true
      → Reads
          (Writer.◌>>◌
            (Writer.byte (sign_byte (F.to_i64 v)))
            (Writer.varuint (unsigned_abs (F.to_i64 v))))
          (read_integer F is_utf8)
          (λ a. a ≡ number v)
  unfolding read_integer
  Reads-integer v bits fin safe =
      Reads-bind _ (Writer.varuint (unsigned_abs (F.to_i64 v))) _ _
        (Reads-byte (sign_byte (F.to_i64 v)))
        λ sign es.
          rw (es, sign_small (F.to_i64 v))
            (Reads-bind_done _ Reader.varuint _ (Reads-varuint (unsigned_abs (F.to_i64 v)))
              λ mag em. rw em (
                Reads-decoded v fin _
                  (rw (signed_integer-abs (F.to_i64 v)) (L.integer_back v bits safe))))
    where
      sign_small : (i : ℤ) → ltb 1 (sign_byte i) ≡ false
      sign_small (pos n) = refl
      sign_small (negsuc n) = refl

  Reads-float32 :
      (v : ℕ)
      → is_finite v ≡ true
      → exact_f32 F v ≡ true
      → Reads (Writer.bytes (to_le 4 (F.narrow v))) (read_float32 F is_utf8) (λ a. a ≡ number v)
  unfolding read_float32 exact_f32
  Reads-float32 v fin exact =
      Reads-bind_done _ _ _ (Reads-le_four (F.narrow v) (L.narrow_lt v))
        λ a e. Reads-decoded v fin _ (rw e ((==_iff _ v).0 exact))

  Reads-float64 :
      (v : ℕ)
      → IsF64 v
      → is_finite v ≡ true
      → Reads (Writer.bytes (to_le 8 v)) (read_float64 F is_utf8) (λ a. a ≡ number v)
  unfolding read_float64
  Reads-float64 v bits fin =
      Reads-bind_done _ _ _ (Reads-le_eight v bits) λ a e. Reads-decoded v fin _ e

  Reads-number :
      (levels v : ℕ)
      → IsF64 v
      → is_finite v ≡ true
      → Reads (write_number F v) (read_value F is_utf8 (suc levels)) (λ a. a ≡ number v)
  unfolding write_number read_tagged
  Reads-number levels v bits fin = elim (Bool-cases (is_safe_integer F v)) [
    | inl safe ↦ rw (fin, safe) (Reads-tagged 3 levels _ (Reads-integer v bits fin safe))
    | inr other ↦ elim (Bool-cases (exact_f32 F v && not (negative_zero v))) [
      | inl exact ↦
          rw (fin, other, exact) (Reads-tagged 4 levels _ (Reads-float32 v fin (ground arith)))
      | inr rest ↦ rw (fin, other, rest) (Reads-tagged 5 levels _ (Reads-float64 v bits fin))
    ]
  ]

  mutual
    unfolding write_value read_tagged read_value read_string read_items read_fields read_array
        read_object IsJson depth length_items length_fields append_fields

    pub read_back :
        (levels : ℕ) (v : Value)
        → IsJson is_utf8 v
        → depth v ≤ levels
        → Reads (write_value F v) (read_value F is_utf8 levels) (λ a. a ≡ v)
    read_back zero v json deep = absurd (omega (arith, depth-pos v))
    read_back (suc levels) null json deep =
        Reads-bind_done _ _ _ (Reads-byte 0) λ a e. rw e (Reads-pure null refl)
    read_back (suc levels) (bool false) json deep =
        Reads-bind_done _ _ _ (Reads-byte 1) λ a e. rw e (Reads-pure (bool false) refl)
    read_back (suc levels) (bool true) json deep =
        Reads-bind_done _ _ _ (Reads-byte 2) λ a e. rw e (Reads-pure (bool true) refl)
    read_back (suc levels) (number v) (bits, fin) deep = Reads-number levels v bits fin
    read_back (suc levels) (string s) json deep = Reads-tagged 6 levels _ (
        Reads-bind_done _ _ _ (Reads-string is_utf8 s json)
          λ a e. rw e (Reads-pure (string s) refl))
    read_back (suc levels) (array vs) json deep = Reads-tagged 7 levels _ (
        Reads-bind _ _ _ _ (Reads-varuint (length_items vs)) λ n e. rw e (
          Reads-bind_done _ _ _ (read_back_items levels vs json (omega arith))
            λ a ea. rw ea (Reads-pure (array vs) refl)))
    read_back (suc levels) (object fs) json deep = Reads-tagged 8 levels _ (
        Reads-bind _ _ _ _ (Reads-varuint (length_fields fs)) λ n e. rw e (
          Reads-bind_done _ _ _ (read_back_fields levels fs end json (Fresh-end fs) (omega arith))
            λ a ea. rw ea (Reads-pure (object fs) refl)))

    read_back_items :
        (levels : ℕ) (vs : Items)
        → AllJson is_utf8 vs
        → depth_items vs ≤ levels
        → Reads
            (write_items F vs)
            (read_items F is_utf8 (length_items vs) (read_value F is_utf8 levels))
            (λ a. a ≡ vs)
    read_back_items levels nil json deep = Reads-pure nil refl
    read_back_items levels (cons v vs) (jv, js) deep =
        Reads-bind _ _ _ _ (read_back levels v jv (omega arith)) λ a e.
          Reads-bind_done _ _ _ (read_back_items levels vs js (omega arith))
            λ b eb. rw (e, eb) (Reads-pure (cons v vs) refl)

    read_back_fields :
        (levels : ℕ) (fs acc : Fields)
        → FieldsJson is_utf8 fs
        → Fresh acc fs
        → depth_fields fs ≤ levels
        → Reads
            (write_fields F fs)
            (read_fields F is_utf8 (length_fields fs) (read_value F is_utf8 levels) acc)
            (λ a. a ≡ append_fields acc fs)
    read_back_fields levels end acc json fresh deep = Reads-pure acc (sym (append_fields-end acc))
    read_back_fields levels (field k v fs) acc (valid, alone, jv, js) fresh deep =
        Reads-bind _ _ _ _ (Reads-string is_utf8 k valid) λ k' ek.
          Reads-bind _ _ _ _ (read_back levels v jv (omega arith)) λ v' ev.
            rw
              (
                ek,
                ev,
                insert-fresh acc k v (Fresh-head acc fs k v fresh),
                ← append_fields_assoc acc (field k v end) fs,
              )
              (read_back_fields levels fs (append_fields acc (field k v end)) js
                (Fresh-tail acc fs k v fresh alone) (omega arith))

  -- If a value is JSON and at most `levels` deep, then whenever `write_value` succeeds,
  -- `read_value` takes exactly its bytes, keeps the texts in step and gives the same value.
  pub Reads-value :
      (levels : ℕ) (v : Value)
      → IsJson is_utf8 v
      → depth v ≤ levels
      → Reads (write_value F v) (read_value F is_utf8 levels) (λ a. a ≡ v)
  Reads-value levels v json deep = read_back levels v json deep
