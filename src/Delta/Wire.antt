-- ===== src/Delta/Wire.antt =====
-- The integers and texts of the wire: what `BinaryWriter` writes, `BinaryReader` reads back.
use mathlib.Core.WellFounded.{Acc}
use mathlib.Core.Logic.{dif_pos, dif_neg}
use native.Mathlib.Nat.{div-add-mod}
use native.Mathlib.Bridge.{le_prop}
use halospawns_infra.Prelude.{
  ℕ, zero, suc, ◌+◌, ◌-◌, ◌*◌, ◌/◌, ◌%◌, ◌^◌, ◌≤◌, ◌<◌, ◌≡◌, refl, ap, ◌∙◌, inl, inr, Bool, true,
  false, none, some, List, [], ◌∷◌, ◌++◌, length, arith, ltb, ◌==◌, lt_wf, dec_lt, Bool-cases,
  Option-cases, get_elem?-append_left, get_elem?-append_last, length-append, take-append,
  drop-append,
}
use halospawns_infra.Prelude.Results.{ok}
use halospawns_infra.Prelude.Bits.{low_bits}
use halospawns_infra.Delta.Codes.{Text, safe_integer_max}
use halospawns_infra.Delta.Reader
use halospawns_infra.Delta.Reader.{BinaryReader, M, ◌>>=◌, pure, continue, byte, varuint_loop}
use halospawns_infra.Delta.Writer
use halospawns_infra.Delta.Writer.{Table, Write, groups, lookup, text_eq, quotient_shrinks}
use halospawns_infra.Delta.Sync.{Sync, Run, Reads, Reads-bytes, Reads-bind, written}

abbrev pub reader : List ℕ → List Text → BinaryReader
reader b s = record { bytes = b; strings = s }

-- One round on a last byte, and on a byte with the top bit set.
last_group :
    (n v value factor : ℕ) (rest : List ℕ) (ss : List Text)
    → v ≤ 127
    → value + v * factor ≤ safe_integer_max
    → varuint_loop (suc n) value factor (reader (v % 256 ∷ rest) ss)
      ≡ ok (value + v * factor, reader rest ss)
unfolding varuint_loop byte
last_group n v value factor rest ss hv fits = ground (arith, low_bits (v % 256))

inner_group :
    (n g value factor : ℕ) (rest : List ℕ) (ss : List Text)
    → g < 128
    → value + g * factor ≤ safe_integer_max
    → factor * 128 ≤ safe_integer_max
    → varuint_loop (suc n) value factor (reader ((g + 128) % 256 ∷ rest) ss)
      ≡ varuint_loop n (value + g * factor) (factor * 128) (reader rest ss)
unfolding varuint_loop byte
inner_group n g value factor rest ss hg fits room = ground (arith, low_bits ((g + 128) % 256))

regroup :
    (v value factor : ℕ) → value + v % 128 * factor + v / 128 * (factor * 128) ≡ value + v * factor
regroup v value factor = omega (arith, ap (λ (t : ℕ). t * factor) (div-add-mod v 128))

le_mul_left : (q f : ℕ) → 1 ≤ q → f ≤ q * f
le_mul_left q f h = grind arith

groups_last : (v : ℕ) (w : Acc ◌<◌ v) → v ≤ 127 → groups v w ≡ v % 256 ∷ []
unfolding groups
groups_last v (Acc.intro _ smaller) h = dif_neg (dec_lt 127 v) (omega arith) _ _

groups_inner :
    (v : ℕ) (w : Acc ◌<◌ v)
    → 127 < v
    → (w' : Acc ◌<◌ (v / 128)) × (groups v w ≡ ((v % 128 + 128) % 256) ∷ groups (v / 128) w')
unfolding groups
groups_inner v (Acc.intro _ smaller) h =
    (smaller (v / 128) (quotient_shrinks v h), dif_pos (dec_lt 127 v) le_prop h _ _)

varuint_loop-groups :
    (n v value factor : ℕ) (w : Acc ◌<◌ v) (rest : List ℕ) (ss : List Text)
    → v < 128 ^ suc n
    → 0 < factor
    → value + v * factor ≤ safe_integer_max
    → varuint_loop (suc n) value factor (reader (groups v w ++ rest) ss)
      ≡ ok (value + v * factor, reader rest ss)
varuint_loop-groups zero v value factor w rest ss h pos fits =
    rw (groups_last v w (omega arith)) (last_group 0 v value factor rest ss (omega arith) fits)
varuint_loop-groups (suc n) v value factor w rest ss h pos fits = elim (dec_lt 127 v) [
  | yes more ↦
      let (w', e) = groups_inner v w more in
      rw e (
        inner_group (suc n) (v % 128) value factor _ ss (omega arith)
          (omega (arith, regroup v value factor))
          (omega
            (arith, regroup v value factor, le_mul_left (v / 128) (factor * 128) (omega arith)))
        ∙ varuint_loop-groups n (v / 128) (value + v % 128 * factor) (factor * 128) w' rest ss
            (omega arith) (omega arith) (omega (arith, regroup v value factor))
        ∙ rw (regroup v value factor))
  | no small ↦
      rw (groups_last v w (omega arith))
        (last_group (suc n) v value factor rest ss (omega arith) fits)
]

varuint_runs :
    (v : ℕ) (t t' : Table) (out rest : List ℕ) (ss : List Text)
    → Writer.varuint v t ≡ ok (out, t')
    → (t ≡ t') × (Reader.varuint (reader (out ++ rest) ss) ≡ ok (v, reader rest ss))
unfolding Writer.varuint Reader.varuint
varuint_runs v t t' out rest ss e = elim (Bool-cases (ltb safe_integer_max v)) [
  | inl big ↦ cc (rw big at e)
  | inr fits ↦
      let (eo, et) = written (rw fits at e) in
      let small : v ≤ safe_integer_max = ground arith in
      (
        et,
        rw (← eo) (
            varuint_loop-groups 7 v 0 1 (lt_wf.apply v) rest ss (omega arith) (omega arith)
              (omega arith)
            ∙ rw (value_eq v)),
      )
]
  where
    value_eq : (v : ℕ) → 0 + v * 1 ≡ v
    value_eq v = omega arith

-- Whenever `varuint` writes an integer, the reader's `varuint` takes exactly those bytes and gives
-- the integer.
pub Reads-varuint : (v : ℕ) → Reads (Writer.varuint v) Reader.varuint (λ a. a ≡ v)
Reads-varuint v = record {
  reading = λ t t' out e rest ss sync.
      let (et, er) = varuint_runs v t t' out rest ss e in
      record { value = v; texts = ss; sync = rw (← et) sync; fits = refl; runs = er };
}

pub text_eq_sound : (a b : Text) → text_eq a b ≡ true → a ≡ b
unfolding text_eq
text_eq_sound [] [] h = refl
text_eq_sound [] (y ∷ ys) h = cc
text_eq_sound (x ∷ xs) [] h = cc
text_eq_sound (x ∷ xs) (y ∷ ys) h = ground (arith, text_eq_sound xs ys)

pub text_eq_refl : (a : Text) → text_eq a a ≡ true
unfolding text_eq
text_eq_refl [] = refl
text_eq_refl (x ∷ xs) = ground (arith, text_eq_refl xs)

-- A new text takes the next index on both sides.
Sync-intern :
    (t : Table) (ss : List Text) (s : Text) → Sync t ss → Sync ((s, length t) ∷ t) (ss ++ (s ∷ []))
unfolding lookup
Sync-intern t ss s sync = record {
  found = λ k i h. ground (
    arith,
    text_eq_sound s k,
    sync.found k i,
    sync.size,
    get_elem?-append_left ss (s ∷ []) i k,
    get_elem?-append_last ss s,
  );
  size = rw (length-append ss (s ∷ [])) (omega (arith, sync.size));
}

-- `bytes` takes as many bytes as it is asked for.
pub Reads-slice :
    (out : List ℕ) (n : ℕ)
    → length out ≡ n
    → Reads (Writer.bytes out) (Reader.bytes n) (λ a. a ≡ out)
unfolding Reader.bytes
Reads-slice out n e = Reads-bytes out _ out refl λ rest ss.
    rw (← e) (ground (arith, length-append out rest, take-append out rest, drop-append out rest))

Reads-text :
    (s : Text) → Reads (Writer.bytes s) (Reader.bytes ((length s * 2 + 1 - 1) / 2)) (λ a. a ≡ s)
Reads-text s = Reads-slice s _ (omega arith)

module _ (is_utf8 : List ℕ → Bool) (s : Text) where
  known_string :
      (index : ℕ) (t t' : Table) (out rest : List ℕ) (ss : List Text)
      → Sync t ss
      → lookup s t ≡ some index
      → Writer.varuint (index * 2) t ≡ ok (out, t')
      → Run (λ a. a ≡ s) (Reader.string is_utf8) out t' rest ss
  unfolding Reader.string
  known_string index t t' out rest ss sync known e =
      let (et, er) = varuint_runs (index * 2) t t' out rest ss e in
      record {
        value = s;
        texts = ss;
        sync = rw (← et) sync;
        fits = refl;
        runs = rw er (ground (arith, sync.found s index known));
      }

  Reads-new : is_utf8 s ≡ true → Reads (Writer.remember s) (Reader.literal is_utf8 s) (λ a. a ≡ s)
  unfolding Reader.string
  Reads-new valid = record {
    reading = λ t t' out e rest ss sync.
        let (eo, et) = written e in
        record {
          value = s;
          texts = ss ++ (s ∷ []);
          sync = rw (← et) (Sync-intern t ss s sync);
          fits = refl;
          runs = rw (← eo, valid);
        };
  }

  Reads-literal :
      is_utf8 s ≡ true → Reads (Writer.string_at s none) (Reader.string is_utf8) (λ a. a ≡ s)
  unfolding Reader.string Writer.string
  Reads-literal valid = Reads-bind _ _ _ _ (Reads-varuint (length s * 2 + 1)) λ token e.
      rw (e, odd)
        (Reads-bind _ (Writer.remember s) _ (Reader.literal is_utf8) (Reads-text s)
          λ a ea. rw ea (Reads-new valid))
    where
      odd : (length s * 2 + 1) % 2 == 0 ≡ false
      odd = ground arith

  -- If a text is UTF-8, then whenever `string` writes it, by its bytes or by its index, the
  -- reader's `string` takes exactly those bytes, keeps the texts in step and gives the text.
  pub Reads-string : is_utf8 s ≡ true → Reads (Writer.string s) (Reader.string is_utf8) (λ a. a ≡ s)
  unfolding Writer.string
  Reads-string valid = record {
    reading = λ t t' out e rest ss sync. elim (Option-cases (lookup s t)) [
      | inl fresh ↦ (Reads-literal valid).reading t t' out (rw fresh at e) rest ss sync
      | inr (index, known) ↦ known_string index t t' out rest ss sync known (rw known at e)
    ];
  }
