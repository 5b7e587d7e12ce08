-- ===== src/Delta/Writer.antt =====
-- `BinaryWriter` of viewer.rs. The code only appends to `bytes` and never reads it back, so an
-- operation is a function from the string table to the bytes that it appends and the table after it.
use mathlib.Core.WellFounded.{Acc}
use halospawns_infra.Prelude.{
  ℕ, ◌+◌, ◌*◌, ◌/◌, ◌%◌, ◌<◌, ◌≤◌, Bool, true, false, ◌&&◌, Option, none, some, List, [], ◌∷◌, ◌++◌,
  length, ltb, ◌==◌, if◌then◌else◌, arith, dec_lt, dite, lt_wf,
}
use halospawns_infra.Prelude.Results.{Result, ok, err}
use halospawns_infra.Delta.Error.{Error, exceeds_safe_range}
use halospawns_infra.Delta.Codes.{Text, safe_integer_max}

-- The HashMap of texts to their indices.
abbrev pub Table : Type 0
Table = List (Text × ℕ)

abbrev pub Write : Type 0
Write = Table → Result Error (List ℕ × Table)

abbrev pub append_out : List ℕ → Result Error (List ℕ × Table) → Result Error (List ℕ × Table)
append_out out (ok (more, t)) = ok (out ++ more, t)
append_out out (err e) = err e

abbrev pub continue : Result Error (List ℕ × Table) → Write → Result Error (List ℕ × Table)
continue (ok (out, t)) k = append_out out (k t)
continue (err e) k = err e

infixl 5 ◌>>◌
abbrev pub ◌>>◌ : Write → Write → Write
◌>>◌ m k t = continue (m t) k

abbrev pub done : Write
done t = ok ([], t)

abbrev pub raise : Error → Write
raise e t = err e

-- fn byte; `as u8` stands where the code has it.
abbrev pub byte : ℕ → Write
byte v t = ok (v ∷ [], t)

-- fn bytes
abbrev pub bytes : List ℕ → Write
bytes vs t = ok (vs, t)

pub quotient_shrinks : (v : ℕ) → 128 ≤ v → v / 128 < v
quotient_shrinks v h = omega arith

-- `while remaining >= 128`
unfoldable pub groups : (v : ℕ) → Acc ◌<◌ v → List ℕ
groups v (Acc.intro _ smaller) =
    dite (dec_lt 127 v)
      (λ more.
        ((v % 128 + 128) % 256) ∷ groups (v / 128) (smaller (v / 128) (quotient_shrinks v more)))
      (λ _. (v % 256) ∷ [])

-- fn varuint
unfoldable pub varuint : ℕ → Write
unfolding groups lt_wf dec_lt
varuint v =
    if ltb safe_integer_max v then raise exceeds_safe_range else bytes (groups v (lt_wf.apply v))

-- Equality of texts, byte by byte.
unfoldable pub text_eq : Text → Text → Bool
text_eq [] [] = true
text_eq [] (y ∷ ys) = false
text_eq (x ∷ xs) [] = false
text_eq (x ∷ xs) (y ∷ ys) = (x == y) && text_eq xs ys

unfoldable pub lookup : Text → Table → Option ℕ
lookup k [] = none
lookup k ((j, i) ∷ t) = if text_eq j k then some i else lookup k t

abbrev pub remember : Text → Write
remember s t = ok ([], (s, length t) ∷ t)

pub string_at : Text → Option ℕ → Write
string_at s (some index) = varuint (index * 2)
string_at s none = do varuint (length s * 2 + 1); bytes s; remember s

-- fn string
unfoldable pub string : Text → Write
unfolding string_at
string s t = string_at s (lookup s t) t
