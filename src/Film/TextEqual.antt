-- ===== src/Film/TextEqual.antt =====
-- `equal` of lambda/h1_film/encoder/src/text_equal.rs: texts compared by overlapping words.
pub mod Sound
use halospawns_infra.Prelude.{
  ℕ, zero, suc, ◌-◌, ◌/◌, Bool, true, false, ◌&&◌, not, List, [], ◌∷◌, length, take, drop, leb,
  ◌==◌, if◌then◌else◌,
}
use halospawns_infra.Delta.Read.{from_le}
use halospawns_infra.Delta.Writer.{text_eq}

-- `bytes[i]`; every index below is in range.
unfoldable pub byte_at : List ℕ → ℕ → ℕ
byte_at [] i = 0
byte_at (b ∷ bs) zero = b
byte_at (b ∷ bs) (suc i) = byte_at bs i

-- The first and the last n bytes as words: `from_ne_bytes`, least byte first.
unfoldable pub words_equal : ℕ → List ℕ → List ℕ → Bool
words_equal n left right =
    (from_le (take n left) == from_le (take n right))
    && (from_le (drop (length left - n) left) == from_le (drop (length left - n) right))

-- The match on the length.
unfoldable pub equal_sized : List ℕ → List ℕ → Bool
unfolding byte_at words_equal
equal_sized left right =
    if length left == 0
    then true
    else if leb (length left) 3
    then (byte_at left 0 == byte_at right 0)
      && ((byte_at left (length left / 2) == byte_at right (length left / 2))
          && (byte_at left (length left - 1) == byte_at right (length left - 1)))
    else if leb (length left) 8
    then words_equal 4 left right
    else if leb (length left) 16
    then words_equal 8 left right
    else if leb (length left) 32
    then words_equal 16 left right
    else text_eq left right

-- fn equal
unfoldable pub equal : List ℕ → List ℕ → Bool
unfolding equal_sized
equal left right = if not (length left == length right) then false else equal_sized left right
