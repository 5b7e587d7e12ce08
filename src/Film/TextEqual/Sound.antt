-- ===== src/Film/TextEqual/Sound.antt =====
-- `equal` of text_equal.rs looks at every byte.
use halospawns_infra.Prelude.{
  ℕ, zero, suc, ◌-◌, ◌/◌, ◌≤◌, ◌<◌, ◌≡◌, refl, ap, true, ◌&&◌, List, [], ◌∷◌, length, take, drop,
  All, leb, ◌==◌, ==_iff, arith, Bool-cases, inl, inr,
}
use halospawns_infra.Delta.Read.{from_le}
use halospawns_infra.Delta.Wire.{text_eq_sound, text_eq_refl}
use halospawns_infra.Film.TextEqual.{byte_at, words_equal, equal_sized, equal}

abbrev pub AllBytes : List ℕ → Type 0
AllBytes = All (λ b. b < 256)

from_le-injective :
    (xs ys : List ℕ)
    → AllBytes xs
    → AllBytes ys
    → length xs ≡ length ys
    → from_le xs ≡ from_le ys
    → xs ≡ ys
unfolding from_le
from_le-injective [] [] bx by e w = refl
from_le-injective [] (y ∷ ys) bx by e w = absurd (omega (arith, e))
from_le-injective (x ∷ xs) [] bx by e w = absurd (omega (arith, e))
from_le-injective (x ∷ xs) (y ∷ ys) (hx, bx) (hy, by) e w =
    let head : x ≡ y = omega (arith, w) in
    let tail = from_le-injective xs ys bx by (omega (arith, e)) (omega (arith, w)) in
    rw (head, tail) refl

AllBytes-take : (n : ℕ) (xs : List ℕ) → AllBytes xs → AllBytes (take n xs)
AllBytes-take zero xs h = tt
AllBytes-take (suc n) [] h = tt
AllBytes-take (suc n) (x ∷ xs) (hx, h) = (hx, AllBytes-take n xs h)

AllBytes-drop : (n : ℕ) (xs : List ℕ) → AllBytes xs → AllBytes (drop n xs)
AllBytes-drop zero xs h = h
AllBytes-drop (suc n) [] h = tt
AllBytes-drop (suc n) (x ∷ xs) (hx, h) = AllBytes-drop n xs h

length-take :
    (n : ℕ) (xs ys : List ℕ) → length xs ≡ length ys → length (take n xs) ≡ length (take n ys)
length-take zero xs ys e = refl
length-take (suc n) [] [] e = refl
length-take (suc n) [] (y ∷ ys) e = absurd (omega (arith, e))
length-take (suc n) (x ∷ xs) [] e = absurd (omega (arith, e))
length-take (suc n) (x ∷ xs) (y ∷ ys) e = omega (arith, length-take n xs ys (omega (arith, e)))

length-drop :
    (n : ℕ) (xs ys : List ℕ) → length xs ≡ length ys → length (drop n xs) ≡ length (drop n ys)
length-drop zero xs ys e = e
length-drop (suc n) [] [] e = refl
length-drop (suc n) [] (y ∷ ys) e = absurd (omega (arith, e))
length-drop (suc n) (x ∷ xs) [] e = absurd (omega (arith, e))
length-drop (suc n) (x ∷ xs) (y ∷ ys) e = length-drop n xs ys (omega (arith, e))

-- The first n items and those from k on, with k at most n, are the whole list.
covered :
    (k n : ℕ) (xs ys : List ℕ)
    → k ≤ n
    → length xs ≡ length ys
    → take n xs ≡ take n ys
    → drop k xs ≡ drop k ys
    → xs ≡ ys
covered zero n xs ys h e t d = d
covered (suc k) zero xs ys h e t d = absurd (omega arith)
covered (suc k) (suc n) [] [] h e t d = refl
covered (suc k) (suc n) [] (y ∷ ys) h e t d = absurd (omega (arith, e))
covered (suc k) (suc n) (x ∷ xs) [] h e t d = absurd (omega (arith, e))
covered (suc k) (suc n) (x ∷ xs) (y ∷ ys) h e t d =
    let head : x ≡ y = ap first_item t in
    let tail = covered k n xs ys (omega arith) (omega (arith, e)) (ap rest_items t) d in
    rw (head, tail) refl
  where
    first_item : List ℕ → ℕ
    first_item [] = 0
    first_item (b ∷ bs) = b

    rest_items : List ℕ → List ℕ
    rest_items [] = []
    rest_items (b ∷ bs) = bs

empty_equal : (xs ys : List ℕ) → length xs ≡ 0 → length ys ≡ 0 → xs ≡ ys
empty_equal [] [] h k = refl
empty_equal [] (y ∷ ys) h k = absurd (omega (arith, k))
empty_equal (x ∷ xs) ys h k = absurd (omega (arith, h))

-- The first, the middle and the last byte are all bytes of a text of at most three.
short_equal :
    (xs ys : List ℕ)
    → 1 ≤ length xs
    → length xs ≤ 3
    → length xs ≡ length ys
    → ((byte_at xs 0 == byte_at ys 0)
        && ((byte_at xs (length xs / 2) == byte_at ys (length xs / 2))
            && (byte_at xs (length xs - 1) == byte_at ys (length xs - 1))))
      ≡ true
    → xs ≡ ys
unfolding byte_at
short_equal (a ∷ []) (x ∷ []) p q e h = let ax : a ≡ x = ground arith in rw ax refl
short_equal (a ∷ b ∷ []) (x ∷ y ∷ []) p q e h =
    let ax : a ≡ x = ground arith in let bd : b ≡ y = ground arith in rw (ax, bd) refl
short_equal (a ∷ b ∷ c ∷ []) (x ∷ y ∷ z ∷ []) p q e h =
    let ax : a ≡ x = ground arith in
    let bd : b ≡ y = ground arith in let cz : c ≡ z = ground arith in rw (ax, bd, cz) refl
short_equal [] ys p q e h = absurd (omega arith)
short_equal (a ∷ b ∷ c ∷ d ∷ xs) ys p q e h = absurd (omega (arith, q))
short_equal (a ∷ xs) [] p q e h = absurd (omega (arith, e))
short_equal (a ∷ []) (x ∷ y ∷ ys) p q e h = absurd (omega (arith, e))
short_equal (a ∷ b ∷ xs) (x ∷ []) p q e h = absurd (omega (arith, e))
short_equal (a ∷ b ∷ []) (x ∷ y ∷ z ∷ ys) p q e h = absurd (omega (arith, e))
short_equal (a ∷ b ∷ c ∷ []) (x ∷ y ∷ []) p q e h = absurd (omega (arith, e))
short_equal (a ∷ b ∷ c ∷ []) (x ∷ y ∷ z ∷ u ∷ ys) p q e h = absurd (omega (arith, e))

equal_refl : (xs : List ℕ) → equal xs xs ≡ true
unfolding equal equal_sized words_equal
equal_refl xs = ground (arith, text_eq_refl xs)

module _ (left right : List ℕ) (bl : AllBytes left) (br : AllBytes right)
    (e : length left ≡ length right) where
  words_equal-covers :
      (n : ℕ) → length left - n ≤ n → words_equal n left right ≡ true → left ≡ right
  unfolding words_equal
  words_equal-covers n h w =
      let k = length left - n in
      let low : from_le (take n left) ≡ from_le (take n right) = ground arith in
      let high : from_le (drop k left) ≡ from_le (drop k right) = ground arith in
      covered k n left right h e
        (from_le-injective _ _ (AllBytes-take n left bl) (AllBytes-take n right br)
          (length-take n left right e) low)
        (from_le-injective _ _ (AllBytes-drop k left bl) (AllBytes-drop k right br)
          (length-drop k left right e) high)

  equal_finds : equal left right ≡ true → left ≡ right
  unfolding equal equal_sized
  equal_finds w =
      let same : (length left == length right) ≡ true = ground (arith, e) in
      elim (Bool-cases (length left == 0)) [
        | inl none ↦
            empty_equal left right (ground arith)
              (omega (arith, e, (==_iff (length left) 0).0 none))
        | inr some_bytes ↦ elim (Bool-cases (leb (length left) 3)) [
          | inl few ↦
              short_equal left right (ground arith) (ground arith) e
                (rw (same, some_bytes, few) at w)
          | inr over3 ↦ elim (Bool-cases (leb (length left) 8)) [
            | inl to8 ↦ words_equal-covers 4 (ground arith) (rw (same, some_bytes, over3, to8) at w)
            | inr over8 ↦ elim (Bool-cases (leb (length left) 16)) [
              | inl to16 ↦
                  words_equal-covers 8 (ground arith)
                    (rw (same, some_bytes, over3, over8, to16) at w)
              | inr over16 ↦ elim (Bool-cases (leb (length left) 32)) [
                | inl to32 ↦
                    words_equal-covers 16 (ground arith)
                      (rw (same, some_bytes, over3, over8, over16, to32) at w)
                | inr over32 ↦
                    text_eq_sound left right
                      (rw (same, some_bytes, over3, over8, over16, over32) at w)
              ]
            ]
          ]
        ]
      ]

equal-length : (left right : List ℕ) → equal left right ≡ true → length left ≡ length right
unfolding equal
equal-length left right h = ground arith

-- For two texts of bytes, `equal`, which compares overlapping words, succeeds exactly if the texts
-- are the same.
pub equal_lem :
    (left right : List ℕ)
    → AllBytes left
    → AllBytes right
    → (equal left right ≡ true → left ≡ right) × (left ≡ right → equal left right ≡ true)
equal_lem left right bl br = (
  (λ w. equal_finds left right bl br (equal-length left right w) w),
  (λ same. rw (← same) (equal_refl left)),
)
