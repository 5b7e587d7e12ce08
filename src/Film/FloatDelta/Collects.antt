-- ===== src/Film/FloatDelta/Collects.antt =====
-- What the first loop of float_delta.rs collects: the numbers of two arrays of f32 numbers, their
-- patterns, and whether they are the same.
use halospawns_infra.Prelude.{
  ℕ, ◌≡◌, refl, sym, ap, ◌∙◌, Bool, true, ◌&&◌, Option, none, some, List, [], ◌∷◌, ◌==◌, ==_iff,
  arith, Bool-cases, Option-cases, inl, inr,
}
use halospawns_infra.Delta.Floats.{Floats, Lawful, exact_f32}
use halospawns_infra.Delta.Value.{Value, Items, nil, cons, number_of, length_items}
use halospawns_infra.Delta.FloatArray.{exact_number, exact_numbers, prepend}
use halospawns_infra.Delta.FloatModes.{narrows}
use halospawns_infra.Film.FloatDelta.{Collected, exact_pair, add_pair, collect}

-- Two lists of numbers are the same, place by place.
unfoldable pub all_same : List ℕ → List ℕ → Bool
all_same [] bs = true
all_same (a ∷ xs) [] = true
all_same (a ∷ xs) (b ∷ ys) = (a == b) && all_same xs ys

module _ (F : Floats) (L : Lawful F) where
  abbrev pub Known : ℕ → Type 0
  Known a = exact_f32 F a ≡ true

  unfoldable pub both_collected : Option (List ℕ) → Option (List ℕ) → Option Collected
  both_collected none y = none
  both_collected (some a) none = none
  both_collected (some a) (some b) = some (record {
    numbers = a;
    old_bits = narrows F L a;
    new_bits = narrows F L b;
    same = all_same a b;
  })

  abbrev both_pair : Option ℕ → Option ℕ → Option (ℕ × ℕ)
  both_pair none y = none
  both_pair (some a) none = none
  both_pair (some a) (some b) = some (a, b)

  exact_pair_lem :
      (p v : Value) → exact_pair F p v ≡ both_pair (exact_number F p) (exact_number F v)
  unfolding exact_pair exact_number
  exact_pair_lem p v = elim (Option-cases (number_of p)) [
    | inl ep ↦ rw (exact_pair, exact_number, ep) refl
    | inr (a, ep) ↦ elim (Bool-cases (exact_f32 F a)) [
      | inl xa ↦ elim (Option-cases (number_of v)) [
        | inl ev ↦ rw (exact_pair, exact_number, ep, ev, xa) refl
        | inr (b, ev) ↦ elim (Bool-cases (exact_f32 F b)) [
          | inl xb ↦ rw (exact_pair, exact_number, ep, ev, xa, xb) refl
          | inr xb ↦ rw (exact_pair, exact_number, ep, ev, xa, xb) refl
        ]
      ]
      | inr xa ↦ elim (Option-cases (number_of v)) [
        | inl ev ↦ rw (exact_pair, exact_number, ep, ev, xa) refl
        | inr (b, ev) ↦ rw (exact_pair, exact_number, ep, ev, xa) refl
      ]
    ]
  ]

  exact_number-Known : (v : Value) (n : ℕ) → exact_number F v ≡ some n → Known n
  unfolding exact_number
  exact_number-Known v n e = elim (Option-cases (number_of v)) [
    | inl en ↦ absurd_none n (rw (exact_number, en) at e)
    | inr (a, en) ↦ elim (Bool-cases (exact_f32 F a)) [
      | inl xa ↦
          (let same : a ≡ n = some_same a n (rw (exact_number, en, xa) at e) in rw same at xa)
      | inr xa ↦ absurd_none n (rw (exact_number, en, xa) at e)
    ]
  ]
    where
      absurd_none : {A : Type 0} (m : ℕ) → ◌≡◌ {A = Option ℕ} none (some m) → A
      absurd_none m h = cc

      some_same : (a m : ℕ) → ◌≡◌ {A = Option ℕ} (some a) (some m) → a ≡ m
      some_same a m h = ground arith

  -- Numbers that f32 holds are the same if their patterns are.
  narrow_same : (a b : ℕ) → Known a → Known b → (F.narrow a == F.narrow b) ≡ (a == b)
  unfolding exact_f32
  narrow_same a b ka kb =
      same_if (F.narrow a) (F.narrow b) a b
        (λ h.
          sym ((==_iff (F.widen (F.narrow a)) a).0 ka)
          ∙ (ap F.widen h ∙ (==_iff (F.widen (F.narrow b)) b).0 kb))
        (λ h. ap F.narrow h)
    where
      same_if : (x y a b : ℕ) → (x ≡ y → a ≡ b) → (a ≡ b → x ≡ y) → (x == y) ≡ (a == b)
      same_if x y a b f g = ground (arith, f, g)

  pub collect_lem :
      (ps vs : Items)
      → length_items ps ≡ length_items vs
      → collect F ps vs ≡ both_collected (exact_numbers F ps) (exact_numbers F vs)
  unfolding collect exact_numbers length_items both_collected all_same narrows
  collect_lem nil nil h = refl
  collect_lem nil (cons v vs) h = absurd (omega arith)
  collect_lem (cons p ps) nil h = absurd (omega arith)
  collect_lem (cons p ps) (cons v vs) h =
      rw (exact_pair_lem p v, collect_lem ps vs (omega (arith, h)))
        (elim (Option-cases (exact_number F p)) [
          | inl ep ↦ rw (exact_numbers, ep) refl
          | inr (a, ep) ↦ elim (Option-cases (exact_number F v)) [
            | inl ev ↦ rw (exact_numbers, ep, ev) (unpaired a (exact_numbers F ps))
            | inr (b, ev) ↦
                rw (exact_numbers, ep, ev)
                  (added a b (exact_numbers F ps) (exact_numbers F vs) (exact_number-Known p a ep)
                    (exact_number-Known v b ev))
          ]
        ])
    where
      unpaired : (a : ℕ) (x : Option (List ℕ)) → none ≡ both_collected (prepend a x) none
      unpaired a none = refl
      unpaired a (some xs) = refl

      added :
          (a b : ℕ) (x y : Option (List ℕ))
          → Known a
          → Known b
          → add_pair F (some (a, b)) (both_collected x y)
            ≡ both_collected (prepend a x) (prepend b y)
      added a b none y ka kb = refl
      added a b (some xs) none ka kb = refl
      added a b (some xs) (some ys) ka kb = rw (narrow_same a b ka kb) refl
