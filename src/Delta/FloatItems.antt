-- ===== src/Delta/FloatItems.antt =====
-- Arrays of f32 numbers as `exact_float32_array` and `float32_array_bits` of viewer.rs see them.
use halospawns_infra.Prelude.{
  ℕ, ◌≡◌, refl, ap, Bool, true, Option, none, some, inl, inr, ◌&&◌, not, List, [], ◌∷◌, length,
  arith, ◌==◌, ==_iff, Bool-cases,
}
use halospawns_infra.Prelude.Results.{ok}
use halospawns_infra.Delta.Floats.{Floats, Lawful, exact_f32}
use halospawns_infra.Delta.Value.{
  null, bool, number, string, array, object, Items, nil, cons, number_of, and_then, length_items,
  IsJson, AllJson,
}
use halospawns_infra.Delta.FloatArray.{exact_number, exact_numbers, prepend}
use halospawns_infra.Delta.PatchFloats.{float32_array_bits}
use halospawns_infra.Delta.WriteDelta.{float_arrays}
use halospawns_infra.Delta.FloatTrip.{number_items}
use halospawns_infra.Delta.FloatModes.{Exact, Plain, narrows}

module _ (F : Floats) (L : Lawful F) where
  -- An array of f32 numbers, as the code sees it and as the numbers.
  pub record FloatItems (vs : Items) (ns : List ℕ) : Type 0 where
    pub items : vs ≡ number_items ns
    pub exact : Exact F L ns
    pub bits : float32_array_bits F vs ≡ ok (narrows F L ns)
    pub size : length_items vs ≡ length ns

  FloatItems-cons :
      (n : ℕ) (vs : Items) (ms : List ℕ)
      → exact_f32 F n ≡ true
      → FloatItems vs ms
      → FloatItems (cons (number n) vs) (n ∷ ms)
  unfolding number_items exact_f32 float32_array_bits exact_number number_of narrows length_items
  FloatItems-cons n vs ms e f = record {
    items = ap (λ (t : Items). cons (number n) t) f.items;
    exact = ((==_iff _ n).0 e, f.exact);
    bits = rw (e, f.bits) refl;
    size = omega (arith, f.size);
  }

  prepend-some :
      (n : ℕ) (o : Option (List ℕ)) (ns : List ℕ)
      → prepend n o ≡ some ns
      → (ms : List ℕ) × ((o ≡ some ms) × (n ∷ ms ≡ ns))
  prepend-some n none ns e = cc
  prepend-some n (some ms) ns e = (ms, (refl, ground arith))

  pub exact_numbers-FloatItems :
      (vs : Items) (ns : List ℕ) → exact_numbers F vs ≡ some ns → FloatItems vs ns
  unfolding exact_numbers exact_number number_of
  exact_numbers-FloatItems nil [] e = record {
    items = unfold number_items in refl;
    exact = tt;
    bits = unfold float32_array_bits in unfold narrows in refl;
    size = unfold length_items in refl;
  }
  exact_numbers-FloatItems nil (n ∷ ns) e = cc
  exact_numbers-FloatItems (cons (number n) vs) ns e = elim (Bool-cases (exact_f32 F n)) [
    | inl exact ↦
        let (ms, (es, whole)) =
          prepend-some n (exact_numbers F vs) ns (rw (exact_numbers, exact) at e) in
        rw (← whole) (FloatItems-cons n vs ms exact (exact_numbers-FloatItems vs ms es))
    | inr other ↦ absurd_none (rw (exact_numbers, other) at e)
  ]
    where
      absurd_none : {A : Type 0} {xs : List ℕ} → ◌≡◌ {A = Option (List ℕ)} none (some xs) → A
      absurd_none h = cc
  exact_numbers-FloatItems (cons null vs) ns e = cc
  exact_numbers-FloatItems (cons (bool b) vs) ns e = cc
  exact_numbers-FloatItems (cons (string s) vs) ns e = cc
  exact_numbers-FloatItems (cons (array ws) vs) ns e = cc
  exact_numbers-FloatItems (cons (object fs) vs) ns e = cc

  pub Plain-items :
      (is_utf8 : List ℕ → Bool) (ns : List ℕ)
      → AllJson is_utf8 (number_items ns)
      → Exact F L ns
      → Plain F L ns
  unfolding number_items IsJson
  Plain-items is_utf8 [] json exact = tt
  Plain-items is_utf8 (n ∷ ns) ((bits, fin), json) (e, exact) =
      ((e, fin), Plain-items is_utf8 ns json exact)

  pair-some :
      (x y : Option (List ℕ)) (a b : List ℕ)
      → and_then x (λ c. and_then {B = List ℕ × List ℕ} y (λ d. some (c, d))) ≡ some (a, b)
      → (x ≡ some a) × (y ≡ some b)
  pair-some none y a b e = cc
  pair-some (some c) none a b e = cc
  pair-some (some c) (some d) a b e = (ground arith, ground arith)

  pub float_arrays-some :
      (ps vs : Items) (a b : List ℕ)
      → float_arrays F ps vs ≡ some (a, b)
      → (exact_numbers F ps ≡ some a)
        × (exact_numbers F vs ≡ some b)
        × (length_items ps ≡ length_items vs)
  unfolding float_arrays
  float_arrays-some ps vs a b e =
      elim (Bool-cases ((length_items ps == length_items vs) && not (length_items vs == 0))) [
        | inl both ↦
            let (x, y) = pair-some _ _ a b (rw (float_arrays, both) at e) in (x, y, ground arith)
        | inr other ↦ absurd_none (rw (float_arrays, other) at e)
      ]
    where
      absurd_none :
          {A : Type 0} {xs : List ℕ × List ℕ}
          → ◌≡◌ {A = Option (List ℕ × List ℕ)} none (some xs)
          → A
      absurd_none h = cc
