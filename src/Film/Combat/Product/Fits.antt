-- ===== src/Film/Combat/Product/Fits.antt =====
-- The byte budget of `product` of combat.rs, and the deaths that are left out for it.
use mathlib.Core.List.{reverse}
use mathlib.Core.List.{reverse-reverse, reverse-append}
use halospawns_infra.Prelude.{
  ℕ, ◌+◌, ◌≤◌, ◌<◌, ◌≡◌, refl, sym, ap, ◌∙◌, false, List, [], ◌∷◌, ◌++◌, arith, ltb, Bool-cases,
  ltb→lt, inl, inr, ◌⊎◌,
}
use halospawns_infra.Prelude.Results.{Result, ok, err, ◌>>=◌}
use halospawns_infra.Film.Combat.{Error, Event, Combat, byte_budget}
use halospawns_infra.Film.Combat.Product.{
  Product, capped, whole, budget, comma, trim, with_deaths, shorten, product,
}

-- A JSON array grows by its new element and the comma before it.
pub record Lengths (json_length : Product → ℕ) (event_length : Event → ℕ) : Type 0 where
  pub one_more :
      (p : Product) (es : List Event) (e : Event)
      → json_length (record p { deaths = reverse (e ∷ es) })
        ≡ json_length (record p { deaths = reverse es }) + (event_length e + comma es)

module _ (json_length : Product → ℕ) (event_length : Event → ℕ)
    (lengths : Lengths json_length event_length) (p : Product) where
  -- The newest deaths are left out, as many as it takes; or it takes more than all of them.
  abbrev Trimmed : List Event → Result Error (List Event) → Type 0
  Trimmed es (ok kept) =
      (json_length (record p { deaths = reverse kept }) ≤ budget)
      × ((out : List Event) × (es ≡ out ++ kept))
  Trimmed es (err e) = (e ≡ byte_budget) × (budget < json_length (record p { deaths = [] }))

  more :
      (e : Event) (es : List Event) (r : Result Error (List Event))
      → Trimmed es r
      → Trimmed (e ∷ es) r
  more e es (ok kept) (fits, (out, parts)) = (fits, (e ∷ out, ap (λ t. e ∷ t) parts))
  more e es (err x) h = h

  trim-Trimmed :
      (es : List Event) (bytes : ℕ)
      → bytes ≡ json_length (record p { deaths = reverse es })
      → Trimmed es (trim json_length event_length es bytes)
  unfolding trim
  trim-Trimmed [] bytes is = elim (Bool-cases (ltb budget bytes)) [
    | inl over ↦ rw over (refl, omega (arith, ltb→lt _ _ over, is))
    | inr fits ↦ rw fits ((ground (arith, is)), ([], refl))
  ]
  trim-Trimmed (e ∷ es) bytes is = elim (Bool-cases (ltb budget bytes)) [
    | inl over ↦
        let enough : ltb bytes (event_length e + comma es) ≡ false =
          ground (arith, is, lengths.one_more p es e) in
        rw (over, enough)
          (more e es _ (trim-Trimmed es _ (omega (arith, is, lengths.one_more p es e))))
    | inr fits ↦ rw fits ((ground (arith, is)), ([], refl))
  ]

-- What `product` gives for a state: a product within the budget, which has all but the newest deaths and
-- all else that was observed, or the error for the budget, if no product without deaths is within it.
abbrev pub Fitted : (Product → ℕ) → Combat → Result Error Product → Type 0
Fitted json_length c (ok p) =
    (json_length p ≤ budget)
    × ((out : List Event) × (c.deaths ≡ p.deaths ++ out))
    × (p ≡ record (whole c) { deaths = p.deaths; death_coverage = p.death_coverage })
    × (((p.death_coverage ≡ (whole c).death_coverage) × (p.deaths ≡ c.deaths))
        ⊎ (p.death_coverage ≡ capped))
Fitted json_length c (err e) =
    (e ≡ byte_budget)
    × (budget < json_length (record (whole c) { deaths = []; death_coverage = capped }))

append-nothing : {A : Type 0} (xs : List A) → xs ≡ xs ++ []
append-nothing [] = refl
append-nothing (x ∷ xs) = ap (λ t. x ∷ t) (append-nothing xs)

oldest : (all out kept : List Event) → reverse all ≡ out ++ kept → all ≡ reverse kept ++ reverse out
oldest all out kept e = sym (reverse-reverse all) ∙ ap reverse e ∙ reverse-append out kept

module _ {json_length : Product → ℕ} {event_length : Event → ℕ}
    (lengths : Lengths json_length event_length) where
  shortened :
      (c : Combat) (r : Result Error (List Event))
      → Trimmed json_length event_length lengths
          (record (whole c) { death_coverage = capped })
          (reverse c.deaths)
          r
      → Fitted json_length c (
          r >>= λ deaths. ok (
            with_deaths json_length event_length
              (record (whole c) { death_coverage = capped })
              (reverse deaths)))
  shortened c (ok kept) (fits, (out, parts)) =
      (fits, (reverse out, oldest c.deaths out kept parts), refl, inr refl)
  shortened c (err e) h = h

  -- If a JSON array grows by the text of its new element and the comma before it, then `product`
  -- gives a product of at most 983040 bytes that differs from the whole one at most in that the
  -- newest deaths are left out and the coverage of deaths says capped; where it gives an error,
  -- that is the one for the budget, and the product without deaths is over the budget.
  pub product-Fitted : (c : Combat) → Fitted json_length c (product json_length event_length c)
  unfolding product shorten whole
  product-Fitted c = elim (Bool-cases (ltb budget (json_length (whole c)))) [
    | inl over ↦ rw over (
        shortened c _ (
          trim-Trimmed json_length event_length lengths
            (record (whole c) { death_coverage = capped }) (reverse c.deaths) _
            (rw (reverse-reverse c.deaths) refl)))
    | inr fits ↦ rw fits (ground arith, ([], append-nothing c.deaths), refl, inl (refl, refl))
  ]
