-- ===== src/Film/Combat/Run.antt =====
-- How main.rs of lambda/h1_film/encoder/src uses combat.rs at analytics revision 4:
-- `observe` of every tick in turn, then `product`. What else it does with a tick is left out.
use halospawns_infra.Prelude.{
  ℕ, ◌+◌, ◌≤◌, ◌≡◌, ap, Bool, List, [], ◌∷◌, length, length-append, arith,
}
use halospawns_infra.Prelude.Results.{Result, ok, err, ◌>>=◌}
use halospawns_infra.Delta.Codes.{Text}
use halospawns_infra.Film.Combat.{Error, Amounts, Tick, Event, Combat, ShotKey, new}
use halospawns_infra.Film.Combat.Observe.{observe}
use halospawns_infra.Film.Combat.Outcomes.{max_deaths}
use halospawns_infra.Film.Combat.Kept.{Kept, >>=-Kept}
use halospawns_infra.Film.Combat.Lineage.{fired_at, hits_at}
use halospawns_infra.Film.Combat.Sound.{IsSound, new-IsSound}
use halospawns_infra.Film.Combat.Sound.Observe.{observe-IsSound}
use halospawns_infra.Film.Combat.Product.{Product, whole, product, budget}
use halospawns_infra.Film.Combat.Product.Fits.{Lengths, Fitted, product-Fitted}

module _ (A : Amounts) (count_chars : Text → ℕ) where
  -- `combat.observe(&tick, count)?`, for each tick
  unfoldable pub observe_ticks : List Tick → ℕ → Combat → Result Error Combat
  unfolding observe
  observe_ticks [] count c = ok c
  observe_ticks (tick ∷ ticks) count c =
      observe A count_chars tick count c >>= observe_ticks ticks (count + 1)

  observe_ticks-IsSound :
      (ticks : List Tick) (count : ℕ) (c : Combat)
      → IsSound c
      → Kept IsSound (observe_ticks ticks count c)
  unfolding observe_ticks
  observe_ticks-IsSound [] count c s = s
  observe_ticks-IsSound (tick ∷ ticks) count c s =
      >>=-Kept IsSound IsSound (observe A count_chars tick count c) _
        (observe-IsSound A count_chars tick count c s)
        (λ d h. observe_ticks-IsSound ticks (count + 1) d h)

  module _ (json_length : Product → ℕ) (event_length : Event → ℕ) where
    -- From `Combat::new` to `combat.product()?`.
    unfoldable pub film_product : Bool → List Tick → Result Error Product
    unfolding observe_ticks product
    film_product network_recording ticks =
        observe_ticks ticks 0 (new network_recording) >>= product json_length event_length

-- No weapon of a slot has more hits than shots, and the product is within its limits.
pub record IsReport (json_length : Product → ℕ) (p : Product) : Type 0 where
  pub hits : (k : ShotKey) → hits_at k p.shots ≤ fired_at k p.shots
  pub few_deaths : length p.deaths ≤ max_deaths
  pub few_bytes : json_length p ≤ budget

report :
    (json_length : Product → ℕ) (c : Combat) (r : Result Error Product)
    → IsSound c
    → Fitted json_length c r
    → Kept (IsReport json_length) r
unfolding whole
report json_length c (ok p) s (fits, (out, parts), same, rest) =
    let same_shots : p.shots ≡ c.shots = ap (λ q. q.shots) same in
    record {
      hits = λ k. rw same_shots (omega (arith, s.traced.accounted k));
      few_deaths = omega (arith, s.few_deaths, ap length parts, length-append p.deaths out);
      few_bytes = fits;
    }
report json_length c (err e) s (refused, over) = λ q. cc

-- If a JSON array grows by the text of its new element and the comma before it, then for every
-- list of ticks, `observe` of each in turn on a new state and then `product` give a product in
-- which no weapon of a slot has more hits than shots, with at most 8192 deaths and 983040 bytes,
-- or an error that is no failed `unwrap` and no subtraction below 0.
pub film_product-IsReport :
    (A : Amounts) (count_chars : Text → ℕ) {json_length : Product → ℕ} {event_length : Event → ℕ}
    → Lengths json_length event_length
    → (network_recording : Bool) (ticks : List Tick)
    → Kept
        (IsReport json_length)
        (film_product A count_chars json_length event_length network_recording ticks)
unfolding film_product
film_product-IsReport A count_chars {json_length} {event_length} lengths network_recording ticks =
    >>=-Kept IsSound (IsReport json_length) _ (product json_length event_length)
      (observe_ticks-IsSound A count_chars ticks 0 (new network_recording)
        (new-IsSound network_recording))
      (λ c s. report json_length c _ s (product-Fitted lengths c))
