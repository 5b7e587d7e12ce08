-- ===== src/Parser/Reduce/Ready.antt =====
-- What is waiting and what is absorbed, while the messages of the workers come in.
use halospawns_infra.Prelude.{
  ℕ, zero, suc, ◌≤◌, ◌<◌, ◌^◌, ◌≡◌, refl, Bool, true, false, ◌&&◌, none, some, [], ◌∷◌, length,
  arith, Bool-cases, Option-cases, inl, inr, lt→ltb, leb, if◌then◌else◌,
}
use halospawns_infra.Prelude.Results.{Result, ok, err, ◌>>=◌, Result-cases}
use halospawns_infra.Prelude.OrderedMap.{BTreeMap, number_order, get, remove}
use halospawns_infra.Prelude.OrderedMap.Laws.{number_order-IsExact, get-remove, length-remove-lt}
use halospawns_infra.Delta.Codes.{Text}
use halospawns_infra.Parser.Reduce.{Error, Reduction, absorb_tick, absorb_next, absorb_ready}

nothing_in : {V : Type 0} (m : BTreeMap ℕ V) (i : ℕ) → length m ≤ 0 → get number_order i m ≡ none
unfolding get
nothing_in [] i h = refl
nothing_in (e ∷ m) i h = absurd (omega arith)

module _ {P O : Type 0} (absorb : P → O → Result Error O) (default : O)
    (item : ℕ → Result Text P) where
  -- The first ticks, one after the other.
  unfoldable pub in_order : ℕ → Result Error O
  in_order zero = ok default
  in_order (suc k) = in_order k >>= absorb_tick absorb k (item k)

  -- Nothing comes behind an error.
  pub in_order_stops : (k m : ℕ) (e : Error) → k ≤ m → in_order k ≡ err e → in_order m ≡ err e
  unfolding in_order
  in_order_stops k zero e le h = let start : k ≡ 0 = omega arith in rw start at h
  in_order_stops k (suc m) e le h = elim (Bool-cases (leb k m)) [
    | inl before ↦ rw (in_order_stops k m e (ground arith) h) refl
    | inr last ↦ (let same : k ≡ suc m = ground arith in rw same at h)
  ]

  -- All ticks before the next one are absorbed, and the others that came are waiting.
  pub record IsReady (got : ℕ → Bool) (r : Reduction P O) : Type 0 where
    pub absorbed : in_order r.next_index ≡ ok r.output
    pub waiting :
        (i : ℕ)
        → get number_order i r.pending
          ≡ (if got i && leb r.next_index i then some (item i) else none)
    pub behind : (i : ℕ) → i < r.next_index → got i ≡ true

  -- The next tick has not come, or some tick ended the reduction.
  abbrev pub Settled : (ℕ → Bool) → Result Error (Reduction P O) → Type 0
  Settled got (ok r) = IsReady got r × (got r.next_index ≡ false)
  Settled got (err e) = (k : ℕ) × (in_order (suc k) ≡ err e) × (got k ≡ true)

  module _ (n : ℕ) (small : n < 2 ^ 64) (got : ℕ → Bool)
      (inside : (i : ℕ) → got i ≡ true → i < n) where
    waits-next :
        (r : Reduction P O) (v : Result Text P)
        → IsReady got r
        → get number_order r.next_index r.pending ≡ some v
        → (got r.next_index ≡ true) × (v ≡ item r.next_index)
    waits-next r v s e = ground (arith, s.waiting r.next_index)

    idle-next :
        (r : Reduction P O)
        → IsReady got r
        → get number_order r.next_index r.pending ≡ none
        → got r.next_index ≡ false
    idle-next r s e = ground (arith, s.waiting r.next_index)

    step-IsReady :
        (r : Reduction P O) (output : O)
        → IsReady got r
        → got r.next_index ≡ true
        → absorb_tick absorb r.next_index (item r.next_index) r.output ≡ ok output
        → IsReady got (record {
          output = output;
          pending = remove number_order r.next_index r.pending;
          next_index = suc r.next_index;
        })
    unfolding in_order
    step-IsReady r output s here e = record {
      absorbed = rw s.absorbed e;
      waiting = λ i.
          rw (get-remove number_order-IsExact i r.next_index r.pending, s.waiting i) (ground arith);
      behind = λ i lt. ground (arith, s.behind i, here);
    }

    stops :
        (r : Reduction P O) (x : Error)
        → IsReady got r
        → absorb_tick absorb r.next_index (item r.next_index) r.output ≡ err x
        → in_order (suc r.next_index) ≡ err x
    unfolding in_order
    stops r x s e = rw s.absorbed e

    pub absorb_ready-Settled :
        (rounds : ℕ) (r : Reduction P O)
        → length r.pending ≤ rounds
        → IsReady got r
        → Settled got (absorb_ready absorb rounds r)
    unfolding absorb_ready absorb_next
    absorb_ready-Settled zero r h s =
        (s, idle-next r s (nothing_in r.pending r.next_index (omega arith)))
    absorb_ready-Settled (suc rounds) r h s =
        elim (Option-cases (get number_order r.next_index r.pending)) [
          | inl idle ↦ rw (idle, absorb_ready) (s, idle-next r s idle)
          | inr (v, found) ↦
              let (here, is) = waits-next r v s found in
              elim (Result-cases (absorb_tick absorb r.next_index (item r.next_index) r.output)) [
                | inl (output, done) ↦
                    rw
                      (
                        found,
                        absorb_ready,
                        is,
                        done,
                        lt→ltb (suc r.next_index) (2 ^ 64)
                            (omega (arith, inside r.next_index here)),
                      )
                      (absorb_ready-Settled rounds _
                        (omega (
                          arith,
                          length-remove-lt number_order-IsExact r.next_index v r.pending found,
                          h,
                        ))
                        (step-IsReady r output s here done))
                | inr (x, failed) ↦
                    rw (found, absorb_ready, is, failed) (r.next_index, stops r x s failed, here)
              ]
        ]
