-- ===== src/Parser/Reduce/InOrder.antt =====
-- `reduce_tick_results` of main.rs for messages that come in any order.
use halospawns_infra.Prelude.{
  ℕ, suc, ◌+◌, ◌<◌, ◌^◌, ◌≡◌, refl, sym, ◌∙◌, Bool, true, false, ◌||◌, Option, none, some, List, [],
  ◌∷◌, map, arith, Bool-cases, inl, inr, ltb, ltb→lt, ◌==◌, if◌then◌else◌,
}
use mathlib.Core.Path.{subst, fun_ext}
use halospawns_infra.Prelude.Results.{Result, ok, err}
use halospawns_infra.Prelude.OrderedMap.{number_order, get, insert}
use halospawns_infra.Prelude.OrderedMap.Laws.{number_order-IsExact, get-insert, empty_map}
use halospawns_infra.Delta.Codes.{Text}
use halospawns_infra.Parser.Reduce.{
  Error, Reduction, Reducer, accept, settle, receive, receive_all, reduce, finish,
}
use halospawns_infra.Parser.Reduce.Ready.{
  in_order, in_order_stops, IsReady, Settled, absorb_ready-Settled,
}

-- How often a tick's message arrives.
unfoldable pub occurs : ℕ → List ℕ → ℕ
occurs j [] = 0
occurs j (i ∷ is) = (if i == j then 1 else 0) + occurs j is

-- Each tick before the n-th arrives once, and no other.
abbrev pub ArriveOnce : ℕ → List ℕ → Type 0
ArriveOnce n arrivals = (j : ℕ) → occurs j arrivals ≡ (if ltb j n then 1 else 0)

abbrev with_tick : (ℕ → Bool) → ℕ → ℕ → Bool
with_tick got i j = got j || (i == j)

end_at : (next n : ℕ) → ltb next n ≡ false → (n < next → ltb n n ≡ true) → next ≡ n
end_at next n idle behind = elim (Bool-cases (ltb n next)) [
  | inl past ↦ absurd (ground (arith, behind (ltb→lt n next past)))
  | inr not_past ↦ ground arith
]

all_came : (b c : Bool) → (if b then 1 else 0) + 0 ≡ (if c then 1 else 0) → b ≡ c
all_came b c e = ground arith

module _ {P O : Type 0} (absorb : P → O → Result Error O) (default : O)
    (item : ℕ → Result Text P) where
  insert-IsReady :
      (got : ℕ → Bool) (i : ℕ) (r : Reduction P O)
      → IsReady absorb default item got r
      → got i ≡ false
      → IsReady absorb default item
          (with_tick got i)
          (record r { pending = insert number_order i (item i) r.pending })
  insert-IsReady got i r s new = record {
    absorbed = s.absorbed;
    waiting = λ j.
        rw (get-insert number_order-IsExact j i (item i) r.pending, s.waiting j)
          (ground (arith, s.behind i));
    behind = λ j lt. ground (arith, s.behind j);
  }

  -- What holds of the reducer when some ticks have come.
  abbrev Held : (ℕ → Bool) → Option Error → Reduction P O → Type 0
  Held got none r = IsReady absorb default item got r × (got r.next_index ≡ false)
  Held got (some e) r = (k : ℕ) × (in_order absorb default item (suc k) ≡ err e) × (got k ≡ true)

  abbrev HeldBy : (ℕ → Bool) → Reducer P O → Type 0
  HeldBy got s = Held got s.first_error s.state

  module _ (n : ℕ) (small : n < 2 ^ 64) where
    settle-Held :
        (got : ℕ → Bool) (r : Reduction P O) (o : Result Error (Reduction P O))
        → Settled absorb default item got o
        → HeldBy got (settle absorb r o)
    unfolding settle
    settle-Held got r (ok next) h = h
    settle-Held got r (err e) h = h

    receive-Held :
        (got : ℕ → Bool) (i : ℕ) (r : Reduction P O) (o : Option Error)
        → ((j : ℕ) → with_tick got i j ≡ true → j < n)
        → got i ≡ false
        → Held got o r
        → HeldBy (with_tick got i) (receive absorb i (item i) r o)
    unfolding receive accept
    receive-Held got i r (some e) inside new (k, stopped, here) = (k, stopped, rw here refl)
    receive-Held got i r none inside new (s, idle) =
        let absent : get number_order i r.pending ≡ none = ground (arith, s.waiting i) in
        rw absent (
          settle-Held (with_tick got i) r _ (
            absorb_ready-Settled absorb default item n small (with_tick got i) inside _ _
              (omega arith) (insert-IsReady got i r s new)))

    all-Held :
        (left : List ℕ) (got : ℕ → Bool) (s : Reducer P O)
        → ((j : ℕ) → (if got j then 1 else 0) + occurs j left ≡ (if ltb j n then 1 else 0))
        → HeldBy got s
        → HeldBy (λ j. ltb j n) (receive_all absorb (map (λ i. (i, item i)) left) s)
    unfolding receive_all occurs
    all-Held [] got s once h =
        subst (λ g. HeldBy g s) (fun_ext (λ j. all_came (got j) (ltb j n) (once j))) h
    all-Held (i ∷ left) got s once h =
        all-Held left (with_tick got i) (receive absorb i (item i) s.state s.first_error)
          (λ j. ground (arith, once j))
          (receive-Held got i s.state s.first_error (λ j e. ground (arith, once j))
            (ground (arith, once i)) h)

    finish-in_order :
        (r : Reduction P O) (o : Option Error)
        → Held (λ j. ltb j n) o r
        → finish o r ≡ in_order absorb default item n
    finish-in_order r (some e) (k, stopped, here) =
        sym (in_order_stops absorb default item (suc k) n e (ground arith) stopped)
    finish-in_order r none (s, idle) =
        let last : r.next_index ≡ n = end_at r.next_index n idle (s.behind n) in
        let nothing : r.pending ≡ [] =
          empty_map number_order-IsExact r.pending (λ j. s.waiting j ∙ ground arith) in
        rw (nothing, ← last) (sym s.absorbed)

  -- If there are less than 2^64 ticks and the message of each arrives once and no other does, then
  -- `reduce_tick_results` gives, in whatever order they arrive, what absorbing the ticks in the
  -- order of the source gives: the same output, or the first error of the ticks in that order.
  pub reduce-in_order :
      (n : ℕ) (arrivals : List ℕ)
      → n < 2 ^ 64
      → ArriveOnce n arrivals
      → reduce absorb default (map (λ i. (i, item i)) arrivals) ≡ in_order absorb default item n
  unfolding reduce in_order get
  reduce-in_order n arrivals small once = finish-in_order n small _ _ (
      all-Held n small arrivals (λ j. false)
        (record {
          state = record { output = default; pending = []; next_index = 0 };
          first_error = none;
        })
        (λ j. omega (arith, once j))
        (
          record { absorbed = refl; waiting = λ j. refl; behind = λ j lt. absurd (omega arith) },
          refl,
        ))
