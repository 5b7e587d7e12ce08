-- ===== src/Parser/Reduce.antt =====
-- `reduce_tick_results` and `absorb_ready_ticks` of lambda/replay_parser/native/src/main.rs: the workers send
-- their ticks in any order, and the reducer absorbs them in the order of the source. What it does with one
-- tick (the viewer's ingest and `Ticks::absorb`) is a parameter, and durations are left out.
pub mod Ready
pub mod InOrder
use halospawns_infra.Prelude.{
  ℕ, zero, suc, ◌^◌, Bool, true, false, Option, none, some, List, [], ◌∷◌, length, ltb,
  if◌then◌else◌,
}
use halospawns_infra.Prelude.Results.{Result, ok, err, ◌>>=◌}
use halospawns_infra.Prelude.OrderedMap.{BTreeMap, number_order, get, insert, remove, contains_key}
use halospawns_infra.Delta.Codes.{Text}

-- `worker` carries the number of the tick and the message of its error.
pub data Error : Type 0 where
  worker : ℕ → Text → Error
  ingest : Text → Error
  index_overflow duplicate_tick not_contiguous : Error

-- The locals of `reduce_tick_results`.
pub record Reduction (P O : Type 0) : Type 0 where
  pub output : O
  pub pending : BTreeMap ℕ (Result Text P)
  pub next_index : ℕ

pub record Reducer (P O : Type 0) : Type 0 where
  pub state : Reduction P O
  pub first_error : Option Error

-- The end of `reduce_tick_results`.
abbrev pub finish_pending : {P O : Type 0} → BTreeMap ℕ (Result Text P) → O → Result Error O
finish_pending [] output = ok output
finish_pending (e ∷ m) output = err not_contiguous

abbrev pub finish : {P O : Type 0} → Option Error → Reduction P O → Result Error O
finish (some e) r = err e
finish none r = finish_pending r.pending r.output

module _ {P O : Type 0} (absorb : P → O → Result Error O) where
  -- One tick, with the error of its worker; `index` is `*next_index`.
  unfoldable pub absorb_tick : ℕ → Result Text P → O → Result Error O
  absorb_tick index (err e) output = err (worker index e)
  absorb_tick index (ok parsed) output = absorb parsed output

  -- The body of `while let Some(result) = pending.remove(next_index)`.
  unfoldable pub absorb_next : Result Text P → Reduction P O → Result Error (Reduction P O)
  unfolding absorb_tick
  absorb_next result r = absorb_tick r.next_index result r.output >>= λ output.
      if ltb (suc r.next_index) (2 ^ 64)
      then ok (record {
        output = output;
        pending = remove number_order r.next_index r.pending;
        next_index = suc r.next_index;
      })
      else err index_overflow

  -- fn absorb_ready_ticks; each round takes an entry of `pending` away, of which there are `rounds` at most.
  unfoldable pub absorb_ready : ℕ → Reduction P O → Result Error (Reduction P O)
  unfolding absorb_next
  absorb_ready zero r = ok r
  absorb_ready (suc rounds) r = elim (get number_order r.next_index r.pending) [
    | none ↦ ok r
    | some result ↦ absorb_next result r >>= λ next. absorb_ready rounds next
  ]

  -- `pending.insert(..)`, and the loop over what is ready
  unfoldable pub accept : ℕ → Result Text P → Reduction P O → Result Error (Reduction P O)
  unfolding absorb_ready
  accept index result r =
      let pending = insert number_order index result r.pending in
      if contains_key number_order index r.pending
      then err duplicate_tick
      else absorb_ready (length pending) (record r { pending = pending })

  -- `if let Err(error) = result`
  unfoldable pub settle : Reduction P O → Result Error (Reduction P O) → Reducer P O
  settle r (ok next) = record { state = next; first_error = none }
  settle r (err e) = record { state = record r { pending = [] }; first_error = some e }

  -- One message.
  unfoldable pub receive : ℕ → Result Text P → Reduction P O → Option Error → Reducer P O
  unfolding accept settle
  receive index result r none = settle r (accept index result r)
  receive index result r (some e) = record { state = r; first_error = some e }

  -- `while let Ok(message) = results.recv()`
  unfoldable pub receive_all : List (ℕ × Result Text P) → Reducer P O → Reducer P O
  unfolding receive
  receive_all [] s = s
  receive_all ((index, result) ∷ messages) s =
      receive_all messages (receive index result s.state s.first_error)

  -- fn reduce_tick_results
  unfoldable pub reduce : O → List (ℕ × Result Text P) → Result Error O
  unfolding receive_all
  reduce default messages =
      let start : Reduction P O = record { output = default; pending = []; next_index = 0 } in
      let s = receive_all messages (record { state = start; first_error = none }) in
      finish s.first_error s.state
