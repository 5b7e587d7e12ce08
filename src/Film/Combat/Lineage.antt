-- ===== src/Film/Combat/Lineage.antt =====
-- The shots of combat.rs and the discharges that a hit can still be traced to.
use halospawns_infra.Prelude.{
  ℕ, ◌+◌, ◌%◌, ◌^◌, ◌≤◌, ◌<◌, ◌≡◌, refl, Bool, true, false, ◌&&◌, not, none, some, [], ◌∷◌, arith,
  All, Bool-cases, inl, inr, if◌then◌else◌,
}
use halospawns_infra.Prelude.OrderedMap.{
  BTreeMap, number_order, get, get_or, insert, replace, pop_first,
}
use halospawns_infra.Prelude.OrderedMap.Laws.{
  IsExact, number_order-IsExact, pair_order-IsExact, get-insert, count, count-place, count-replace,
  insert_new, All-insert, get-All, All-replace,
}
use halospawns_infra.Delta.Wire.{text_eq_sound, text_eq_refl}
use halospawns_infra.Film.Combat.{ShotKey, shot_order, text_order}

pub text_order-IsExact : IsExact text_order
text_order-IsExact = record { same_sound = text_eq_sound; same_refl = text_eq_refl }

pub shot_order-IsExact : IsExact shot_order
shot_order-IsExact = pair_order-IsExact number_order-IsExact text_order-IsExact

abbrev pub Shots : Type 0
Shots = BTreeMap ShotKey (ℕ × ℕ)

abbrev pub Discharges : Type 0
Discharges = BTreeMap ℕ (ShotKey × Bool)

unfoldable pub fired_at : ShotKey → Shots → ℕ
fired_at k shots = (get_or (get shot_order k shots) (0, 0)).0

unfoldable pub hits_at : ShotKey → Shots → ℕ
hits_at k shots = (get_or (get shot_order k shots) (0, 0)).1

-- A discharge of a slot's weapon that has not hit.
abbrev pub is_pending : ShotKey → ℕ × (ShotKey × Bool) → Bool
is_pending k e = shot_order.same e.1.0 k && not e.1.1

unfoldable pub pending : ShotKey → Discharges → ℕ
pending k = count number_order (is_pending k)

-- Each discharge that is kept has a number up to the last one, and with the hits that are counted there
-- are not more discharges without a hit than shots fired.
pub record Traced (shots : Shots) (discharges : Discharges) (last : ℕ) : Type 0 where
  pub numbered : All (λ e. e.0 ≤ last) discharges
  pub accounted : (k : ShotKey) → hits_at k shots + pending k discharges ≤ fired_at k shots
  pub fits : (k : ShotKey) → fired_at k shots < 2 ^ 32

-- The oldest discharge is forgotten.
pub pop_first-Traced :
    {shots : Shots} (discharges : Discharges) {last : ℕ}
    → Traced shots discharges last
    → Traced shots (pop_first discharges) last
unfolding count pending
pop_first-Traced [] t = t
pop_first-Traced (e ∷ discharges) t = record {
  numbered = t.numbered.1;
  accounted = λ k. omega (arith, t.accounted k);
  fits = t.fits;
}

All-le :
    (discharges : Discharges) (a b : ℕ)
    → a ≤ b
    → All (λ e. e.0 ≤ a) discharges
    → All (λ e. e.0 ≤ b) discharges
All-le [] a b h all = tt
All-le (e ∷ discharges) a b h (x, all) = (omega arith, All-le discharges a b h all)

-- A number behind the last one is new.
unused :
    (discharges : Discharges) (last id : ℕ)
    → last < id
    → All (λ e. e.0 ≤ last) discharges
    → get number_order id discharges ≡ none
unfolding get
unused [] last id h all = refl
unused ((j, v) ∷ discharges) last id h (x, all) = ground (arith, unused discharges last id h all)

-- What a map of shots has after an insertion.
fired_at-insert :
    (key k : ShotKey) (v : ℕ × ℕ) (shots : Shots)
    → fired_at k (insert shot_order key v shots)
      ≡ (if shot_order.same key k then v.0 else fired_at k shots)
unfolding fired_at
fired_at-insert key k v shots =
    rw (get-insert shot_order-IsExact k key v shots, fired_at) (ground arith)

hits_at-insert :
    (key k : ShotKey) (v : ℕ × ℕ) (shots : Shots)
    → hits_at k (insert shot_order key v shots)
      ≡ (if shot_order.same key k then v.1 else hits_at k shots)
unfolding hits_at
hits_at-insert key k v shots =
    rw (get-insert shot_order-IsExact k key v shots, hits_at) (ground arith)

-- Replacing the entry of a key that is there is an insertion.
insert_known :
    (key : ShotKey) (v w : ℕ × ℕ) (shots : Shots)
    → get shot_order key shots ≡ some w
    → replace shot_order key v shots ≡ insert shot_order key v shots
unfolding insert
insert_known key v w shots e = rw e refl

pending-insert :
    (key k : ShotKey) (id : ℕ) (discharges : Discharges)
    → get number_order id discharges ≡ none
    → pending k (insert number_order id (key, false) discharges)
      ≡ (if shot_order.same key k then 1 else 0) + pending k discharges
unfolding pending
pending-insert key k id discharges e =
    rw (insert_new number_order id (key, false) discharges e)
      (rw (count-place number_order (is_pending k) id (key, false) discharges) (ground arith))

pending-replace :
    (key k : ShotKey) (id : ℕ) (discharges : Discharges)
    → get number_order id discharges ≡ some (key, false)
    → pending k (replace number_order id (key, true) discharges)
        + (if shot_order.same key k then 1 else 0)
      ≡ pending k discharges
unfolding pending
pending-replace key k id discharges e =
    let c =
      count-replace number_order (is_pending k) number_order-IsExact id (key, true) (key, false)
        discharges e in
    ground (arith, c)

pending_marked :
    (key : ShotKey) (id : ℕ) (discharges : Discharges)
    → get number_order id discharges ≡ some (key, false)
    → pending key (replace number_order id (key, true) discharges) + 1 ≡ pending key discharges
pending_marked key id discharges e =
    let one = pending-replace key key id discharges e in
    rw (shot_order-IsExact.same_refl key) at one

-- A shot is fired, under a number behind the last one.
pub fired-Traced :
    (key : ShotKey) {shots : Shots} {discharges : Discharges} {last : ℕ} (id : ℕ)
    → last < id
    → fired_at key shots + 1 < 2 ^ 32
    → Traced shots discharges last
    → Traced
        (insert shot_order key (fired_at key shots + 1, hits_at key shots) shots)
        (insert number_order id (key, false) discharges)
        id
fired-Traced key {shots} {discharges} {last} id later small t = record {
  numbered =
      All-insert (λ e. e.0 ≤ id) number_order-IsExact id (key, false) discharges (omega arith)
        (All-le discharges last id (omega arith) t.numbered);
  accounted = λ k.
      rw
        (
          fired_at-insert,
          hits_at-insert,
          pending-insert key k id discharges (unused discharges last id later t.numbered),
        )
        (elim (Bool-cases (shot_order.same key k)) [
          | inl e ↦ rw e (rw (shot_order-IsExact.same_sound key k e) (omega (arith, t.accounted k)))
          | inr e ↦ rw e (omega (arith, t.accounted k))
        ]);
  fits = λ k.
      rw (fired_at-insert) (elim (Bool-cases (shot_order.same key k)) [
        | inl e ↦ rw e small
        | inr e ↦ rw e (t.fits k)
      ]);
}

-- A discharge that has not hit leaves room for one more hit.
room :
    (key : ShotKey) {shots : Shots} {discharges : Discharges} {last : ℕ} (id : ℕ)
    → get number_order id discharges ≡ some (key, false)
    → Traced shots discharges last
    → hits_at key shots < fired_at key shots
room key {shots} {discharges} id is_kept t =
    omega (arith, t.accounted key, pending_marked key id discharges is_kept)

-- The entry of a discharge without a hit is there.
pub shot_known :
    (key : ShotKey) {shots : Shots} {discharges : Discharges} {last : ℕ} (id : ℕ)
    → get number_order id discharges ≡ some (key, false)
    → Traced shots discharges last
    → ¬ (get shot_order key shots ≡ none)
unfolding fired_at hits_at
shot_known key id is_kept t absent =
    let r = room key id is_kept t in omega (arith, rw (absent, fired_at, hits_at) at r)

entry_at :
    (key : ShotKey) (shots : Shots) (fired hits : ℕ)
    → get shot_order key shots ≡ some (fired, hits)
    → (fired_at key shots ≡ fired) × (hits_at key shots ≡ hits)
unfolding fired_at hits_at
entry_at key shots fired hits e = (rw (e, fired_at) refl, rw (e, hits_at) refl)

-- A discharge hits for the first time.
pub hit-Traced :
    (key : ShotKey) {shots : Shots} {discharges : Discharges} {last : ℕ} (id fired hits : ℕ)
    → get number_order id discharges ≡ some (key, false)
    → get shot_order key shots ≡ some (fired, hits)
    → Traced shots discharges last
    → Traced
        (replace shot_order key (fired, (hits + 1) % 2 ^ 32) shots)
        (replace number_order id (key, true) discharges)
        last
hit-Traced key {shots} {discharges} {last} id fired hits is_kept is_shot t =
    let below = room key id is_kept t in
    let one = pending_marked key id discharges is_kept in
    let entry = entry_at key shots fired hits is_shot in
    let f : fired_at key shots ≡ fired = entry.0 in
    let h : hits_at key shots ≡ hits = entry.1 in
    let exact : (hits + 1) % 2 ^ 32 ≡ hits + 1 = omega (arith, t.fits key, below, f, h) in
    rw (exact, insert_known key (fired, hits + 1) (fired, hits) shots is_shot)
      record {
        numbered =
            All-replace (λ e. e.0 ≤ last) number_order-IsExact id (key, true) discharges
              (get-All (λ e. e.0 ≤ last) number_order-IsExact id (key, false) discharges is_kept
                t.numbered)
              t.numbered;
        accounted = λ k.
            rw (fired_at-insert, hits_at-insert)
              (let p = pending-replace key k id discharges is_kept in
                elim (Bool-cases (shot_order.same key k)) [
                  | inl e ↦ rw e (
                      rw (← shot_order-IsExact.same_sound key k e)
                        (omega (arith, t.accounted key, one, f, h)))
                  | inr e ↦ rw e (omega (arith, t.accounted k, rw e at p))
                ]);
        fits = λ k. rw (fired_at-insert) (elim (Bool-cases (shot_order.same key k)) [
          | inl e ↦ rw e (omega (arith, t.fits key, f))
          | inr e ↦ rw e (t.fits k)
        ]);
      }
