-- ===== src/Film/Combat/Kept.antt =====
-- What holds of a result of combat.rs: a state with a property, or an error that is not a panic.
use halospawns_infra.Prelude.{
  ◌≢◌, Bool, true, false, Option, none, some, List, [], ◌∷◌, if◌then◌else◌,
}
use halospawns_infra.Prelude.Results.{Result, ok, err, ◌>>=◌}
use halospawns_infra.Prelude.OrderedMap.{contains_key, number_order}
use halospawns_infra.Film.Combat.{
  Error, Combat, panic, each, slot, weapon, text_order, unknown_slot, unknown_weapon,
}
use halospawns_infra.Film.Combat.Events.{refuse_if, ◌>>◌}

abbrev pub Kept : {S : Type 0} → (S → Type 0) → Result Error S → Type 0
Kept P (ok s) = P s
Kept P (err e) = e ≢ panic

pub >>=-Kept :
    {S T : Type 0} (P : S → Type 0) (Q : T → Type 0) (m : Result Error S) (f : S → Result Error T)
    → Kept P m
    → ((s : S) → P s → Kept Q (f s))
    → Kept Q (m >>= f)
>>=-Kept P Q (ok s) f h k = k s h
>>=-Kept P Q (err e) f h k = h

-- A check gives nothing, and does not panic.
abbrev pub IsCheck : Result Error (Unit {0}) → Type 0
IsCheck = Kept (λ _. Unit {0})

pub >>-Kept :
    {T : Type 0} (Q : T → Type 0) (m : Result Error (Unit {0})) (rest : Result Error T)
    → IsCheck m
    → Kept Q rest
    → Kept Q (m >> rest)
>>-Kept Q (ok tt) rest h k = k
>>-Kept Q (err e) rest h k = h

pub refuse_if-IsCheck : (b : Bool) (e : Error) → e ≢ panic → IsCheck (refuse_if b e)
refuse_if-IsCheck true e h = h
refuse_if-IsCheck false e h = tt

pub each-Kept :
    {A S : Type 0} (P : S → Type 0) (body : A → S → Result Error S)
    → ((x : A) (s : S) → P s → Kept P (body x s))
    → (xs : List A) (s : S) → P s
    → Kept P (each body xs s)
unfolding each
each-Kept P body keep [] s h = h
each-Kept P body keep (x ∷ xs) s h =
    >>=-Kept P P (body x s) (each body xs) (keep x s h) (λ s' h'. each-Kept P body keep xs s' h')

if-IsCheck : (b : Bool) (e : Error) → e ≢ panic → IsCheck (if b then ok tt else err e)
if-IsCheck true e h = tt
if-IsCheck false e h = h

pub slot-IsCheck : (c : Combat) (s : Option _) → IsCheck (slot c s)
unfolding slot
slot-IsCheck c none = tt
slot-IsCheck c (some s) = if-IsCheck (contains_key number_order s c.slots) unknown_slot (λ e. cc)

pub weapon-IsCheck : (c : Combat) (w : Option _) → IsCheck (weapon c w)
unfolding weapon
weapon-IsCheck c none = tt
weapon-IsCheck c (some w) =
    if-IsCheck (contains_key text_order w c.weapons) unknown_weapon (λ e. cc)
