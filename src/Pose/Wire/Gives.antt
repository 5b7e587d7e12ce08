-- ===== src/Pose/Wire/Gives.antt =====
-- When a reading action takes exactly some bytes, whatever is behind them.
use mathlib.Core.List.{append_assoc}
use halospawns_infra.Prelude.{ℕ, ◌≡◌, refl, ◌^◌, ◌<◌, List, [], ◌∷◌, ◌++◌}
use halospawns_infra.Prelude.Results.{ok}
use halospawns_infra.Pose.Wire.{M, ◌>>=◌, pure, u8, u16, write_u16}
use halospawns_infra.Pose.Wire.Bytes.{u8-byte, u16-write}

pub record Gives {A : Type 0} (r : M A) (out : List ℕ) (a : A) : Type 0 where
  pub gives : (rest : List ℕ) → r (out ++ rest) ≡ ok (a, rest)

pub Gives-bind :
    {A B : Type 0} {out more : List ℕ} {a : A} {b : B} (r : M A) (f : A → M B)
    → Gives r out a
    → Gives (f a) more b
    → Gives (r >>= f) (out ++ more) b
Gives-bind {out = out} {more = more} r f h k = record {
  gives = λ rest. rw (append_assoc out more rest, h.gives (more ++ rest)) (k.gives rest);
}

-- Reading that takes no bytes may follow.
pub Gives-then :
    {A B : Type 0} {out : List ℕ} {a : A} {b : B} (r : M A) (f : A → M B)
    → Gives r out a
    → Gives (f a) [] b
    → Gives (r >>= f) out b
Gives-then r f h k = record { gives = λ rest. rw (h.gives rest) (k.gives rest) }

pub Gives-pure : {A : Type 0} (a : A) → Gives (pure a) [] a
Gives-pure a = record { gives = λ rest. refl }

pub Gives-u8 : (b : ℕ) → Gives u8 (b ∷ []) b
Gives-u8 b = record { gives = λ rest. u8-byte b rest }

pub Gives-u16 : (v : ℕ) → v < 2 ^ 16 → Gives u16 (write_u16 v) v
Gives-u16 v h = record { gives = λ rest. u16-write v rest h }
