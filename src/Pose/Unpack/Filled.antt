-- ===== src/Pose/Unpack/Filled.antt =====
-- The channels of a run, put into frames of zeros, are the values of its frames.
use mathlib.Core.List.{append_assoc}
use halospawns_infra.Prelude.{
  ℕ, zero, suc, ◌+◌, ◌≡◌, ◌≤◌, refl, sym, ap, ◌∙◌, some, List, [], ◌∷◌, ◌++◌, map, length,
  replicate, All, set, get_elem?, length-append, arith,
}
use halospawns_infra.Prelude.Int.{ℤ, pos}
use halospawns_infra.Pose.Wire.Bytes.{IsI32}
use halospawns_infra.Pose.Wire.Gives.{Gives, Gives-bind, Gives-pure}
use halospawns_infra.Pose.Runs.{Frame, or_zero, value_at, channel, write_channels, write_nodes}
use halospawns_infra.Pose.Runs.Verified.{length-channel, Gives-track}
use halospawns_infra.Pose.Unpack.{Grid, put_value, put_channel, read_channels, read_nodes}

-- What reading does to one frame.
unfoldable pub fill_channels : ℕ → ℕ → ℕ → Frame → Grid → Grid
unfolding put_value value_at
fill_channels zero node ch f grid = grid
fill_channels (suc left) node ch f grid =
    fill_channels left node (ch + 1) f (put_value node ch (value_at node ch f) grid)

unfoldable pub fill_nodes : ℕ → ℕ → Frame → Grid → Grid
unfolding fill_channels
fill_nodes zero node f grid = grid
fill_nodes (suc left) node f grid = fill_nodes left (node + 1) f (fill_channels 8 node 0 f grid)

put_channel-map :
    (node ch : ℕ) (fs : List Frame) (g : Frame → Grid)
    → put_channel node ch (map g fs) (channel node ch fs)
      ≡ map (λ f. put_value node ch (value_at node ch f) (g f)) fs
unfolding put_channel channel
put_channel-map node ch [] g = refl
put_channel-map node ch (f ∷ fs) g =
    ap (λ (t : List Grid). put_value node ch (value_at node ch f) (g f) ∷ t)
      (put_channel-map node ch fs g)

module _ (fs : List Frame) (some_frame : 1 ≤ length fs)
    (fit : (node ch : ℕ) → All IsI32 (channel node ch fs)) where
  Gives-read_channels :
      (left node ch : ℕ) (g : Frame → Grid)
      → Gives
          (read_channels left node ch (length fs) (map g fs))
          (write_channels left node ch fs)
          (map (λ f. fill_channels left node ch f (g f)) fs)
  unfolding read_channels write_channels fill_channels
  Gives-read_channels zero node ch g = Gives-pure (map g fs)
  Gives-read_channels (suc left) node ch g =
      let size = length-channel node ch fs in
      Gives-bind _ _
        (rw size at
          (Gives-track (channel node ch fs) (omega (arith, size, some_frame)) (fit node ch)))
        (rw (put_channel-map node ch fs g) (
          Gives-read_channels left node (ch + 1)
            (λ f. put_value node ch (value_at node ch f) (g f))))

  pub Gives-read_nodes :
      (left node : ℕ) (g : Frame → Grid)
      → Gives
          (read_nodes left node (length fs) (map g fs))
          (write_nodes left node fs)
          (map (λ f. fill_nodes left node f (g f)) fs)
  unfolding read_nodes write_nodes fill_nodes
  Gives-read_nodes zero node g = Gives-pure (map g fs)
  Gives-read_nodes (suc left) node g =
      Gives-bind _ _ (Gives-read_channels 8 node 0 g)
        (Gives-read_nodes left (node + 1) (λ f. fill_channels 8 node 0 f (g f)))

set-behind : (xs ys : Grid) (y z : List ℤ) → set (xs ++ (y ∷ ys)) (length xs) z ≡ xs ++ (z ∷ ys)
set-behind [] ys y z = refl
set-behind (x ∷ xs) ys y z = ap (λ (t : Grid). x ∷ t) (set-behind xs ys y z)

get_elem?-behind : (xs ys : Grid) (y : List ℤ) → get_elem? (xs ++ (y ∷ ys)) (length xs) ≡ some y
get_elem?-behind [] ys y = refl
get_elem?-behind (x ∷ xs) ys y = get_elem?-behind xs ys y

put_value-behind :
    (xs ys : Grid) (y : List ℤ) (ch : ℕ) (v : ℤ)
    → put_value (length xs) ch v (xs ++ (y ∷ ys)) ≡ xs ++ (set y ch v ∷ ys)
unfolding put_value
put_value-behind xs ys y ch v = rw (get_elem?-behind xs ys y) (set-behind xs ys y (set y ch v))

abbrev zeros : List ℤ
zeros = replicate 8 (pos 0)

value_at-behind :
    (f : Frame) (xs ys : Grid) (row : List ℤ) (ch : ℕ)
    → f.values ≡ xs ++ (row ∷ ys)
    → value_at (length xs) ch f ≡ or_zero (get_elem? row ch)
unfolding value_at
value_at-behind f xs ys row ch e = rw (e, get_elem?-behind xs ys row) refl

-- A row of eight values is put in place.
fill_channels-row :
    (f : Frame) (xs ys zs : Grid) (row : List ℤ)
    → length row ≡ 8
    → f.values ≡ xs ++ (row ∷ ys)
    → fill_channels 8 (length xs) 0 f (xs ++ (zeros ∷ zs)) ≡ xs ++ (row ∷ zs)
unfolding fill_channels
fill_channels-row f xs ys zs [] h e = absurd (omega arith)
fill_channels-row f xs ys zs (a ∷ []) h e = absurd (omega arith)
fill_channels-row f xs ys zs (a ∷ b ∷ []) h e = absurd (omega arith)
fill_channels-row f xs ys zs (a ∷ b ∷ c ∷ []) h e = absurd (omega arith)
fill_channels-row f xs ys zs (a ∷ b ∷ c ∷ d ∷ []) h e = absurd (omega arith)
fill_channels-row f xs ys zs (a ∷ b ∷ c ∷ d ∷ p ∷ []) h e = absurd (omega arith)
fill_channels-row f xs ys zs (a ∷ b ∷ c ∷ d ∷ p ∷ q ∷ []) h e = absurd (omega arith)
fill_channels-row f xs ys zs (a ∷ b ∷ c ∷ d ∷ p ∷ q ∷ r ∷ []) h e = absurd (omega arith)
fill_channels-row f xs ys zs (a ∷ b ∷ c ∷ d ∷ p ∷ q ∷ r ∷ s ∷ t ∷ ts) h e = absurd (omega arith)
fill_channels-row f xs ys zs (a ∷ b ∷ c ∷ d ∷ p ∷ q ∷ r ∷ s ∷ []) h e =
    let value = λ (ch : ℕ). value_at-behind f xs ys (a ∷ b ∷ c ∷ d ∷ p ∷ q ∷ r ∷ s ∷ []) ch e in
    rw (value 0, value 1, value 2, value 3, value 4, value 5, value 6, value 7)
      (rw
        (
          put_value-behind xs zs zeros 0 a,
          put_value-behind xs zs _ 1 b,
          put_value-behind xs zs _ 2 c,
          put_value-behind xs zs _ 3 d,
          put_value-behind xs zs _ 4 p,
          put_value-behind xs zs _ 5 q,
          put_value-behind xs zs _ 6 r,
          put_value-behind xs zs _ 7 s,
        )
        refl)

-- The rows from one on are put in place.
fill_nodes-rows :
    (f : Frame) (xs rows : Grid)
    → All (λ (row : List ℤ). length row ≡ 8) rows
    → f.values ≡ xs ++ rows
    → fill_nodes (length rows) (length xs) f (xs ++ replicate (length rows) zeros) ≡ xs ++ rows
unfolding fill_nodes
fill_nodes-rows f xs [] h e = refl
fill_nodes-rows f xs (row ∷ rows) (eight, h) e =
    let snoc : (ys : Grid) → (xs ++ (row ∷ [])) ++ ys ≡ xs ++ (row ∷ ys) =
      λ ys. append_assoc xs (row ∷ []) ys in
    let next : length xs + 1 ≡ length (xs ++ (row ∷ [])) =
      omega (arith, length-append xs (row ∷ [])) in
    ap (λ (g : Grid). fill_nodes (length rows) (length xs + 1) f g)
      (fill_channels-row f xs rows (replicate (length rows) zeros) row eight e)
    ∙ ap (λ (n : ℕ). fill_nodes (length rows) n f (xs ++ (row ∷ replicate (length rows) zeros)))
        next
    ∙ ap (λ (g : Grid). fill_nodes (length rows) (length (xs ++ (row ∷ []))) f g)
        (sym (snoc (replicate (length rows) zeros)))
    ∙ fill_nodes-rows f (xs ++ (row ∷ [])) rows h (e ∙ sym (snoc rows))
    ∙ snoc rows

-- The shape of a frame: eight values for each of its nodes.
abbrev pub IsShaped : ℕ → Frame → Type 0
IsShaped bones f = (length f.values ≡ bones) × All (λ (row : List ℤ). length row ≡ 8) f.values

pub fill_nodes-IsShaped :
    (bones : ℕ) (f : Frame)
    → IsShaped bones f
    → fill_nodes bones 0 f (replicate bones zeros) ≡ f.values
fill_nodes-IsShaped bones f (size, h) = rw size at (fill_nodes-rows f [] f.values h refl)
