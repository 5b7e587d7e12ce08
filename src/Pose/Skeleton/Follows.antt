-- ===== src/Pose/Skeleton/Follows.antt =====
-- An order of nodes: each once, and none before its parent; and what a pass of `order` keeps true.
use halospawns_infra.Prelude.{
  ℕ, zero, suc, ◌+◌, ◌≤◌, ◌<◌, ◌≡◌, refl, sym, ap, ◌∙◌, Bool, true, false, ◌||◌, List, [], ◌∷◌,
  ◌++◌, length, set, replicate, length-append, ◌==◌, arith, if◌then◌else◌,
}
use halospawns_infra.Prelude.Int.{ℤ, pos, negsuc}
use halospawns_infra.Pose.Skeleton.{Sorting, is_done, is_ready, unsorted}

unfoldable pub mem : ℕ → List ℕ → Bool
mem i [] = false
mem i (x ∷ xs) = (x == i) || mem i xs

-- The parent at an index of a list of parents; -1 behind its end.
unfoldable pub parent_at : List ℤ → ℕ → ℤ
parent_at [] i = negsuc 0
parent_at (p ∷ ps) zero = p
parent_at (p ∷ ps) (suc i) = parent_at ps i

-- A root, or a node whose parent is there.
unfoldable pub is_placed : List ℕ → ℤ → Bool
unfolding mem
is_placed xs (negsuc m) = m == 0
is_placed xs (pos p) = mem p xs

-- The nodes of a list come each once and after their parents, behind some that are placed.
unfoldable pub Follows : List ℤ → List ℕ → List ℕ → Type 0
Follows ps placed [] = Unit
Follows ps placed (i ∷ is) =
    (i < length ps)
    × ((mem i placed ≡ false)
        × ((is_placed placed (parent_at ps i) ≡ true) × Follows ps (i ∷ placed) is))

mem-snoc : (i j : ℕ) (xs : List ℕ) → mem i (xs ++ (j ∷ [])) ≡ mem i xs || (j == i)
unfolding mem
mem-snoc i j [] = ground arith
mem-snoc i j (x ∷ xs) = ground (arith, mem-snoc i j xs)

ready_nil :
    (placed : List ℕ) (p : ℤ)
    → (is_placed placed p || is_placed [] p) ≡ true
    → is_placed placed p ≡ true
unfolding is_placed mem
ready_nil placed (pos p) h = ground arith
ready_nil placed (negsuc m) h = ground arith

ready_cons :
    (placed xs : List ℕ) (x : ℕ) (p : ℤ)
    → (is_placed placed p || is_placed (x ∷ xs) p) ≡ true
    → (is_placed (x ∷ placed) p || is_placed xs p) ≡ true
unfolding is_placed mem
ready_cons placed xs x (pos p) h = ground arith
ready_cons placed xs x (negsuc m) h = ground arith

mem_cons :
    (x i : ℕ) (xs placed : List ℕ)
    → mem i placed ≡ false
    → mem i (x ∷ xs) ≡ false
    → (mem i (x ∷ placed) ≡ false) × (mem i xs ≡ false)
unfolding mem
mem_cons x i xs placed h h' = (ground arith, ground arith)

-- A node more at the end.
pub Follows-snoc :
    (ps : List ℤ) (placed xs : List ℕ) (i : ℕ)
    → i < length ps
    → mem i placed ≡ false
    → mem i xs ≡ false
    → (is_placed placed (parent_at ps i) || is_placed xs (parent_at ps i)) ≡ true
    → Follows ps placed xs
    → Follows ps placed (xs ++ (i ∷ []))
unfolding Follows
Follows-snoc ps placed [] i h new new' ready f =
    (h, (new, (ready_nil placed (parent_at ps i) ready, tt)))
Follows-snoc ps placed (x ∷ xs) i h new new' ready (hx, (nx, (rx, f))) =
    let (new_here, new_later) = mem_cons x i xs placed new new' in
    (
      hx,
      (
        nx,
        (
          rx,
          Follows-snoc ps (x ∷ placed) xs i h new_here new_later
              (ready_cons placed xs x (parent_at ps i) ready) f,
        ),
      ),
    )

unfoldable pub count_done : List Bool → ℕ
count_done [] = 0
count_done (d ∷ ds) = (if d then 1 else 0) + count_done ds

is_done-set :
    (ds : List Bool) (i j : ℕ)
    → i < length ds
    → is_done (set ds i true) j ≡ (i == j) || is_done ds j
unfolding is_done
is_done-set [] i j h = absurd (omega arith)
is_done-set (d ∷ ds) zero zero h = refl
is_done-set (d ∷ ds) zero (suc j) h = ground arith
is_done-set (d ∷ ds) (suc i) zero h = ground arith
is_done-set (d ∷ ds) (suc i) (suc j) h = ground (arith, is_done-set ds i j (omega arith))

length-set : (ds : List Bool) (i : ℕ) → length (set ds i true) ≡ length ds
length-set [] i = refl
length-set (d ∷ ds) zero = refl
length-set (d ∷ ds) (suc i) = omega (arith, length-set ds i)

count_done-set :
    (ds : List Bool) (i : ℕ)
    → i < length ds
    → is_done ds i ≡ false
    → count_done (set ds i true) ≡ suc (count_done ds)
unfolding is_done count_done
count_done-set [] i h e = absurd (omega arith)
count_done-set (d ∷ ds) zero h e = rw e (omega arith)
count_done-set (d ∷ ds) (suc i) h e = omega (arith, count_done-set ds i (omega arith) e)

-- What `order` keeps true: the nodes that are sorted are those that are marked.
pub record IsSorting (ps : List ℤ) (s : Sorting) : Type 0 where
  pub follows : Follows ps [] s.sorted
  pub marks : (i : ℕ) → is_done s.marked i ≡ mem i s.sorted
  pub size : length s.marked ≡ length ps
  pub count : count_done s.marked ≡ length s.sorted

ready_placed :
    (s : Sorting) (p : ℤ)
    → ((i : ℕ) → is_done s.marked i ≡ mem i s.sorted)
    → is_ready s.marked p ≡ is_placed s.sorted p
unfolding is_ready is_placed
ready_placed s (pos p) h = h p
ready_placed s (negsuc m) h = refl

or_true : (a b : Bool) → b ≡ true → (a || b) ≡ true
or_true true b h = refl
or_true false b h = h

or_comm : (a b : Bool) → (a || b) ≡ (b || a)
or_comm true true = refl
or_comm true false = refl
or_comm false true = refl
or_comm false false = refl

pub IsSorting-add :
    (ps : List ℤ) (i : ℕ) (s : Sorting)
    → i < length ps
    → IsSorting ps s
    → is_done s.marked i ≡ false
    → is_ready s.marked (parent_at ps i) ≡ true
    → IsSorting ps (record { sorted = s.sorted ++ (i ∷ []); marked = set s.marked i true })
IsSorting-add ps i s h is new ready = record {
  follows =
      Follows-snoc ps [] s.sorted i h (unfold mem in refl) (sym (is.marks i) ∙ new)
        (or_true (is_placed [] (parent_at ps i)) (is_placed s.sorted (parent_at ps i))
          (sym (ready_placed s (parent_at ps i) is.marks) ∙ ready))
        is.follows;
  marks = λ j.
      rw (is_done-set s.marked i j (omega (arith, h, is.size)), mem-snoc j i s.sorted, is.marks j)
        (or_comm (i == j) (mem j s.sorted));
  size = omega (arith, length-set s.marked i, is.size);
  count = omega (
    arith,
    count_done-set s.marked i (omega (arith, h, is.size)) new,
    is.count,
    length-append s.sorted (i ∷ []),
  );
}

none_done : (n i : ℕ) → is_done (replicate n false) i ≡ false
unfolding is_done
none_done zero i = refl
none_done (suc n) zero = refl
none_done (suc n) (suc i) = none_done n i

length-replicate : (n : ℕ) → length (replicate n false) ≡ n
length-replicate zero = refl
length-replicate (suc n) = ap (λ (m : ℕ). suc m) (length-replicate n)

none_counted : (n : ℕ) → count_done (replicate n false) ≡ 0
unfolding count_done
none_counted zero = refl
none_counted (suc n) = omega (arith, none_counted n)

pub IsSorting-start : (ps : List ℤ) → IsSorting ps (unsorted (length ps))
unfolding Follows mem
IsSorting-start ps = record {
  follows = tt;
  marks = λ i. none_done (length ps) i;
  size = length-replicate (length ps);
  count = none_counted (length ps);
}

pub count_done-le : (ds : List Bool) → count_done ds ≤ length ds
unfolding count_done
count_done-le [] = omega arith
count_done-le (true ∷ ds) = omega (arith, count_done-le ds)
count_done-le (false ∷ ds) = omega (arith, count_done-le ds)

pub all_done :
    (ds : List Bool) → length ds ≤ count_done ds → (i : ℕ) → i < length ds → is_done ds i ≡ true
unfolding count_done is_done
all_done [] h i k = absurd (omega arith)
all_done (true ∷ ds) h zero k = refl
all_done (true ∷ ds) h (suc i) k = all_done ds (omega (arith, h)) i (omega arith)
all_done (false ∷ ds) h i k = absurd (omega (arith, h, count_done-le ds))

pub all_counted :
    (ds : List Bool) → ((i : ℕ) → i < length ds → is_done ds i ≡ true) → count_done ds ≡ length ds
unfolding count_done is_done
all_counted [] h = refl
all_counted (d ∷ ds) h =
    rw (h 0 (omega arith)) (omega (arith, all_counted ds (λ i k. h (suc i) (omega arith))))
