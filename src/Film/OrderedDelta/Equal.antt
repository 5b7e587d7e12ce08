-- ===== src/Film/OrderedDelta/Equal.antt =====
-- `write` of ordered_delta.rs writes what `write_delta` of viewer.rs writes.
use halospawns_infra.Prelude.{
  ℕ, ◌+◌, ◌*◌, ◌^◌, ◌<◌, ◌≡◌, refl, sym, ◌∙◌, Bool, true, false, ◌&&◌, not, Option, none, some, inl,
  inr, List, leb, ◌==◌, arith, Bool-cases, Option-cases, if◌then◌else◌,
}
use halospawns_infra.Delta.Codes.{delta_same}
use halospawns_infra.Delta.Floats.{Floats, Lawful}
use halospawns_infra.Delta.Writer.{Write, ◌>>◌, byte, varuint}
use halospawns_infra.Delta.Value.{
  Value, null, bool, number, string, array, object, Items, nil, cons, Fields, end, field, items_of,
  fields_of, and_then, length_items, length_fields, field_at, item_at,
}
use halospawns_infra.Delta.FloatArray.{exact_numbers}
use halospawns_infra.Delta.Same
use halospawns_infra.Delta.WriteDelta
use halospawns_infra.Delta.WriteDelta.{
  write_delta, write_replace, write_number_or_replace, float_arrays,
}
use halospawns_infra.Film.FloatDelta.Equal.{fits, write-write_delta, is_some}
use halospawns_infra.Film.OrderedDelta.{
  same, is_same, keys_equal, is_marked, changed_indices, both_exact, before_rest, write_inner,
  write_marked, write_dense, write_sparse, write,
}
use halospawns_infra.Film.OrderedDelta.Keyed.{Keyed, ItemsKeyed, FieldsKeyed, Found, Found-refl}
use halospawns_infra.Film.OrderedDelta.Alike.{same_both}
use halospawns_infra.Film.OrderedDelta.Marks.{
  marks, mark-start, is_marked_lem, count_ones_lem, count_different, mark_next,
}
use halospawns_infra.Film.OrderedDelta.Steps.{
  KeyedOption, is_same_both, write_delta-same, Keyed-item_at, changed_here, kept_here,
  length-changed_indices, SideBySide, side_tail, side_end, Keyed-items_of, Keyed-fields_of,
  done_then, keys_equal-SideBySide, no_deletions, count_changes-different,
}

module _ (F : Floats) (L : Lawful F) where
  -- What stands before the rest writes the same, or leaves a value that has changed to the rest.
  before_rest_lem :
      (previous : Option Value) (next : Value) (before : Option Value) (known : Bool) (rest : Write)
      → KeyedOption previous
      → Keyed next
      → (known ≡ true → Same.delta_same previous next ≡ false)
      → (Same.delta_same previous next ≡ false → rest ≡ write_delta F previous next before)
      → before_rest F previous next before known rest ≡ write_delta F previous next before
  unfolding before_rest
  before_rest_lem previous next before known rest kp kn changed go =
      elim (Bool-cases (fits F L previous next)) [
        | inl f ↦ rw (write-write_delta F L previous next before, f) refl
        | inr f ↦
            rw (write-write_delta F L previous next before, f)
              (elim (Bool-cases (Same.delta_same previous next)) [
                | inl s ↦
                    let unknown : known ≡ false =
                      not_known known (λ k. rw (changed k) at (sym s)) in
                    rw (unknown, is_same_both previous next kp kn, s)
                      (sym (write_delta-same F previous next before s))
                | inr s ↦ rw (is_same_both previous next kp kn, s) (either known (go s))
              ])
      ]
    where
      not_known : (k : Bool) → (k ≡ true → ◌≡◌ {A = Bool} true false) → k ≡ false
      not_known false h = refl
      not_known true h = let e = h refl in cc

      either :
          (k : Bool) {m : Write} → rest ≡ m → (if not k && false then byte delta_same else rest) ≡ m
      either true h = h
      either false h = h

  float_arrays-both_exact : (a b : Items) → both_exact F a b ≡ is_some (float_arrays F a b)
  unfolding both_exact float_arrays
  float_arrays-both_exact a b = elim (Bool-cases (length_items a == length_items b)) [
    | inl l ↦ elim (Bool-cases (length_items b == 0)) [
      | inl z ↦ rw (l, z) refl
      | inr z ↦ elim (Option-cases (exact_numbers F a)) [
        | inl ea ↦ rw (l, z, ea) refl
        | inr (x, ea) ↦ elim (Option-cases (exact_numbers F b)) [
          | inl eb ↦ rw (l, z, ea, eb) refl
          | inr (y, eb) ↦ rw (l, z, ea, eb) refl
        ]
      ]
    ]
    | inr l ↦ rw l refl
  ]

  none_if : {A : Type 0} (o : Option A) → is_some o ≡ false → o ≡ none
  none_if none h = refl
  none_if (some a) h = cc

  -- The branches that fall back to the code they are compared with.
  or_else :
      {A : Type 0} (o : Option A) (f : A → Write) (w : Write)
      → ((a : A) → o ≡ some a → f a ≡ w)
      → (elim o [ none ↦ w | some a ↦ f a ]) ≡ w
  or_else none f w h = refl
  or_else (some a) f w h = h a refl

  unless : (t : Bool) (x w : Write) → (t ≡ false → x ≡ w) → (if t then w else x) ≡ w
  unless true x w h = refl
  unless false x w h = h refl

  when : (t : Bool) (x w : Write) → (t ≡ true → x ≡ w) → (if t then x else w) ≡ w
  when true x w h = h refl
  when false x w h = refl

  and_three : (x y z : Bool) → (x && (y && z)) ≡ true → (x ≡ true) × ((y ≡ true) × (z ≡ true))
  and_three true true z h = (refl, (refl, h))
  and_three true false z h = cc
  and_three false y z h = cc

  same_value :
      (whole : Fields) (k : List ℕ) (a b : Value)
      → field_at whole k ≡ some a
      → Same.delta_same (field_at whole k) b ≡ Same.same a b
  unfolding Same.delta_same
  same_value whole k a b e = rw e refl

  delta_same-some : (a b : Value) → Same.delta_same (some a) b ≡ Same.same a b
  unfolding Same.delta_same
  delta_same-some a b = refl

  mutual
    unfolding Found marks write_inner write_marked write_dense write_sparse write_delta Keyed
        ItemsKeyed FieldsKeyed

    inner_both :
        (next : Value) (previous before : Option Value) (known : Bool)
        → Keyed next
        → KeyedOption previous
        → (known ≡ true → Same.delta_same previous next ≡ false)
        → write_inner F previous next before known ≡ write_delta F previous next before
    inner_both null previous before known kn kp h =
        before_rest_lem previous null before known _ kp kn h (λ _. refl)
    inner_both (bool b) previous before known kn kp h =
        before_rest_lem previous (bool b) before known _ kp kn h (λ _. refl)
    inner_both (number n) previous before known kn kp h =
        before_rest_lem previous (number n) before known _ kp kn h (λ _. refl)
    inner_both (string s) previous before known kn kp h =
        before_rest_lem previous (string s) before known _ kp kn h (λ _. refl)
    inner_both (array b) previous before known kn kp h =
        before_rest_lem previous (array b) before known _ kp kn h (λ s.
          or_else (and_then previous items_of) _ _ λ a e. unless (both_exact F a b) _ _ λ x.
            let ka = Keyed-items_of previous a kp e in
            let no = none_if (float_arrays F a b) (sym (float_arrays-both_exact a b) ∙ x) in
            rw
              (
                e,
                s,
                no,
                length-changed_indices b 0 a kn ka,
                dense_both b 0 a (and_then before items_of) kn ka,
                sparse_both b 0 a (and_then before items_of) kn ka,
              )
              refl)
    inner_both (object b) previous before known kn kp h =
        before_rest_lem previous (object b) before known _ kp kn h (λ s.
          or_else (and_then previous fields_of) _ _ λ a e.
            when
              ((length_fields a == length_fields b) && (leb (length_fields a) 64 && keys_equal a b))
              _ _
              λ t.
                let ka = Keyed-fields_of previous a kp e in
                let (long, (few, aligned)) =
                  and_three (length_fields a == length_fields b) (leb (length_fields a) 64)
                    (keys_equal a b) t in
                let side = keys_equal-SideBySide a b ka kn (ground arith) aligned in
                let (no_count, no_write) = no_deletions b side (Found-refl b kn) in
                rw
                  (
                    e,
                    s,
                    mark-start a b,
                    count_ones_lem a b (ground arith),
                    no_count,
                    no_write,
                    count_changes-different a side (Found-refl a ka) ka kn,
                    marked_both b a a (marks a b) 0 0 (and_then before fields_of) side
                        (Found-refl a ka) ka kn (omega arith) (omega arith),
                    done_then (
                        varuint (count_different a b)
                        >> WriteDelta.write_changes F b a (and_then before fields_of)),
                  )
                  refl)

    marked_both :
        (bs qs whole : Fields) (changed i low : ℕ) (history : Option Fields)
        → SideBySide qs bs
        → Found whole qs
        → FieldsKeyed qs
        → FieldsKeyed bs
        → low < 2 ^ i
        → changed ≡ low + marks qs bs * 2 ^ i
        → write_marked F changed i bs qs history ≡ WriteDelta.write_changes F bs whole history
    marked_both end qs whole changed i low history s f kq kb hl e = refl
    marked_both (field k b bs) end whole changed i low history s f kq kb hl e = side_end s
    marked_both (field k b bs) (field j a qs) whole changed i low history s f kq kb hl e =
        let (found, f') = f in
        let (bj, (hj, (ka, kqs))) = kq in
        let (bk, (hk, (kv, kbs))) = kb in
        let (same_key, side) = side_tail s in
        let here : field_at whole k ≡ some a = (rw (sym same_key) found) in
        let is = same_both a b ka kv in
        elim (Bool-cases (same a b)) [
          | inl t ↦
              let e0 : changed ≡ low + (0 + 2 * marks qs bs) * 2 ^ i = (rw (marks, t) at e) in
              let unmarked : is_marked changed i ≡ false =
                rw e0 (is_marked_lem i low (0 + 2 * marks qs bs) hl ∙ ground arith) in
              let (nl, ne) = mark_next i low 0 (marks qs bs) hl (omega arith) in
              rw (unmarked, same_value whole k a b here ∙ (sym is ∙ t))
                (marked_both bs qs whole changed (i + 1) _ history side f' kqs kbs nl (e0 ∙ ne))
          | inr t ↦
              let e1 : changed ≡ low + (1 + 2 * marks qs bs) * 2 ^ i = (rw (marks, t) at e) in
              let marked : is_marked changed i ≡ true =
                rw e1 (is_marked_lem i low (1 + 2 * marks qs bs) hl ∙ ground arith) in
              let (nl, ne) = mark_next i low 1 (marks qs bs) hl (omega arith) in
              rw
                (
                  marked,
                  same_value whole k a b here ∙ (sym is ∙ t),
                  here,
                  marked_both bs qs whole changed (i + 1) _ history side f' kqs kbs nl (e1 ∙ ne),
                  inner_both b (some a) (and_then history (λ h. field_at h k)) true kv ka
                      (λ _. delta_same-some a b ∙ (sym is ∙ t)),
                )
                refl
        ]

    dense_both :
        (bs : Items) (i : ℕ) (ps : Items) (history : Option Items)
        → ItemsKeyed bs
        → ItemsKeyed ps
        → write_dense F bs i (changed_indices bs i ps) ps history
          ≡ WriteDelta.write_dense F bs i ps history
    dense_both nil i ps history kb kp = refl
    dense_both (cons b bs) i ps history (kb, kbs) kp =
        let is = is_same_both (item_at ps i) b (Keyed-item_at ps i kp) kb in
        elim (Bool-cases (is_same (item_at ps i) b)) [
          | inl t ↦
              let (not_here, next) = kept_here ps i b bs t in
              rw
                (
                  not_here,
                  next,
                  dense_both bs (i + 1) ps history kbs kp,
                  write_delta-same F (item_at ps i) b (and_then history (λ h. item_at h i))
                      (sym is ∙ t),
                )
                refl
          | inr t ↦
              let (at_hand, next) = changed_here ps i b bs t in
              rw
                (
                  at_hand,
                  next,
                  dense_both bs (i + 1) ps history kbs kp,
                  inner_both b (item_at ps i) (and_then history (λ h. item_at h i)) true kb
                      (Keyed-item_at ps i kp) (λ _. sym is ∙ t),
                )
                refl
        ]

    sparse_both :
        (bs : Items) (i : ℕ) (ps : Items) (history : Option Items)
        → ItemsKeyed bs
        → ItemsKeyed ps
        → write_sparse F bs i (changed_indices bs i ps) ps history
          ≡ WriteDelta.write_changed F bs i ps history
    sparse_both nil i ps history kb kp = refl
    sparse_both (cons b bs) i ps history (kb, kbs) kp =
        let is = is_same_both (item_at ps i) b (Keyed-item_at ps i kp) kb in
        elim (Bool-cases (is_same (item_at ps i) b)) [
          | inl t ↦
              let (not_here, next) = kept_here ps i b bs t in
              rw (not_here, next, sparse_both bs (i + 1) ps history kbs kp, sym is ∙ t) refl
          | inr t ↦
              let (at_hand, next) = changed_here ps i b bs t in
              rw
                (
                  at_hand,
                  next,
                  sparse_both bs (i + 1) ps history kbs kp,
                  sym is ∙ t,
                  inner_both b (item_at ps i) (and_then history (λ h. item_at h i)) true kb
                      (Keyed-item_at ps i kp) (λ _. sym is ∙ t),
                )
                refl
        ]

  -- If no object in the value before and in the next one has a key twice and all keys are bytes,
  -- then `write` of ordered_delta.rs, which compares objects slot by slot where their keys agree,
  -- writes what `write_delta` of viewer.rs writes: the same bytes, the same string table or the
  -- same error.
  pub write_ordered-write_delta :
      (previous : Option Value) (next : Value) (before : Option Value)
      → KeyedOption previous
      → Keyed next
      → write F previous next before ≡ write_delta F previous next before
  unfolding write
  write_ordered-write_delta previous next before kp kn =
      inner_both next previous before false kn kp (λ h. cc)
