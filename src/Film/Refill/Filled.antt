-- ===== src/Film/Refill/Filled.antt =====
-- What is filled again is the source, whatever was there before.
use halospawns_infra.Prelude.{
  ℕ, ◌≡◌, refl, ap, Bool, true, false, ◌&&◌, inl, inr, ◌==◌, arith, Bool-cases, List,
}
use halospawns_infra.Delta.Value.{
  Value, null, bool, number, string, array, object, Items, nil, cons, Fields, end, field,
  length_fields,
}
use halospawns_infra.Film.TextEqual.{equal}
use halospawns_infra.Film.TextEqual.Sound.{AllBytes, equal_lem}
use halospawns_infra.Film.OrderedDelta.{keys_equal}
use halospawns_infra.Film.Refill.{refill, refill_items, refill_values}

-- All texts of a value are bytes.
unfoldable mutual
  pub ByteTexts : Value → Type 0
  ByteTexts null = Unit
  ByteTexts (bool b) = Unit
  ByteTexts (number n) = Unit
  ByteTexts (string s) = AllBytes s
  ByteTexts (array vs) = ItemTexts vs
  ByteTexts (object fs) = FieldTexts fs

  pub ItemTexts : Items → Type 0
  ItemTexts nil = Unit
  ItemTexts (cons v vs) = ByteTexts v × ItemTexts vs

  pub FieldTexts : Fields → Type 0
  FieldTexts end = Unit
  FieldTexts (field k v fs) = AllBytes k × (ByteTexts v × FieldTexts fs)

and_true : (a b : Bool) → (a && b) ≡ true → (a ≡ true) × (b ≡ true)
and_true true b h = (refl, h)
and_true false b h = cc

mutual
  unfolding refill refill_items refill_values ByteTexts ItemTexts FieldTexts length_fields
      keys_equal

  refill_both :
      (source target : Value) → ByteTexts target → ByteTexts source → refill target source ≡ source
  refill_both null null ht hs = refl
  refill_both null (bool b) ht hs = refl
  refill_both null (number n) ht hs = refl
  refill_both null (string s) ht hs = refl
  refill_both null (array vs) ht hs = refl
  refill_both null (object fs) ht hs = refl
  refill_both (bool x) null ht hs = refl
  refill_both (bool x) (bool b) ht hs = refl
  refill_both (bool x) (number n) ht hs = refl
  refill_both (bool x) (string s) ht hs = refl
  refill_both (bool x) (array vs) ht hs = refl
  refill_both (bool x) (object fs) ht hs = refl
  refill_both (number x) null ht hs = refl
  refill_both (number x) (bool b) ht hs = refl
  refill_both (number x) (number n) ht hs = refl
  refill_both (number x) (string s) ht hs = refl
  refill_both (number x) (array vs) ht hs = refl
  refill_both (number x) (object fs) ht hs = refl
  refill_both (string x) null ht hs = refl
  refill_both (string x) (bool b) ht hs = refl
  refill_both (string x) (number n) ht hs = refl
  refill_both (string x) (string s) ht hs = elim (Bool-cases (equal s x)) [
    | inl e ↦
        (let same : s ≡ x = (equal_lem s x ht hs).0 e in rw e (ap (λ (t : List ℕ). string t) same))
    | inr e ↦ rw e refl
  ]
  refill_both (string x) (array vs) ht hs = refl
  refill_both (string x) (object fs) ht hs = refl
  refill_both (array x) null ht hs = refl
  refill_both (array x) (bool b) ht hs = refl
  refill_both (array x) (number n) ht hs = refl
  refill_both (array x) (string s) ht hs = refl
  refill_both (array x) (array vs) ht hs = ap (λ (t : Items). array t) (items_both x vs ht hs)
  refill_both (array x) (object fs) ht hs = refl
  refill_both (object x) null ht hs = refl
  refill_both (object x) (bool b) ht hs = refl
  refill_both (object x) (number n) ht hs = refl
  refill_both (object x) (string s) ht hs = refl
  refill_both (object x) (array vs) ht hs = refl
  refill_both (object x) (object fs) ht hs =
      elim (Bool-cases ((length_fields fs == length_fields x) && keys_equal fs x)) [
        | inl e ↦
            let (long, aligned) =
              and_true (length_fields fs == length_fields x) (keys_equal fs x) e in
            rw e (ap (λ (t : Fields). object t) (values_both x fs ht hs (ground arith) aligned))
        | inr e ↦ rw e refl
      ]

  items_both :
      (source target : Items)
      → ItemTexts target
      → ItemTexts source
      → refill_items target source ≡ source
  items_both nil nil ht hs = refl
  items_both nil (cons t target) ht hs = refl
  items_both (cons s source) nil ht (h, hs) = rw (items_both source nil tt hs) refl
  items_both (cons s source) (cons t target) (k, ht) (h, hs) =
      rw (refill_both s t k h, items_both source target ht hs) refl

  values_both :
      (source target : Fields)
      → FieldTexts target
      → FieldTexts source
      → length_fields target ≡ length_fields source
      → keys_equal target source ≡ true
      → refill_values target source ≡ source
  values_both end end ht hs long aligned = refl
  values_both end (field j t target) ht hs long aligned = absurd (omega arith)
  values_both (field k s source) end ht hs long aligned = absurd (omega arith)
  values_both (field k s source) (field j t target) (bj, (ht, hts)) (bk, (hs, hss)) long aligned =
      let (first, rest) = and_true (equal j k) (keys_equal target source) aligned in
      rw
        (
          (equal_lem j k bj bk).0 first,
          refill_both s t ht hs,
          values_both source target hts hss (omega (arith, long)) rest,
        )
        refl

-- If the texts of both values are bytes, then a value filled again from a source is the source,
-- whatever it was before.
pub refill-source :
    (target source : Value) → ByteTexts target → ByteTexts source → refill target source ≡ source
refill-source target source ht hs = refill_both source target ht hs
