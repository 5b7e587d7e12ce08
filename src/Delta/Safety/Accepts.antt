-- ===== src/Delta/Safety/Accepts.antt =====
-- What `validate_json_safety` of viewer.rs accepts.
use halospawns_infra.Prelude.{
  ℕ, suc, ◌+◌, ◌≤◌, ◌≡◌, refl, false, ◌&&◌, inl, inr, ltb, length, min, arith, Bool-cases,
  if◌then◌else◌,
}
use halospawns_infra.Prelude.Results.{Result, ok, err}
use halospawns_infra.Delta.Codes.{Text, max_json_depth}
use halospawns_infra.Delta.Error.{Error, source_string}
use halospawns_infra.Delta.Value.{
  Value, null, bool, number, string, array, object, Items, nil, cons, Fields, end, field, depth,
  depth_items, depth_fields,
}
use halospawns_infra.Delta.Safety.{
  max_string_characters, validate_text, within_depth, ◌>>◌, validate_json_safety, validate_items,
  validate_fields,
}

module _ (count_chars : Text → ℕ) where
  -- No text, by its bytes or by its characters, is longer than the limit; keys are not looked at.
  unfoldable mutual
    pub ShortTexts : Value → Type 0
    ShortTexts null = Unit
    ShortTexts (bool b) = Unit
    ShortTexts (number n) = Unit
    ShortTexts (string s) = min (length s) (count_chars s) ≤ max_string_characters
    ShortTexts (array vs) = ItemsShort vs
    ShortTexts (object fs) = FieldsShort fs

    pub ItemsShort : Items → Type 0
    ItemsShort nil = Unit
    ItemsShort (cons v vs) = ShortTexts v × ItemsShort vs

    pub FieldsShort : Fields → Type 0
    FieldsShort end = Unit
    FieldsShort (field k v fs) = ShortTexts v × FieldsShort fs

  abbrev IsOk : Result Error (Unit {0}) → Type 0
  IsOk r = r ≡ ok tt

  within-IsOk :
      (d : ℕ) (r : Result Error (Unit {0}))
      → IsOk (within_depth d r)
      → (d ≤ max_json_depth) × IsOk r
  within-IsOk d r h = elim (Bool-cases (ltb max_json_depth d)) [
    | inl e ↦ absurd_err (rw e at h)
    | inr e ↦ (ground arith, (rw e at h))
  ]
    where
      absurd_err : {A : Type 0} {e : Error} → ◌≡◌ {A = Result Error (Unit {0})} (err e) (ok tt) → A
      absurd_err h = cc

  IsOk-within :
      (d : ℕ) (r : Result Error (Unit {0})) → d ≤ max_json_depth → IsOk r → IsOk (within_depth d r)
  IsOk-within d r low h = let e : ltb max_json_depth d ≡ false = ground arith in rw e h

  text-IsOk :
      (s : Text)
      → IsOk (validate_text count_chars s)
      → min (length s) (count_chars s) ≤ max_string_characters
  unfolding validate_text
  text-IsOk s h = split (length s) (count_chars s) h
    where
      split :
          (a b : ℕ)
          → IsOk (
              if ltb max_string_characters a && ltb max_string_characters b
              then err source_string
              else ok tt)
          → min a b ≤ max_string_characters
      split a b h = ground arith

  IsOk-text :
      (s : Text)
      → min (length s) (count_chars s) ≤ max_string_characters
      → IsOk (validate_text count_chars s)
  unfolding validate_text
  IsOk-text s h = ground arith

  then-IsOk : (a b : Result Error (Unit {0})) → IsOk (a >> b) → IsOk a × IsOk b
  then-IsOk (ok tt) b h = (refl, h)
  then-IsOk (err e) b h = cc

  mutual
    unfolding validate_json_safety validate_items validate_fields ShortTexts ItemsShort FieldsShort
        depth depth_items depth_fields

    value_sound :
        (v : Value) (d : ℕ)
        → IsOk (validate_json_safety count_chars v d)
        → (d + depth v ≤ suc max_json_depth) × ShortTexts v
    value_sound null d h = let (low, _) = within-IsOk d (ok tt) h in (omega (arith, low), tt)
    value_sound (bool b) d h = let (low, _) = within-IsOk d (ok tt) h in (omega (arith, low), tt)
    value_sound (number n) d h = let (low, _) = within-IsOk d (ok tt) h in (omega (arith, low), tt)
    value_sound (string s) d h =
        let (low, t) = within-IsOk d (validate_text count_chars s) h in
        (omega (arith, low), text-IsOk s t)
    value_sound (array vs) d h =
        let (low, t) = within-IsOk d (validate_items count_chars vs (d + 1)) h in
        let (deep, short) = items_sound vs (d + 1) (omega (arith, low)) t in
        (omega (arith, deep), short)
    value_sound (object fs) d h =
        let (low, t) = within-IsOk d (validate_fields count_chars fs (d + 1)) h in
        let (deep, short) = fields_sound fs (d + 1) (omega (arith, low)) t in
        (omega (arith, deep), short)

    items_sound :
        (vs : Items) (d : ℕ)
        → d ≤ suc max_json_depth
        → IsOk (validate_items count_chars vs d)
        → (d + depth_items vs ≤ suc max_json_depth) × ItemsShort vs
    items_sound nil d low h = (omega (arith, low), tt)
    items_sound (cons v vs) d low h =
        let (hv, hs) =
          then-IsOk (validate_json_safety count_chars v d) (validate_items count_chars vs d) h in
        let (deep, short) = value_sound v d hv in
        let (deeps, shorts) = items_sound vs d low hs in
        (omega (arith, deep, deeps), (short, shorts))

    fields_sound :
        (fs : Fields) (d : ℕ)
        → d ≤ suc max_json_depth
        → IsOk (validate_fields count_chars fs d)
        → (d + depth_fields fs ≤ suc max_json_depth) × FieldsShort fs
    fields_sound end d low h = (omega (arith, low), tt)
    fields_sound (field k v fs) d low h =
        let (hv, hs) =
          then-IsOk (validate_json_safety count_chars v d) (validate_fields count_chars fs d) h in
        let (deep, short) = value_sound v d hv in
        let (deeps, shorts) = fields_sound fs d low hs in
        (omega (arith, deep, deeps), (short, shorts))

  mutual
    unfolding validate_json_safety validate_items validate_fields ShortTexts ItemsShort FieldsShort
        depth depth_items depth_fields

    value_complete :
        (v : Value) (d : ℕ)
        → d + depth v ≤ suc max_json_depth
        → ShortTexts v
        → IsOk (validate_json_safety count_chars v d)
    value_complete null d low short = IsOk-within d (ok tt) (omega (arith, low)) refl
    value_complete (bool b) d low short = IsOk-within d (ok tt) (omega (arith, low)) refl
    value_complete (number n) d low short = IsOk-within d (ok tt) (omega (arith, low)) refl
    value_complete (string s) d low short = IsOk-within d _ (omega (arith, low)) (IsOk-text s short)
    value_complete (array vs) d low short =
        IsOk-within d _ (omega (arith, low)) (items_complete vs (d + 1) (omega (arith, low)) short)
    value_complete (object fs) d low short =
        IsOk-within d _ (omega (arith, low)) (fields_complete fs (d + 1) (omega (arith, low)) short)

    items_complete :
        (vs : Items) (d : ℕ)
        → d + depth_items vs ≤ suc max_json_depth
        → ItemsShort vs
        → IsOk (validate_items count_chars vs d)
    items_complete nil d low short = refl
    items_complete (cons v vs) d low (hv, hs) =
        rw (value_complete v d (omega (arith, low)) hv)
          (items_complete vs d (omega (arith, low)) hs)

    fields_complete :
        (fs : Fields) (d : ℕ)
        → d + depth_fields fs ≤ suc max_json_depth
        → FieldsShort fs
        → IsOk (validate_fields count_chars fs d)
    fields_complete end d low short = refl
    fields_complete (field k v fs) d low (hv, hs) =
        rw (value_complete v d (omega (arith, low)) hv)
          (fields_complete fs d (omega (arith, low)) hs)

  -- Whatever counts characters, `validate_json_safety` that starts at some depth accepts a value
  -- exactly if that depth and how deep the value is, where a scalar is 1 deep, are together at
  -- most 33, and no text in it, keys left aside, is over the limit both in bytes and in
  -- characters.
  pub validate_json_safety-accepts :
      (v : Value) (start : ℕ)
      → (validate_json_safety count_chars v start ≡ ok tt
          → (start + depth v ≤ suc max_json_depth) × ShortTexts v)
        × (start + depth v ≤ suc max_json_depth
            → ShortTexts v
            → validate_json_safety count_chars v start ≡ ok tt)
  validate_json_safety-accepts v start =
      (λ h. value_sound v start h, λ low short. value_complete v start low short)
