-- ===== src/Film/OrderedDelta/Alike.antt =====
-- `same` of ordered_delta.rs, which looks keys up only where they do not stand side by side, is
-- `delta_same` of viewer.rs.
use halospawns_infra.Prelude.{
  ◌≡◌, refl, sym, ◌∙◌, some, inl, inr, ◌==◌, arith, Bool-cases, Option-cases,
}
use halospawns_infra.Delta.Wire.{text_eq_sound}
use halospawns_infra.Delta.Value.{
  Value, null, bool, number, string, array, object, Items, nil, cons, Fields, end, field, items_of,
  fields_of, length_fields, field_at,
}
use halospawns_infra.Delta.Same
use halospawns_infra.Film.TextEqual.{equal}
use halospawns_infra.Film.OrderedDelta.{same, items_same, fields_same}
use halospawns_infra.Film.OrderedDelta.Keyed.{
  Keyed, ItemsKeyed, FieldsKeyed, Found, Found-refl, Keyed-field_at, equal-text_eq,
}

mutual
  unfolding same items_same fields_same Same.same Same.items_same Same.fields_same Keyed ItemsKeyed
      FieldsKeyed items_of fields_of Found length_fields

  pub same_both : (p n : Value) → Keyed p → Keyed n → same p n ≡ Same.same p n
  same_both null n kp kn = refl
  same_both (bool b) n kp kn = refl
  same_both (number v) n kp kn = refl
  same_both (string s) n kp kn = refl
  same_both (array ps) (array ns) kp kn = rw (items_both ps ns kp kn) refl
  same_both (array ps) null kp kn = refl
  same_both (array ps) (bool b) kp kn = refl
  same_both (array ps) (number v) kp kn = refl
  same_both (array ps) (string s) kp kn = refl
  same_both (array ps) (object s) kp kn = refl
  same_both (object ps) (object ns) kp kn =
      elim (Bool-cases (length_fields ps == length_fields ns)) [
        | inl e ↦ rw (e, fields_both ns ps ns kn kp kn (Found-refl ns kn) (ground arith)) refl
        | inr e ↦ rw e refl
      ]
  same_both (object ps) null kp kn = refl
  same_both (object ps) (bool b) kp kn = refl
  same_both (object ps) (number v) kp kn = refl
  same_both (object ps) (string s) kp kn = refl
  same_both (object ps) (array s) kp kn = refl

  items_both :
      (ps ns : Items) → ItemsKeyed ps → ItemsKeyed ns → items_same ps ns ≡ Same.items_same ps ns
  items_both nil ns kp kn = refl
  items_both (cons p ps) nil kp kn = refl
  items_both (cons p ps) (cons n ns) (kp, kps) (kn, kns) =
      rw (same_both p n kp kn, items_both ps ns kps kns) refl

  fields_both :
      (whole ps ns : Fields)
      → FieldsKeyed whole
      → FieldsKeyed ps
      → FieldsKeyed ns
      → Found whole ns
      → length_fields ps ≡ length_fields ns
      → fields_same whole ps ns ≡ Same.fields_same ps whole
  fields_both whole end ns kw kp kn f e = refl
  fields_both whole (field k p ps) end kw kp kn f e = absurd (omega arith)
  fields_both whole (field k p ps) (field j n ns) kw (bk, (hk, (kp, kps))) (bj, (hj, (kn, kns))) f
        e =
      let (here, later) = f in
      let rest = fields_both whole ps ns kw kps kns later (omega (arith, e)) in
      elim (Bool-cases (equal k j)) [
        | inl t ↦
            let found : field_at whole k ≡ some n =
              (rw (text_eq_sound k j (sym (equal-text_eq k j bk bj) ∙ t)) here) in
            rw (t, found, rest, same_both p n kp kn) refl
        | inr t ↦ elim (Option-cases (field_at whole k)) [
          | inl e ↦ rw (t, e) refl
          | inr (w, e) ↦ rw (t, e, rest, same_both p w kp (Keyed-field_at whole k w kw e)) refl
        ]
      ]
