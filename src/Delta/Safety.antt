-- ===== src/Delta/Safety.antt =====
-- `validate_json_safety` of viewer.rs: the limits on the depth and the texts of a source value. How many
-- characters a text has is a parameter.
pub mod Accepts
use halospawns_infra.Prelude.{ℕ, ◌+◌, ◌&&◌, ltb, if◌then◌else◌, length}
use halospawns_infra.Prelude.Results.{Result, ok, err}
use halospawns_infra.Delta.Codes.{Text, max_json_depth}
use halospawns_infra.Delta.Error.{Error, source_depth, source_string}
use halospawns_infra.Delta.Value.{
  Value, null, bool, number, string, array, object, Items, nil, cons, Fields, end, field,
}

abbrev pub max_string_characters : ℕ
max_string_characters = 67108864

-- `?` after a check
infixl 5 ◌>>◌
abbrev pub ◌>>◌ : Result Error (Unit {0}) → Result Error (Unit {0}) → Result Error (Unit {0})
ok a >> r = r
err e >> r = err e

abbrev pub within_depth : ℕ → Result Error (Unit {0}) → Result Error (Unit {0})
within_depth depth rest = if ltb max_json_depth depth then err source_depth else rest

module _ (count_chars : Text → ℕ) where
  unfoldable pub validate_text : Text → Result Error (Unit {0})
  validate_text s =
      if ltb max_string_characters (length s) && ltb max_string_characters (count_chars s)
      then err source_string
      else ok tt

  -- fn validate_json_safety
  unfoldable mutual
    unfolding validate_text

    pub validate_json_safety : Value → ℕ → Result Error (Unit {0})
    validate_json_safety null depth = within_depth depth (ok tt)
    validate_json_safety (bool b) depth = within_depth depth (ok tt)
    validate_json_safety (number n) depth = within_depth depth (ok tt)
    validate_json_safety (string s) depth = within_depth depth (validate_text s)
    validate_json_safety (array vs) depth = within_depth depth (validate_items vs (depth + 1))
    validate_json_safety (object fs) depth = within_depth depth (validate_fields fs (depth + 1))

    pub validate_items : Items → ℕ → Result Error (Unit {0})
    validate_items nil depth = ok tt
    validate_items (cons v vs) depth = do validate_json_safety v depth; validate_items vs depth

    pub validate_fields : Fields → ℕ → Result Error (Unit {0})
    validate_fields end depth = ok tt
    validate_fields (field k v fs) depth = do validate_json_safety v depth; validate_fields fs depth
