-- ===== src/Plugin/ConfigSchema.antt =====
-- plugin/manifest_validate.go: the fields that a manifest's configSchema declares. An error keeps the index of
-- its field and its kind, which the path and the message in the code spell out.
pub mod Valid
mod Tests
use opendray_v2_lab.Common.{
  ℕ, ◌+◌, Bool, true, false, not, ◌&&◌, ◌||◌, List, [], ◌∷◌, ◌++◌, Bytes, bytes_eq, codes, ◌==◌,
  any, leb, nat_beq, if◌then◌else◌,
}

-- The fields of ConfigField that the check reads.
pub record ConfigField : Type 0 where
  pub key : Bytes
  pub label : Bytes
  pub field_type : Bytes
  pub options : List Bytes

pub data Rule : Type 0 where
  key_required key_shape key_duplicate label_required type_unknown options_required : Rule

abbrev pub is_empty : Bytes → Bool
is_empty [] = true
is_empty (c ∷ s) = false

abbrev pub is_letter : ℕ → Bool
is_letter c = (leb b'a' c && leb c b'z') || (leb b'A' c && leb c b'Z')

abbrev pub is_word : ℕ → Bool
is_word c = is_letter c || (leb b'0' c && leb c b'9') || nat_beq c b'_'

abbrev pub all_words : Bytes → Bool
all_words [] = true
all_words (c ∷ s) = is_word c && all_words s

-- configFieldKeyPattern: a letter, then letters, digits and `_`
abbrev pub is_key : Bytes → Bool
is_key [] = false
is_key (c ∷ s) = is_letter c && all_words s

-- configFieldTypes
abbrev pub config_field_types : List Bytes
config_field_types =
    codes "string"
    ∷ codes "text"
    ∷ codes "number"
    ∷ codes "bool"
    ∷ codes "boolean"
    ∷ codes "select"
    ∷ codes "secret"
    ∷ codes "args"
    ∷ []

abbrev pub among : Bytes → List Bytes → Bool
among key seen = any (λ other. other == key) seen

abbrev pub no_options : List Bytes → Bool
no_options [] = true
no_options (o ∷ os) = false

abbrev pub report : Bool → ℕ → Rule → List (ℕ × Rule)
report broken i rule = if broken then (i, rule) ∷ [] else []

unfoldable pub key_errors : ℕ → List Bytes → Bytes → List (ℕ × Rule)
key_errors i seen key =
    if is_empty key
    then (i, key_required) ∷ []
    else if not (is_key key)
    then (i, key_shape) ∷ []
    else report (among key seen) i key_duplicate

-- A key that passes is remembered.
abbrev pub remember : List Bytes → Bytes → List Bytes
remember seen key = if is_key key && not (among key seen) then key ∷ seen else seen

unfoldable pub field_errors : ℕ → List Bytes → ConfigField → List (ℕ × Rule)
unfolding key_errors
field_errors i seen f =
    key_errors i seen f.key
    ++ (report (is_empty f.label) i label_required
        ++ (report (not (among f.field_type config_field_types)) i type_unknown
            ++ report ((f.field_type == codes "select") && no_options f.options) i
                options_required))

unfoldable pub validate_fields : ℕ → List Bytes → List ConfigField → List (ℕ × Rule)
unfolding field_errors
validate_fields i seen [] = []
validate_fields i seen (f ∷ fs) =
    field_errors i seen f ++ validate_fields (i + 1) (remember seen f.key) fs

unfoldable pub validate_config_schema : List ConfigField → List (ℕ × Rule)
unfolding validate_fields
validate_config_schema schema = validate_fields 0 [] schema
