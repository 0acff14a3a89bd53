-- ===== src/Plugin/ConfigSchema/Valid.antt =====
-- plugin/manifest_validate.go: which schemas pass.
use opendray_v2_lab.Common.{
  ℕ, ◌+◌, ◌≡◌, ◌↔◌, refl, sym, ap, ◌∙◌, Bool, true, false, not, ◌&&◌, List, [], ◌∷◌, ◌++◌, Bytes,
  bytes_eq, codes, ◌==◌, arith,
}
use opendray_v2_lab.Plugin.ConfigSchema.{
  ConfigField, Rule, label_required, type_unknown, options_required, is_empty, is_key,
  config_field_types, among, no_options, report, key_errors, remember, field_errors,
  validate_fields, validate_config_schema,
}

-- One field, taken by itself.
abbrev pub IsField : ConfigField → Type 0
IsField f =
    (is_key f.key ≡ true)
    × (is_empty f.label ≡ false)
    × (among f.field_type config_field_types ≡ true)
    × ((f.field_type == codes "select") && no_options f.options ≡ false)

-- Every field is in order, and no key is among those before it.
abbrev pub AllNew : List Bytes → List ConfigField → Type 0
AllNew before [] = Unit
AllNew before (f ∷ fs) = IsField f × (among f.key before ≡ false) × AllNew (f.key ∷ before) fs

pub append_empty : {A : Type 0} (xs ys : List A) → (xs ++ ys ≡ []) ↔ ((xs ≡ []) × (ys ≡ []))
append_empty [] ys = (λ h. (refl, h), λ h. h.1)
append_empty (x ∷ xs) ys = (λ h. absurd (ground (arith, h)), λ h. absurd (ground (arith, h.0)))

report_empty :
    (broken : Bool) (i : ℕ) (rule : Rule) → (report broken i rule ≡ []) ↔ (broken ≡ false)
report_empty true i rule = ground arith
report_empty false i rule = ground arith

key_is_not_empty : (key : Bytes) → is_key key ≡ true → is_empty key ≡ false
key_is_not_empty [] h = cc
key_is_not_empty (c ∷ s) h = refl

key_errors_empty :
    (i : ℕ) (seen : List Bytes) (key : Bytes)
    → (key_errors i seen key ≡ []) ↔ ((is_key key ≡ true) × (among key seen ≡ false))
unfolding key_errors
key_errors_empty i seen key = ground (arith, key_is_not_empty key)

field_errors_empty :
    (i : ℕ) (seen : List Bytes) (f : ConfigField)
    → (field_errors i seen f ≡ []) ↔ (IsField f × (among f.key seen ≡ false))
unfolding field_errors
field_errors_empty i seen f = (
  λ h.
      let (keys, rest) =
        (append_empty (key_errors i seen f.key) (labels ++ (kinds ++ choices))).0 h in
      let (a, rest') = (append_empty labels (kinds ++ choices)).0 rest in
      let (b, c) = (append_empty kinds choices).0 rest' in
      let (shape, fresh) = (key_errors_empty i seen f.key).0 keys in
      (
        (
          shape,
          (report_empty (is_empty f.label) i label_required).0 a,
          not_not (among f.field_type config_field_types)
              ((report_empty (not (among f.field_type config_field_types)) i type_unknown).0 b),
          (report_empty ((f.field_type == codes "select") && no_options f.options) i
                options_required).0
              c,
        ),
        fresh,
      ),
  λ (x : IsField f × (among f.key seen ≡ false)).
      let ((shape, labelled, known, chosen), fresh) = x in
      (append_empty (key_errors i seen f.key) (labels ++ (kinds ++ choices))).1 (
        (key_errors_empty i seen f.key).1 (shape, fresh),
        (append_empty labels (kinds ++ choices)).1 (
          (report_empty (is_empty f.label) i label_required).1 labelled,
          (append_empty kinds choices).1 (
            (report_empty (not (among f.field_type config_field_types)) i type_unknown).1
                (ap not known),
            (report_empty ((f.field_type == codes "select") && no_options f.options) i
                  options_required).1
                chosen,
          ),
        ),
      ),
)
  where
    labels : List (ℕ × Rule)
    labels = report (is_empty f.label) i label_required

    kinds : List (ℕ × Rule)
    kinds = report (not (among f.field_type config_field_types)) i type_unknown

    choices : List (ℕ × Rule)
    choices = report ((f.field_type == codes "select") && no_options f.options) i options_required

    not_not : (b : Bool) → not b ≡ false → b ≡ true
    not_not true h = refl
    not_not false h = sym h

remember_new :
    (seen : List Bytes) (key : Bytes)
    → is_key key ≡ true
    → among key seen ≡ false
    → remember seen key ≡ key ∷ seen
remember_new seen key shape fresh = ground (arith, shape, fresh)

validate_fields_empty :
    (fs : List ConfigField) (i : ℕ) (seen : List Bytes)
    → (validate_fields i seen fs ≡ []) ↔ AllNew seen fs
unfolding validate_fields
validate_fields_empty [] i seen = (λ h. tt, λ h. refl)
validate_fields_empty (f ∷ fs) i seen =
    let here = field_errors_empty i seen f in
    (
      λ h.
          let (none_here, none_later) =
            (append_empty (field_errors i seen f)
                (validate_fields (i + 1) (remember seen f.key) fs)).0
              h in
          let (ok, fresh) = here.0 none_here in
          (
            ok,
            fresh,
            (validate_fields_empty fs (i + 1) (f.key ∷ seen)).0 (
                ap (λ keys. validate_fields (i + 1) keys fs)
                  (sym (remember_new seen f.key ok.0 fresh))
                ∙ none_later),
          ),
      λ (x : AllNew seen (f ∷ fs)).
          let (ok, fresh, later) = x in
          (append_empty (field_errors i seen f)
              (validate_fields (i + 1) (remember seen f.key) fs)).1
            (
              here.1 (ok, fresh),
              ap (λ keys. validate_fields (i + 1) keys fs) (remember_new seen f.key ok.0 fresh)
                  ∙ (validate_fields_empty fs (i + 1) (f.key ∷ seen)).1 later,
            ),
    )

-- A schema passes without an error exactly when each field has a key that is a letter and then letters,
-- digits and `_`, a label, a known type, and options if its type is select, and no key repeats that of
-- an earlier field.
pub validate_config_schema-AllNew :
    (schema : List ConfigField) → (validate_config_schema schema ≡ []) ↔ AllNew [] schema
unfolding validate_config_schema
validate_config_schema-AllNew schema = validate_fields_empty schema 0 []
