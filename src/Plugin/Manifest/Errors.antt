-- ===== src/Plugin/Manifest/Errors.antt =====
-- plugin/manifest_validate.go: ValidationError. The path is spelled as in the code; of the message, the kind
-- is kept and not the offending value that some messages quote.
use opendray_v2_lab.Common.{
  ℕ, ◌+◌, Bool, List, [], ◌∷◌, ◌++◌, Option, none, some, Bytes, codes, if◌then◌else◌,
}
use opendray_v2_lab.Go.Decimal.{format_nat}
use opendray_v2_lab.Plugin.ConfigSchema

pub data Rule : Type 0 where
  must_not_be_empty must_match must_be_one_of required relative dots control : Rule
  too_many too_long unknown_view negative unsupported unknown_field : Rule
  missing : List Bytes → Rule
  schema : ConfigSchema.Rule → Rule

pub record ValidationError : Type 0 where
  pub path : Bytes
  pub rule : Rule

abbrev pub report : Bool → Bytes → Rule → List ValidationError
report broken path rule = if broken then record { path = path; rule = rule } ∷ [] else []

-- `if err := …; err != nil { errs = append(errs, …) }`
abbrev pub report_error : Bytes → Option Rule → List ValidationError
report_error path none = []
report_error path (some rule) = record { path = path; rule = rule } ∷ []

-- `for i, x := range xs { … }`, what each round reports
abbrev pub each {ℓ} :
    {A : Type ℓ} → (ℕ → A → List ValidationError) → ℕ → List A → List ValidationError
each f i [] = []
each f i (x ∷ xs) = f i x ++ each f (i + 1) xs

-- fmt.Sprintf("<name>[%d]", i)
unfoldable pub indexed : Bytes → ℕ → Bytes
indexed name i = name ++ (codes "[" ++ (format_nat i ++ codes "]"))
