-- ===== src/Plugin/Manifest/Grammar.antt =====
-- plugin/manifest_validate.go: the patterns of a manifest's texts, and the checks of one text each.
use opendray_v2_lab.Common.{
  ℕ, Bool, not, ◌&&◌, ◌||◌, Option, none, some, Bytes, codes, leb, ltb, nat_beq, any, has_prefix,
  if◌then◌else◌,
}
use opendray_v2_lab.Go.Strings.{contains}
use opendray_v2_lab.Go.Decimal.{is_digit}
use opendray_v2_lab.Go.Regexp.{
  Regex, one, upto, seq, alt, literal, at_least_one, optional, match_string,
}
use opendray_v2_lab.Plugin.Contributions.{is_empty}
use opendray_v2_lab.Plugin.Manifest.{EnginesV1, names_engine}
use opendray_v2_lab.Plugin.Manifest.Errors.{
  Rule, must_not_be_empty, must_match, required, relative, dots, control,
}

abbrev pub is_lower : ℕ → Bool
is_lower c = leb b'a' c && leb c b'z'

abbrev pub is_upper : ℕ → Bool
is_upper c = leb b'A' c && leb c b'Z'

-- [a-z0-9] and [a-z0-9-]
abbrev pub is_alnum : ℕ → Bool
is_alnum c = is_lower c || is_digit c

abbrev pub is_name_byte : ℕ → Bool
is_name_byte c = is_alnum c || nat_beq c b'-'

-- [a-z0-9._-]
abbrev pub is_id_byte : ℕ → Bool
is_id_byte c = is_name_byte c || (nat_beq c b'.' || nat_beq c b'_')

-- [A-Za-z0-9.-]
abbrev pub is_tag_byte : ℕ → Bool
is_tag_byte c = is_upper c || (is_name_byte c || nat_beq c b'.')

-- ^[a-z0-9]([a-z0-9-]{0,n}[a-z0-9])?$
abbrev pub re_label : ℕ → Regex
re_label n = seq (one is_alnum) (optional (seq (upto n is_name_byte) (one is_alnum)))

abbrev pub re_name : Regex
re_name = re_label 62

abbrev pub re_publisher : Regex
re_publisher = re_label 38

-- ^\d+\.\d+\.\d+(-[A-Za-z0-9.-]+)?$
abbrev pub re_version : Regex
re_version = seq (at_least_one is_digit) (
    seq (one (nat_beq b'.')) (
      seq (at_least_one is_digit) (
        seq (one (nat_beq b'.')) (
          seq (at_least_one is_digit)
            (optional (seq (one (nat_beq b'-')) (at_least_one is_tag_byte)))))))

abbrev pub re_command_id : Regex
re_command_id = at_least_one is_id_byte

-- [^\s], and `.`
abbrev pub is_not_space : ℕ → Bool
is_not_space c =
    not (nat_beq c 9 || (nat_beq c 10 || (nat_beq c 12 || (nat_beq c 13 || nat_beq c 32))))

abbrev pub is_not_newline : ℕ → Bool
is_not_newline c = not (nat_beq c 10)

abbrev pub re_session_event : Regex
re_session_event =
    alt (literal (codes "start"))
      (alt (literal (codes "stop")) (alt (literal (codes "idle")) (literal (codes "output"))))

abbrev pub re_activation : Regex
re_activation = alt (literal (codes "onStartup")) (
    alt (seq (literal (codes "onCommand:")) (at_least_one is_id_byte)) (
      alt (seq (literal (codes "onView:")) (at_least_one is_id_byte)) (
        alt (seq (literal (codes "onSession:")) re_session_event) (
          alt
            (seq (literal (codes "onLanguage:"))
              (at_least_one (λ c. is_name_byte c || nat_beq c b'_')))
            (alt (seq (literal (codes "onFile:")) (at_least_one is_not_space))
              (seq (literal (codes "onSchedule:cron:")) (at_least_one is_not_newline)))))))

-- An empty text is refused as such, any other by the pattern.
abbrev pub matched : Regex → Bytes → Option Rule
matched re s =
    if is_empty s
    then some must_not_be_empty
    else if not (match_string re s)
    then some must_match
    else none

unfoldable pub validate_name : Bytes → Option Rule
validate_name name = matched re_name name

unfoldable pub validate_publisher : Bytes → Option Rule
validate_publisher publisher = matched re_publisher publisher

unfoldable pub validate_semver : Bytes → Option Rule
validate_semver v = matched re_version v

unfoldable pub validate_command_id : Bytes → Option Rule
validate_command_id id = matched re_command_id id

unfoldable pub validate_engines : Option EnginesV1 → Option Rule
validate_engines e = if names_engine e then none else some required

unfoldable pub validate_activation_event : Bytes → Option Rule
validate_activation_event ev = if match_string re_activation ev then none else some must_match

abbrev pub is_control : ℕ → Bool
is_control c = ltb c 32 || nat_beq c 127

unfoldable pub validate_relative_bundle_path : Bytes → Option Rule
unfolding contains
validate_relative_bundle_path p =
    if is_empty p
    then some must_not_be_empty
    else if has_prefix p (codes "/")
    then some relative
    else if contains p (codes "..")
    then some dots
    else if any is_control p
    then some control
    else none
