-- ===== src/Bridge/Exec.antt =====
-- plugin/bridge/capabilities.go, MatchExecGlobs and matchExecPattern: command lines against the
-- granted patterns.
pub mod Tokens
use opendray_v2_lab.Go.Strings.{fields, contains_any}
use opendray_v2_lab.Go.Glob.{path_match}
use opendray_v2_lab.Common.{
  ℕ, ◌≡◌, ◌≢◌, refl, ◌⊎◌, inl, inr, Bool, true, false, not, ◌&&◌, ◌||◌, List, [], ◌∷◌, ◌++◌, arith,
  Bytes, codes, nat_beq, bytes_beq, bytes_beq_iff, if◌then◌else◌, any, Bool-cases, length, ltb,
}

abbrev pub star : Bytes
star = codes "*"

-- Pattern tokens against the tokens of the command line: the last against the token in its place,
-- where `*` takes any token, and the earlier ones as they are.
unfoldable pub match_tokens : List Bytes → List Bytes → Bool
match_tokens [] tokens = false
match_tokens (p ∷ ps) [] = false
match_tokens (p ∷ []) (t ∷ ts) = if bytes_beq p star then true else path_match p t
match_tokens (p ∷ q ∷ ps) (t ∷ ts) = bytes_beq t p && match_tokens (q ∷ ps) ts

abbrev only_token : List Bytes → Bool
only_token [] = false
only_token (t ∷ []) = true
only_token (t ∷ u ∷ ts) = false

abbrev first_token : List Bytes → Bytes
first_token [] = []
first_token (t ∷ ts) = t

-- The tokens of a pattern other than `*`: none, one, or several.
unfoldable pub match_pattern_tokens : List Bytes → List Bytes → Bool
unfolding match_tokens
match_pattern_tokens [] tokens = false
match_pattern_tokens (p ∷ []) tokens =
    if not (contains_any p (codes "*?["))
    then only_token tokens && bytes_beq (first_token tokens) p
    else path_match p (first_token tokens) && only_token tokens
match_pattern_tokens (p ∷ q ∷ ps) tokens = match_tokens (p ∷ q ∷ ps) tokens

unfoldable pub match_exec_pattern : Bytes → List Bytes → Bool
unfolding match_pattern_tokens
match_exec_pattern pattern tokens =
    if bytes_beq pattern star
    then ltb 0 (length tokens)
    else match_pattern_tokens (fields pattern) tokens

-- The command line after its first byte has been looked at.
abbrev match_some : List Bytes → List Bytes → Bool
match_some granted [] = false
match_some granted (t ∷ ts) = any (λ pattern. match_exec_pattern pattern (t ∷ ts)) granted

unfoldable pub match_exec_globs : List Bytes → Bytes → Bool
unfolding match_exec_pattern
match_exec_globs [] cmdline = false
match_exec_globs (g ∷ granted) [] = false
match_exec_globs (g ∷ granted) (c ∷ rest) =
    if nat_beq c b' ' || nat_beq c 9 then false else match_some (g ∷ granted) (fields (c ∷ rest))
