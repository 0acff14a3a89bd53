-- ===== src/Go/Trim.antt =====
-- strings.TrimRightFunc, strings.TrimLeftFunc and strings.TrimSpace.
use opendray_v2_lab.Common.{ℕ, Bool, true, false, ◌&&◌, [], ◌∷◌, Bytes, if◌then◌else◌}
use opendray_v2_lab.Go.Strings.{is_space}

abbrev nothing_left : Bytes → Bool
nothing_left [] = true
nothing_left (c ∷ s) = false

-- strings.TrimRightFunc
unfoldable pub trim_right : (ℕ → Bool) → Bytes → Bytes
trim_right drops [] = []
trim_right drops (c ∷ s) =
    let rest = trim_right drops s in if drops c && nothing_left rest then [] else c ∷ rest

-- strings.TrimLeftFunc
unfoldable pub trim_left : (ℕ → Bool) → Bytes → Bytes
trim_left drops [] = []
trim_left drops (c ∷ s) = let rest = trim_left drops s in if drops c then rest else c ∷ s

-- strings.TrimSpace
unfoldable pub trim_space : Bytes → Bytes
trim_space s = trim_left is_space (trim_right is_space s)
