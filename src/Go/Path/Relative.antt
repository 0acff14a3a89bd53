-- ===== src/Go/Path/Relative.antt =====
-- filepath.Clean for a relative path, and filepath.Ext, on a Unix system.
use opendray_v2_lab.Common.{
  ◌≡◌, ◌≢◌, refl, Bool, true, false, ◌||◌, List, [], ◌∷◌, Bytes, codes, nat_beq, bytes_beq,
  if◌then◌else◌,
}
use opendray_v2_lab.Go.Path.{slash, dot, dot_dot, components, join_slash}

-- `..` removes the innermost component, unless that is `..` itself or there is none.
abbrev step_up : List Bytes → List Bytes
step_up [] = dot_dot ∷ []
step_up (part ∷ kept) = if bytes_beq part dot_dot then dot_dot ∷ part ∷ kept else kept

unfoldable pub visit_relative : List Bytes → Bytes → List Bytes
visit_relative kept part =
    if bytes_beq part [] || bytes_beq part dot
    then kept
    else if bytes_beq part dot_dot
    then step_up kept
    else part ∷ kept

unfoldable pub visit_relatives : List Bytes → List Bytes → List Bytes
unfolding visit_relative
visit_relatives kept [] = kept
visit_relatives kept (part ∷ parts) = visit_relatives (visit_relative kept part) parts

abbrev outermost_first : List Bytes → List Bytes → List Bytes
outermost_first [] out = out
outermost_first (part ∷ kept) out = outermost_first kept (part ∷ out)

abbrev or_dot : Bytes → Bytes
or_dot [] = dot
or_dot (c ∷ s) = c ∷ s

unfoldable pub clean_relative : Bytes → Bytes
unfolding components visit_relatives
clean_relative path =
    or_dot (join_slash (outermost_first (visit_relatives [] (components path)) []))

sample_relative : clean_relative (codes "a/./b/../../../c//d") ≡ codes "../c/d"
unfolding clean_relative
sample_relative = refl

pub clean_relative_full : (path : Bytes) → clean_relative path ≢ []
unfolding clean_relative
clean_relative_full path =
    full (join_slash (outermost_first (visit_relatives [] (components path)) []))
  where
    full : (s : Bytes) → or_dot s ≢ []
    full [] = λ e. cc e
    full (c ∷ s) = λ e. cc e

-- The dot of the last component and what stands behind it, the last dot if there are more.
unfoldable pub ext : Bytes → Bytes
ext [] = []
ext (c ∷ s) =
    let rest = ext s in
    elim rest [
      | [] ↦ if nat_beq c b'.' then (if has_slash s then [] else c ∷ s) else []
      | d ∷ t ↦ d ∷ t
    ]
  where
    has_slash : Bytes → Bool
    has_slash [] = false
    has_slash (d ∷ t) = if nat_beq d slash then true else has_slash t
