-- ===== src/Plugin/Revocation/Sweep.antt =====
-- plugin/market/revocation: a sweep acts on the plugins that an entry concerns, and on no others.
use opendray_v2_lab.Common.{
  ◌≡◌, ◌≢◌, refl, sym, ap, ◌∙◌, inl, inr, Bool, true, false, ◌&&◌, ◌||◌, List, [], ◌∷◌, ◌++◌,
  Option, none, some, Bytes, bytes_eq, codes, ◌==◌, keep, map, if◌then◌else◌, Bool-cases, pick,
  arith,
}
use opendray_v2_lab.Go.Trim.{trim_space}
use opendray_v2_lab.Plugin.Revocation.{
  Entry, InstalledPlugin, Match, malformed, found, Semver, is_empty, publisher_of, parse_entry_name,
  checked, in_range, match_versions, match_named, match_entry, sweep_entry, sweep_entries,
}

abbrev pub is_hit : Match → Bool
is_hit malformed = false
is_hit (found hit) = hit

module _ (semver : Semver) where
  -- The pairs of an entry and a plugin that match, in the order of the two lists.
  pub concerned : List Entry → List InstalledPlugin → List (Entry × InstalledPlugin)
  concerned [] ps = []
  concerned (e ∷ es) ps =
      map (λ p. (e, p)) (keep (λ p. is_hit (match_entry semver e p)) ps) ++ concerned es ps

  in_range_malformed :
      (o : Option semver.Range) (v v' : Bytes)
      → in_range semver o v ≡ malformed
      → in_range semver o v' ≡ malformed
  in_range_malformed none v v' h = refl
  in_range_malformed (some r) v v' h = absurd (is_found (semver.version v) h)
    where
      is_found : (o : Option semver.Version) → checked semver r o ≢ malformed
      is_found none e = cc
      is_found (some w) e = cc

  -- A range that does not parse is malformed for every version.
  match_versions_malformed :
      (expr v v' : Bytes)
      → match_versions semver expr v ≡ malformed
      → match_versions semver expr v' ≡ malformed
  unfolding match_versions
  match_versions_malformed expr v v' h = elim (Bool-cases (is_empty expr || (expr == codes "*"))) [
    | inl any ↦ absurd (ground (arith, any, h))
    | inr range ↦ rw range (in_range_malformed (semver.range expr) v v' (ground (arith, range, h)))
  ]

  match_named_malformed :
      (e : Entry) (o : Option (Bytes × Bytes)) (p q : InstalledPlugin)
      → match_named semver e o p ≡ malformed
      → is_hit (match_named semver e o q) ≡ false
  match_named_malformed e none p q h = refl
  match_named_malformed e (some (publisher, name)) p q h =
      elim (Bool-cases ((publisher == publisher_of p) && (name == p.name))) [
        | inr other ↦ absurd (ground (arith, other, h))
        | inl same ↦
            let bad =
              match_versions_malformed (trim_space e.versions) p.version q.version
                (ground (arith, same, h)) in
            pick (λ r. is_hit r ≡ false) ((publisher == publisher_of q) && (name == q.name)) _ _
              (λ _. ap is_hit bad) (λ _. refl)
      ]

  -- An entry that is malformed for one plugin is a hit for none.
  malformed_hits_none :
      (e : Entry) (p q : InstalledPlugin)
      → match_entry semver e p ≡ malformed
      → is_hit (match_entry semver e q) ≡ false
  unfolding match_entry
  malformed_hits_none e p q h = match_named_malformed e (parse_entry_name e.name) p q h

  keep-none :
      (e : Entry) (p : InstalledPlugin) (ps : List InstalledPlugin)
      → match_entry semver e p ≡ malformed
      → keep (λ q. is_hit (match_entry semver e q)) ps ≡ []
  keep-none e p [] h = refl
  keep-none e p (q ∷ ps) h = rw (malformed_hits_none e p q h) (keep-none e p ps h)

  sweep_entry-keep :
      (e : Entry) (ps : List InstalledPlugin)
      → sweep_entry semver e ps ≡ map (λ p. (e, p)) (keep (λ p. is_hit (match_entry semver e p)) ps)
  unfolding sweep_entry
  sweep_entry-keep e [] = refl
  sweep_entry-keep e (p ∷ ps) = go (match_entry semver e p) refl (sweep_entry-keep e ps)
    where
      go :
          (m : Match)
          → match_entry semver e p ≡ m
          → sweep_entry semver e ps
            ≡ map (λ q. (e, q)) (keep (λ q. is_hit (match_entry semver e q)) ps)
          → (elim m [
            | malformed ↦ []
            | found hit ↦ if hit then (e, p) ∷ sweep_entry semver e ps else sweep_entry semver e ps
          ])
            ≡ map
                (λ q. (e, q))
                (if is_hit m
                  then p ∷ keep (λ q. is_hit (match_entry semver e q)) ps
                  else keep (λ q. is_hit (match_entry semver e q)) ps)
      go malformed h again = ap (map (λ q. (e, q))) (sym (keep-none e p ps h))
      go (found true) h again = ap (λ rest. (e, p) ∷ rest) again
      go (found false) h again = again

  -- A sweep calls for action on exactly the pairs of an entry and an installed plugin that match, entry by
  -- entry and in the order of the plugins: that a malformed entry is left at the first plugin for which it
  -- proves malformed loses no match, since it matches no plugin at all.
  pub sweep_entries-concerned :
      (es : List Entry) (ps : List InstalledPlugin) → sweep_entries semver es ps ≡ concerned es ps
  unfolding sweep_entries concerned
  sweep_entries-concerned [] ps = refl
  sweep_entries-concerned (e ∷ es) ps =
      ap (λ here. here ++ sweep_entries semver es ps) (sweep_entry-keep e ps)
      ∙ ap (λ rest. map (λ p. (e, p)) (keep (λ p. is_hit (match_entry semver e p)) ps) ++ rest)
          (sweep_entries-concerned es ps)
