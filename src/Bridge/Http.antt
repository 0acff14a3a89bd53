-- ===== src/Bridge/Http.antt =====
-- plugin/bridge/capabilities.go, MatchHTTPURL, matchHTTPPattern and isPrivateHost: URLs against the
-- granted patterns. The parsers of URLs and addresses are net/url's and net's, and parameters here.
pub mod Private
pub mod Granted
use opendray_v2_lab.Go.Strings.{cut_at, equal_fold}
use opendray_v2_lab.Go.Glob.{path_match}
use opendray_v2_lab.Go.Net.{
  Network, network_contains, is_loopback, is_link_local_unicast, is_link_local_multicast,
}
use opendray_v2_lab.Common.{
  ℕ, ◌≡◌, Bool, true, false, not, ◌||◌, List, [], ◌∷◌, Bytes, codes, bytes_beq, if◌then◌else◌, any,
  drop, has_prefix, Option, none, some,
}

-- What the program reads of a url.URL; `hostname` is Hostname(), without port and brackets.
pub record Url : Type 0 where
  pub scheme : Bytes
  pub host : Bytes
  pub hostname : Bytes
  pub path : Bytes

-- 10.0.0.0/8, 172.16.0.0/12 and 192.168.0.0/16, as net.ParseCIDR reads them.
abbrev pub private_ranges : List Network
private_ranges =
    record { n0 = 10; n1 = 0; n2 = 0; n3 = 0; m0 = 255; m1 = 0; m2 = 0; m3 = 0 }
    ∷ record { n0 = 172; n1 = 16; n2 = 0; n3 = 0; m0 = 255; m1 = 240; m2 = 0; m3 = 0 }
    ∷ record { n0 = 192; n1 = 168; n2 = 0; n3 = 0; m0 = 255; m1 = 255; m2 = 0; m3 = 0 }
    ∷ []

-- The tests of `isPrivateHost` on a parsed address.
unfoldable pub is_private_ip : Bytes → Bool
is_private_ip ip =
    if is_loopback ip
    then true
    else if is_link_local_unicast ip
    then true
    else if is_link_local_multicast ip
    then true
    else any (λ network. network_contains network ip) private_ranges

unfoldable pub is_private_host : (Bytes → Option Bytes) → Bytes → Bool
is_private_host parse_ip host =
    if equal_fold host (codes "localhost")
    then true
    else elim (parse_ip host) [ none ↦ false | some ip ↦ is_private_ip ip ]

-- The path of the URL against the pattern's part from the first slash on.
unfoldable pub match_url_path : Bytes → Bytes → Bool
match_url_path pat_path path =
    let url_path = if bytes_beq path [] then codes "/" else path in
    if bytes_beq pat_path [] || bytes_beq pat_path (codes "/")
    then true
    else if bytes_beq pat_path (codes "/*")
    then has_prefix url_path (codes "/")
    else path_match pat_path url_path

-- What stands behind `://` in a pattern, as the globs of the host and of the path.
unfoldable pub split_rest : Bytes → Bytes × Bytes
split_rest rest = elim (cut_at rest (codes "/")) [
  | none ↦ (rest, [])
  | some (host_glob, path_glob) ↦ (host_glob, path_glob)
]

-- A pattern of the given scheme and rest.
unfoldable pub match_named : Bytes → Bytes → Url → Bool
match_named pat_scheme rest u =
    let (host_glob, path_glob) = split_rest rest in
    if not (bytes_beq pat_scheme u.scheme)
    then false
    else if not (path_match host_glob u.hostname)
    then false
    else match_url_path path_glob u.path

unfoldable pub match_http_pattern : Bytes → Url → Bool
match_http_pattern pattern u =
    if bytes_beq pattern (codes "*")
    then bytes_beq u.scheme (codes "https")
    else elim (cut_at pattern (codes "://")) [
      | none ↦ false
      | some (pat_scheme, found) ↦ match_named pat_scheme (drop 3 found) u
    ]

-- The parsers, and the URL matcher over them.
module _ (parse_url : Bytes → Option Url) (parse_ip : Bytes → Option Bytes) where
  abbrev match_url : List Bytes → Option Url → Bool
  match_url granted none = false
  match_url granted (some u) =
      if bytes_beq u.host []
      then false
      else if is_private_host parse_ip u.hostname
      then false
      else any (λ pattern. match_http_pattern pattern u) granted

  unfoldable pub match_http_url : List Bytes → Bytes → Bool
  match_http_url [] raw_url = false
  match_http_url (g ∷ granted) [] = false
  match_http_url (g ∷ granted) (c ∷ rest) = match_url (g ∷ granted) (parse_url (c ∷ rest))
