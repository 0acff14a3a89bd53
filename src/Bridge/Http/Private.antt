-- ===== src/Bridge/Http/Private.antt =====
-- Which IPv4 addresses `isPrivateHost` denies.
use Prim.Native.Nat.{bit_and}
use opendray_v2_lab.Go.Strings.{equal_fold}
use opendray_v2_lab.Go.Net.{
  Network, to4, network_contains, is_loopback, is_link_local_unicast, is_link_local_multicast,
}
use opendray_v2_lab.Common.{
  if◌then◌else◌, ℕ, zero, suc, ◌<◌, ◌≡◌, refl, ◌∙◌, Bool, true, false, ◌&&◌, ◌||◌, List, [], ◌∷◌,
  arith, Bytes, codes, nat_beq, nat_beq_iff, leb, Option, some, Bool-cases, inl, inr,
}
use opendray_v2_lab.Bridge.Http.{Url, is_private_ip, is_private_host, match_http_url}

-- The loopback, private and link-local IPv4 addresses, by their first three bytes.
abbrev pub private_v4 : ℕ → ℕ → ℕ → Bool
private_v4 a b c =
    nat_beq a 127
    || nat_beq a 10
    || (nat_beq a 172 && (leb 16 b && leb b 31))
    || (nat_beq a 192 && nat_beq b 168)
    || (nat_beq a 169 && nat_beq b 254)
    || (nat_beq a 224 && (nat_beq b 0 && nat_beq c 0))

-- Some byte below the bound fails the test.
refuted : (ℕ → Bool) → ℕ → Bool
refuted test zero = false
refuted test (suc bound) = if test bound then refuted test bound else true

below_unrefuted :
    (test : ℕ → Bool) (bound byte : ℕ)
    → byte < bound
    → refuted test bound ≡ false
    → test byte ≡ true
unfolding refuted
below_unrefuted test zero byte lt none_fails = absurd (omega arith)
below_unrefuted test (suc bound) byte lt none_fails =
    ground (arith, none_fails, below_unrefuted test bound byte)

abbrev ten : Network
ten = record { n0 = 10; n1 = 0; n2 = 0; n3 = 0; m0 = 255; m1 = 0; m2 = 0; m3 = 0 }

abbrev twelve : Network
twelve = record { n0 = 172; n1 = 16; n2 = 0; n3 = 0; m0 = 255; m1 = 240; m2 = 0; m3 = 0 }

abbrev sixteen : Network
sixteen = record { n0 = 192; n1 = 168; n2 = 0; n3 = 0; m0 = 255; m1 = 255; m2 = 0; m3 = 0 }

-- A byte under each of the masks that occur.
abbrev same : Bool → Bool → Bool
same true b = b
same false true = false
same false false = true

same_eq : (a b : Bool) → same a b ≡ true → a ≡ b
same_eq a b h = ground arith

mask_byte : (x : ℕ) → x < 256 → bit_and x 255 ≡ x
mask_byte x h =
    (nat_beq_iff (bit_and x 255) x).0
      (below_unrefuted (λ y. nat_beq (bit_and y 255) y) 256 x h table)
  where
    table : refuted (λ y. nat_beq (bit_and y 255) y) 256 ≡ false
    table = unfold refuted in refl

mask_none : (x : ℕ) → x < 256 → bit_and x 0 ≡ 0
mask_none x h =
    (nat_beq_iff (bit_and x 0) 0).0 (below_unrefuted (λ y. nat_beq (bit_and y 0) 0) 256 x h table)
  where
    table : refuted (λ y. nat_beq (bit_and y 0) 0) 256 ≡ false
    table = unfold refuted in refl

mask_twelve : (x : ℕ) → x < 256 → nat_beq 16 (bit_and x 240) ≡ (leb 16 x && leb x 31)
mask_twelve x h =
    same_eq _ _ (
      below_unrefuted (λ y. same (nat_beq 16 (bit_and y 240)) (leb 16 y && leb y 31)) 256 x h table)
  where
    table : refuted (λ y. same (nat_beq 16 (bit_and y 240)) (leb 16 y && leb y 31)) 256 ≡ false
    table = unfold refuted in refl

-- An address whose four IPv4 bytes are known.
module _ (ip : Bytes) (a b c d : ℕ) (e : to4 ip ≡ some (a, b, c, d)) where
  contains_v4 :
      (net : Network)
      → network_contains net ip ≡ (
          nat_beq (bit_and net.n0 net.m0) (bit_and a net.m0)
          && (nat_beq (bit_and net.n1 net.m1) (bit_and b net.m1)
              && (nat_beq (bit_and net.n2 net.m2) (bit_and c net.m2)
                  && nat_beq (bit_and net.n3 net.m3) (bit_and d net.m3))))
  unfolding network_contains
  contains_v4 net = rw (e, network_contains)

  module _ (ha : a < 256) (hb : b < 256) (hc : c < 256) (hd : d < 256) where
    in_ten : network_contains ten ip ≡ nat_beq a 10
    in_ten =
        contains_v4 ten
        ∙ rw (mask_byte a ha, mask_none b hb, mask_none c hc, mask_none d hd) (ground arith)

    in_twelve : network_contains twelve ip ≡ (nat_beq a 172 && (leb 16 b && leb b 31))
    in_twelve =
        contains_v4 twelve
        ∙ rw (mask_byte a ha, mask_twelve b hb, mask_none c hc, mask_none d hd) (ground arith)

    in_sixteen : network_contains sixteen ip ≡ (nat_beq a 192 && nat_beq b 168)
    in_sixteen =
        contains_v4 sixteen
        ∙ rw (mask_byte a ha, mask_byte b hb, mask_none c hc, mask_none d hd) (ground arith)

    loopback_v4 : is_loopback ip ≡ nat_beq a 127
    unfolding is_loopback
    loopback_v4 = rw (e, is_loopback)

    unicast_v4 : is_link_local_unicast ip ≡ (nat_beq a 169 && nat_beq b 254)
    unfolding is_link_local_unicast
    unicast_v4 = rw (e, is_link_local_unicast)

    multicast_v4 : is_link_local_multicast ip ≡ (nat_beq a 224 && (nat_beq b 0 && nat_beq c 0))
    unfolding is_link_local_multicast
    multicast_v4 = rw (e, is_link_local_multicast)

    -- The tests of `isPrivateHost` on an address, masks included, hold for an IPv4 address, also in
    -- its 16-byte form, exactly if it lies in 127/8, 10/8, 172.16/12, 192.168/16, 169.254/16 or
    -- 224.0.0/24.
    pub is_private_ip-v4 : is_private_ip ip ≡ private_v4 a b c
    unfolding is_private_ip
    is_private_ip-v4 =
        rw (loopback_v4, unicast_v4, multicast_v4, in_ten, in_twelve, in_sixteen) (ground arith)

private_host :
    (parse_ip : Bytes → Option Bytes) (host ip : Bytes)
    → parse_ip host ≡ some ip
    → is_private_ip ip ≡ true
    → is_private_host parse_ip host ≡ true
private_host parse_ip host ip e p = elim (Bool-cases (equal_fold host (codes "localhost"))) [
  | inl local ↦ unfold is_private_host in rw local
  | inr other ↦ unfold is_private_host in rw (other, e, is_private_host) p
]

-- No list of grants admits a URL whose hostname net.ParseIP reads as an IPv4 address in 127/8, 10/8,
-- 172.16/12, 192.168/16, 169.254/16 or 224.0.0/24.
pub match_http_url-private :
    (parse_url : Bytes → Option Url) (parse_ip : Bytes → Option Bytes) (granted : List Bytes)
    (raw_url : Bytes) (u : Url) (ip : Bytes) (a b c d : ℕ)
    → parse_url raw_url ≡ some u
    → parse_ip u.hostname ≡ some ip
    → to4 ip ≡ some (a, b, c, d)
    → a < 256
    → b < 256
    → c < 256
    → d < 256
    → private_v4 a b c ≡ true
    → match_http_url parse_url parse_ip granted raw_url ≡ false
unfolding match_http_url
match_http_url-private parse_url parse_ip [] raw_url u ip a b c d _ _ _ _ _ _ _ _ = refl
match_http_url-private parse_url parse_ip (g ∷ granted) [] u ip a b c d _ _ _ _ _ _ _ _ = refl
match_http_url-private parse_url parse_ip (g ∷ granted) (x ∷ rest) u ip a b c d eu ei e ha hb hc hd
      p =
    let private : is_private_ip ip ≡ true = is_private_ip-v4 ip a b c d e ha hb hc hd ∙ p in
    let denied : is_private_host parse_ip u.hostname ≡ true =
      private_host parse_ip u.hostname ip ei private in
    rw eu (ground (arith, denied))
