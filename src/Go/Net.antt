-- ===== src/Go/Net.antt =====
-- net.IP: the tests that the program makes of a parsed address, which is 16 bytes, with an IPv4
-- address in the last four behind ten zeros and two 255s.
use Prim.Native.Nat.{bit_and}
use opendray_v2_lab.Common.{
  ℕ, ◌-◌, Bool, false, ◌&&◌, [], ◌∷◌, ◌++◌, Bytes, bytes_beq, nat_beq, if◌then◌else◌, Option, none,
  some, replicate,
}

-- The prefix of an IPv4 address in 16 bytes.
abbrev pub v4_prefix : Bytes
v4_prefix = 0 ∷ 0 ∷ 0 ∷ 0 ∷ 0 ∷ 0 ∷ 0 ∷ 0 ∷ 0 ∷ 0 ∷ 255 ∷ 255 ∷ []

-- IP.To4: the four bytes, if the address is IPv4.
unfoldable pub to4 : Bytes → Option (ℕ × ℕ × ℕ × ℕ)
to4 (z0 ∷ z1 ∷ z2 ∷ z3 ∷ z4 ∷ z5 ∷ z6 ∷ z7 ∷ z8 ∷ z9 ∷ f0 ∷ f1 ∷ a ∷ b ∷ c ∷ d ∷ []) =
    if bytes_beq (z0 ∷ z1 ∷ z2 ∷ z3 ∷ z4 ∷ z5 ∷ z6 ∷ z7 ∷ z8 ∷ z9 ∷ f0 ∷ f1 ∷ []) v4_prefix
    then some (a, b, c, d)
    else none
to4 ip = none

abbrev pub v6_loopback : Bytes
v6_loopback = replicate 15 0 ++ 1 ∷ []

abbrev pub byte_at : Bytes → ℕ → ℕ
byte_at [] i = 0
byte_at (b ∷ s) i = if nat_beq i 0 then b else byte_at s (i - 1)

-- IP.IsLoopback
unfoldable pub is_loopback : Bytes → Bool
unfolding to4
is_loopback ip = elim (to4 ip) [
  | some (a, b, c, d) ↦ nat_beq a 127
  | none ↦ bytes_beq ip v6_loopback
]

-- IP.IsLinkLocalUnicast: 169.254.0.0/16 and fe80::/10.
unfoldable pub is_link_local_unicast : Bytes → Bool
unfolding to4
is_link_local_unicast ip = elim (to4 ip) [
  | some (a, b, c, d) ↦ nat_beq a 169 && nat_beq b 254
  | none ↦ nat_beq (byte_at ip 0) 0xfe && nat_beq (bit_and (byte_at ip 1) 0xc0) 0x80
]

-- IP.IsLinkLocalMulticast: 224.0.0.0/24 and ff02::/16, of any scope flags.
unfoldable pub is_link_local_multicast : Bytes → Bool
unfolding to4
is_link_local_multicast ip = elim (to4 ip) [
  | some (a, b, c, d) ↦ nat_beq a 224 && (nat_beq b 0 && nat_beq c 0)
  | none ↦ nat_beq (byte_at ip 0) 0xff && nat_beq (bit_and (byte_at ip 1) 0x0f) 0x02
]

-- An IPv4 network: its address and its mask, as net.ParseCIDR gives them.
pub record Network : Type 0 where
  pub n0 : ℕ
  pub n1 : ℕ
  pub n2 : ℕ
  pub n3 : ℕ
  pub m0 : ℕ
  pub m1 : ℕ
  pub m2 : ℕ
  pub m3 : ℕ

-- IPNet.Contains, for an IPv4 network.
unfoldable pub network_contains : Network → Bytes → Bool
unfolding to4
network_contains net ip = elim (to4 ip) [
  | none ↦ false
  | some (a, b, c, d) ↦
      nat_beq (bit_and net.n0 net.m0) (bit_and a net.m0)
      && (nat_beq (bit_and net.n1 net.m1) (bit_and b net.m1)
          && (nat_beq (bit_and net.n2 net.m2) (bit_and c net.m2)
              && nat_beq (bit_and net.n3 net.m3) (bit_and d net.m3)))
]
