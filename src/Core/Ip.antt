-- ===== src/Core/Ip.antt =====
-- include/core/ip.hpp and src/core/ip.cpp, less the text forms, which are in Core/IpText.
pub mod Cidr
pub mod Merge
pub mod Irredundant
use packet_guard.Base.{
  ℕ, zero, suc, ◌+◌, ◌-◌, ◌*◌, ◌/◌, ◌%◌, ◌^◌, ◌<◌, ◌≤◌, min, bit_or, bit_and, Bool, true, false,
  not, ◌&&◌, ◌||◌, ◌≡◌, refl, ◌∙◌, ap, sym, List, [], ◌∷◌, ◌++◌, map, Option, none, some, Text,
  codes, ltb, leb, ◌==◌, if◌then◌else◌, any_of, arith,
}

pub record IPv4Address : Type 0 where
  pub value : ℕ

pub record CidrRange : Type 0 where
  pub network : IPv4Address
  pub prefix : ℕ

-- `0xffffffffu << (32 - prefix)` on a `std::uint32_t`.
unfoldable pub cidr_mask : ℕ → ℕ
cidr_mask prefix =
    if prefix == 0
    then 0
    else if leb 32 prefix
    then 0xffffffff
    else 0xffffffff * 2 ^ (32 - prefix) % 2 ^ 32

unfoldable pub contains : CidrRange → IPv4Address → Bool
unfolding cidr_mask
contains r ip =
    bit_and ip.value (cidr_mask r.prefix) == bit_and r.network.value (cidr_mask r.prefix)

abbrev range : ℕ → ℕ → CidrRange
range value prefix = record { network = record { value = value }; prefix = prefix }

unfoldable pub is_private_ipv4 : IPv4Address → Bool
unfolding contains
is_private_ipv4 ip =
    contains (range 0x0a000000 8) ip
    || contains (range 0xac100000 12) ip
    || contains (range 0xc0a80000 16) ip

unfoldable pub is_loopback_ipv4 : IPv4Address → Bool
unfolding contains
is_loopback_ipv4 ip = contains (range 0x7f000000 8) ip

unfoldable pub is_multicast_ipv4 : IPv4Address → Bool
unfolding contains
is_multicast_ipv4 ip = contains (range 0xe0000000 4) ip

unfoldable pub is_reserved_ipv4 : IPv4Address → Bool
unfolding contains
is_reserved_ipv4 ip =
    contains (range 0x00000000 8) ip
    || contains (range 0x64400000 10) ip
    || contains (range 0xc0000000 24) ip
    || contains (range 0xc6336400 24) ip
    || contains (range 0xcb007100 24) ip
    || contains (range 0xf0000000 4) ip

unfoldable pub classify_ipv4 : IPv4Address → Text
unfolding is_loopback_ipv4 is_private_ipv4 is_multicast_ipv4 is_reserved_ipv4
classify_ipv4 ip =
    if is_loopback_ipv4 ip
    then codes "loopback"
    else if is_private_ipv4 ip
    then codes "private"
    else if is_multicast_ipv4 ip
    then codes "multicast"
    else if is_reserved_ipv4 ip
    then codes "reserved"
    else codes "public"

-- The order by which `merge_ranges` sorts: by network, then by prefix.
unfoldable pub range_before : CidrRange → CidrRange → Bool
range_before a b =
    if not (a.network.value == b.network.value)
    then ltb a.network.value b.network.value
    else ltb a.prefix b.prefix

-- `std::sort`. Ranges that the order does not tell apart are equal, so the sorted vector is unique.
unfoldable pub insert_range : CidrRange → List CidrRange → List CidrRange
unfolding range_before
insert_range r [] = r ∷ []
insert_range r (s ∷ rest) = if range_before s r then s ∷ insert_range r rest else r ∷ s ∷ rest

unfoldable pub sort_ranges : List CidrRange → List CidrRange
unfolding insert_range
sort_ranges [] = []
sort_ranges (r ∷ rest) = insert_range r (sort_ranges rest)

-- `existing.prefix <= r.prefix && existing.contains(r.network)`
unfoldable pub covers : CidrRange → CidrRange → Bool
unfolding contains
covers existing r = leb existing.prefix r.prefix && contains existing r.network

unfoldable pub merge_loop : List CidrRange → List CidrRange → List CidrRange
unfolding covers
merge_loop out [] = out
merge_loop out (r ∷ rest) =
    merge_loop (if any_of (λ existing. covers existing r) out then out else out ++ r ∷ []) rest

unfoldable pub merge_ranges : List CidrRange → List CidrRange
unfolding sort_ranges merge_loop
merge_ranges ranges = merge_loop [] (sort_ranges ranges)
