-- ===== src/Core/IpText.antt =====
-- The text forms of addresses and ranges in src/core/ip.cpp.
pub mod RoundTrip
pub mod Bounds
use packet_guard.Base.{
  ℕ, zero, suc, ◌+◌, ◌-◌, ◌*◌, ◌/◌, ◌%◌, ◌^◌, Bool, true, false, not, ◌&&◌, ◌||◌, List, [], ◌∷◌,
  ◌++◌, map, Option, none, some, Text, codes, ltb, leb, ◌==◌, if◌then◌else◌, all_of, text_eq,
  is_empty, length, keep, take, drop, get_or, bit_or, bit_and,
}
use packet_guard.Core.Ip.{IPv4Address, CidrRange, cidr_mask}
use packet_guard.Core.Strings.{split, trim, is_decimal, from_decimal, to_decimal}

-- The octets that are left to read, on the value read so far.
unfoldable pub octets_loop : ℕ → List Text → Option IPv4Address
unfolding is_decimal from_decimal
octets_loop value [] = some (record { value = value })
octets_loop value (part ∷ parts) =
    let octet = from_decimal 0 part in
    let rest = octets_loop (bit_or (value * 2 ^ 8 % 2 ^ 32) octet) parts in
    if not (is_decimal part) || ltb 3 (length part)
    then none
    else if ltb 255 octet
    then none
    else rest

unfoldable pub parse_ipv4 : Text → Option IPv4Address
unfolding octets_loop split trim
parse_ipv4 text =
    let parts = split (trim text) b'.' true in
    if not (length parts == 4) then none else octets_loop 0 parts

unfoldable pub ipv4_to_string : IPv4Address → Text
unfolding to_decimal
ipv4_to_string ip =
    to_decimal (bit_and (ip.value / 2 ^ 24) 255)
    ++ (b'.'
        ∷ (to_decimal (bit_and (ip.value / 2 ^ 16) 255)
            ++ (b'.'
                ∷ (to_decimal (bit_and (ip.value / 2 ^ 8) 255)
                    ++ (b'.' ∷ to_decimal (bit_and ip.value 255))))))

-- The loop of `parse_cidr_prefix`.
unfoldable pub prefix_loop : ℕ → Text → Option ℕ
prefix_loop value [] = some (value % 2 ^ 8)
prefix_loop value (c ∷ cs) =
    let value' = (value * 10 + (c - b'0')) % 2 ^ 32 in
    let rest = prefix_loop value' cs in if ltb 32 value' then none else rest

unfoldable pub parse_cidr_prefix : Text → Option ℕ
unfolding prefix_loop
parse_cidr_prefix text = if is_empty text then none else prefix_loop 0 text

-- `CIDRRange{*ip, 32}` and `CIDRRange{IPv4Address{ip->value & cidr_mask(*prefix)}, *prefix}`
unfoldable pub host_range : Option IPv4Address → Option CidrRange
host_range none = none
host_range (some ip) = some (record { network = ip; prefix = 32 })

unfoldable pub masked_range : Option ℕ → Option IPv4Address → Option CidrRange
unfolding cidr_mask
masked_range (some prefix) (some ip) =
    some
      (record { network = record { value = bit_and ip.value (cidr_mask prefix) }; prefix = prefix })
masked_range _ _ = none

unfoldable pub cidr_parts : List Text → Option CidrRange
unfolding host_range masked_range parse_ipv4 parse_cidr_prefix is_decimal
cidr_parts (host ∷ []) = host_range (parse_ipv4 host)
cidr_parts (network ∷ prefix ∷ []) =
    if not (is_decimal prefix)
    then none
    else masked_range (parse_cidr_prefix prefix) (parse_ipv4 network)
cidr_parts _ = none

unfoldable pub parse_cidr : Text → Option CidrRange
unfolding cidr_parts split trim
parse_cidr text = cidr_parts (split (trim text) b'/' true)

unfoldable pub cidr_to_string : CidrRange → Text
unfolding ipv4_to_string cidr_mask to_decimal
cidr_to_string r =
    ipv4_to_string (record { value = bit_and r.network.value (cidr_mask r.prefix) })
    ++ (b'/' ∷ to_decimal r.prefix)
