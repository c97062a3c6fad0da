-- ===== src/Tests/Values.antt =====
-- src/core on concrete values: addresses, ranges, text, checksums, readers, times and the catalog.
use packet_guard.Base.{
  ◌+◌, ◌/◌, ◌%◌, ◌^◌, ◌-◌, ◌*◌, ◌<◌, ◌≡◌, ◌≢◌, refl, true, [], ◌∷◌, ◌++◌, some, none, codes, arith,
  ◌↔◌, get_elem?,
}
use packet_guard.Base.Int.{pos, negsuc, pos_part, neg_part}
use packet_guard.Core.ByteReader.{
  ByteReader, read_u8, next_be16, next_be32, next_le16, next_le32, read_bytes, advance,
}
use packet_guard.Core.ByteReader.Laws.{
  IsReader, moved, reader_at, encode_be32, typed_reads, reads-IsReader, next_be32-encode,
}
use packet_guard.Core.Catalog.Lookup.{
  dns_types, lookup_dns_type_profile, lookup_rule_option_profile, lookup_policy_setting_profile,
}
use packet_guard.Core.Catalog.Lookup.Laws.{
  Stands, lookup_dns_type_profile-index, lookup_rule_option_profile_iff,
  lookup_policy_setting_profile_iff,
}
use packet_guard.Core.Catalog.Options.{rule_options}
use packet_guard.Core.Catalog.Settings.{policy_settings}
use packet_guard.Core.Catalog.Types.{
  RuleOptionProfile, PolicySettingProfile, rule_option, policy_setting,
}
use packet_guard.Core.Checksum.{internet_checksum}
use packet_guard.Core.Checksum.Laws.{
  view_of, word_total, internet_checksum-eq-zero_iff, internet_checksum_verifies,
}
use packet_guard.Core.Ip.{IPv4Address, CidrRange, contains, merge_ranges}
use packet_guard.Core.Ip.Cidr.{contains_iff}
use packet_guard.Core.Ip.Merge.{holds, holds-merge_ranges}
use packet_guard.Core.Ip.Irredundant.{IsIrredundant, merge_ranges-IsIrredundant}
use packet_guard.Core.IpText.{parse_ipv4, ipv4_to_string, parse_cidr, cidr_to_string}
use packet_guard.Core.IpText.RoundTrip.{network_of, parse_ipv4-to_string, parse_cidr-to_string}
use packet_guard.Core.Result.{ok}
use packet_guard.Core.Strings.{split, remove_comment, hex_to_bytes, to_lower}
use packet_guard.Core.Strings.Laws.{join, split-join}
use packet_guard.Core.Time.{normalize_timestamp, billion}
use packet_guard.Core.Time.Laws.{normalize_timestamp_lem, IsInt64}
use packet_guard.Tests.Samples.{placed, placed-IsView, All-octets, dns_bytes, ip_bytes}

parses_spaced : parse_ipv4 (codes " 192.168.1.10 ") ≡ some (record { value = 0xc0a8010a })
unfolding parse_ipv4
parses_spaced = refl

rejects_large_octet : parse_ipv4 (codes "999.1.1.1") ≡ none
unfolding parse_ipv4
rejects_large_octet = refl

clears_host_bits :
    parse_cidr (codes "10.1.2.3/8")
    ≡ some (record { network = record { value = 0x0a000000 }; prefix = 8 })
unfolding parse_cidr
clears_host_bits = refl

quoted_hash : remove_comment (codes "x \"#\" y // z") ≡ codes "x \"#\" y "
unfolding remove_comment
quoted_hash = refl

mixed_hex : hex_to_bytes (codes "de:AD-01") ≡ 0xde ∷ 0xad ∷ 1 ∷ []
unfolding hex_to_bytes
mixed_hex = refl

abbrev ten : CidrRange
ten = record { network = record { value = 0x0a000000 }; prefix = 8 }

abbrev ten_one : CidrRange
ten_one = record { network = record { value = 0x0a010000 }; prefix = 16 }

abbrev host : IPv4Address
host = record { value = 0x0a010203 }

holds-merge_ranges_example :
    holds (merge_ranges (ten_one ∷ ten ∷ [])) host ≡ holds (ten_one ∷ ten ∷ []) host
holds-merge_ranges_example =
    holds-merge_ranges (ten_one ∷ ten ∷ []) host
      ((omega arith, omega arith), ((omega arith, omega arith), tt)) (omega arith)

merge_ranges-IsIrredundant_example : IsIrredundant (merge_ranges (ten_one ∷ ten ∷ []))
merge_ranges-IsIrredundant_example =
    merge_ranges-IsIrredundant (ten_one ∷ ten ∷ [])
      ((omega arith, omega arith), ((omega arith, omega arith), tt))

contains_example :
    (contains ten host ≡ true) ↔ (0x0a010203 / 2 ^ (32 - 8) ≡ 0x0a000000 / 2 ^ (32 - 8))
contains_example = contains_iff ten host (omega arith) (omega arith) (omega arith)

parse_ipv4-to_string_example : parse_ipv4 (ipv4_to_string host) ≡ some host
parse_ipv4-to_string_example = parse_ipv4-to_string host (omega arith)

parse_cidr-to_string_example : parse_cidr (cidr_to_string ten_one) ≡ some (network_of ten_one)
parse_cidr-to_string_example = parse_cidr-to_string ten_one (omega arith) (omega arith)

checksum_zero_example :
    (internet_checksum (placed ip_bytes) 0 ≡ 0)
    ↔ (((0 + word_total ip_bytes) % 65535 ≡ 0) × (0 + word_total ip_bytes ≢ 0))
checksum_zero_example =
    internet_checksum-eq-zero_iff (placed ip_bytes) 0 (placed-IsView ip_bytes refl) (omega arith)
      (omega arith)

stored_checksum :
    internet_checksum (view_of 4096 ((1 ∷ 2 ∷ []) ++ (0 ∷ 0 ∷ (5 ∷ 6 ∷ [])))) 0 ≡ 0xf9f7
unfolding internet_checksum
stored_checksum = refl

checksum_verifies_example :
    internet_checksum
      (view_of 4096 ((1 ∷ 2 ∷ []) ++ ((0xf9f7 / 256) ∷ (0xf9f7 % 256) ∷ (5 ∷ 6 ∷ []))))
      0
    ≡ 0
checksum_verifies_example =
    internet_checksum_verifies 4096 (1 ∷ 2 ∷ []) (5 ∷ 6 ∷ []) 0xf9f7 (λ e. omega arith) refl
      (omega arith) (All-octets (1 ∷ 2 ∷ []) refl) (All-octets (5 ∷ 6 ∷ []) refl) stored_checksum

abbrev start : ByteReader
start = record { view = placed dns_bytes; offset = 2 }

start-IsReader : IsReader start
start-IsReader = record { is_view = placed-IsView dns_bytes refl; inside = omega arith }

reads-IsReader_example :
    IsReader (read_u8 start).1
    × IsReader (next_be16 start).1
    × IsReader (next_be32 start).1
    × IsReader (next_le16 start).1
    × IsReader (next_le32 start).1
    × IsReader (read_bytes start 3).1
    × IsReader (advance start 3)
reads-IsReader_example = reads-IsReader start 3 start-IsReader

next_be32_example :
    next_be32 (reader_at 4096 ((9 ∷ []) ++ (encode_be32 0xdeadbeef ++ (7 ∷ []))) 1)
    ≡ (ok 0xdeadbeef, reader_at 4096 ((9 ∷ []) ++ (encode_be32 0xdeadbeef ++ (7 ∷ []))) 5)
next_be32_example =
    next_be32-encode 4096 0xdeadbeef (9 ∷ []) (7 ∷ []) (λ e. omega arith) (omega arith)
      (All-octets ((9 ∷ []) ++ (encode_be32 0xdeadbeef ++ (7 ∷ []))) refl)

split-join_example :
    split (join b',' (codes "a") (codes "" ∷ codes "b" ∷ [])) b',' true
    ≡ codes "a" ∷ codes "" ∷ codes "b" ∷ []
split-join_example = split-join b',' (codes "a") (codes "") (codes "b" ∷ []) refl refl (refl, tt)

dns_type_example : lookup_dns_type_profile 28 ≡ get_elem? dns_types 28
dns_type_example = lookup_dns_type_profile-index 28

typed_reads_example :
    (read_u8 start ≡ (ok 0x81, moved start 1))
    × (next_be16 start ≡ (ok 0x8180, moved start 2))
    × (next_be32 start ≡ (ok 0x81800001, moved start 4))
    × (next_le16 start ≡ (ok 0x8081, moved start 2))
    × (next_le32 start ≡ (ok 0x01008081, moved start 4))
typed_reads_example = typed_reads start start-IsReader

normalize_timestamp_example :
    let t = normalize_timestamp (pos 5) (negsuc 1499999999) in
    (t.nanos < billion)
    × (5 * billion + 0 + neg_part t.seconds * billion
        ≡ pos_part t.seconds * billion + t.nanos + 0 * billion + 1500000000)
    × IsInt64 0 t.seconds
normalize_timestamp_example =
    normalize_timestamp_lem (pos 5) (negsuc 1499999999) (omega arith, omega arith)
      (omega arith, omega arith)

abbrev sid_option : RuleOptionProfile
sid_option = rule_option "sid" "identity" "integer" "review for stable signature identity"

rule_option_example :
    (lookup_rule_option_profile (codes "SID") ≡ some sid_option)
    ↔ Stands RuleOptionProfile.name rule_options (to_lower (codes "SID")) sid_option
rule_option_example = lookup_rule_option_profile_iff (codes "SID") sid_option

abbrev loopback_setting : PolicySettingProfile
loopback_setting =
    policy_setting "allow_loopback" "access-control" "boolean"
      "review against local risk appetite and asset role"

policy_setting_example :
    (lookup_policy_setting_profile (codes "allow_loopback") ≡ some loopback_setting)
    ↔ Stands PolicySettingProfile.key policy_settings
        (to_lower (codes "allow_loopback"))
        loopback_setting
policy_setting_example = lookup_policy_setting_profile_iff (codes "allow_loopback") loopback_setting
