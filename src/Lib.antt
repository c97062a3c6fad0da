-- ===== src/Lib.antt =====
-- PacketGuard reads network captures, detection rules, indicators of compromise and firewall
-- policies. This library models its core helpers, its packet parsers, the tests and port expressions of
-- its rules, the rule set manager, the indicators of compromise with their index, and the
-- checks of firewall rules.
--
-- The program's parts and their files:
-- - include/core/result.hpp: Core/Result. A `Result` has two outcomes that the C++ type has not:
--   `overrun`, a read outside the bytes of a view, and `stuck`, a loop out of fuel. `Ensures P r` says
--   that `r` is neither, and that a value in it satisfies `P`.
-- - include/core/diagnostics.hpp, src/core/diagnostics.cpp: Core/Diagnostics. A parser that takes a
--   `Diagnostics*` is a function of an optional list of entries, which it returns changed.
-- - include/core/byte_view.hpp, include/core/endian.hpp, src/core/byte_view.cpp: Core/ByteView and
--   Core/ByteReader. A view is an address and the bytes there. The reads of both files and the
--   parsers take a byte by `load`, which fails with `overrun` outside the view; the checksums walk the
--   list of all bytes of a view.
-- - src/core/strings.cpp: Core/Strings, with a `std::string` as the list of its bytes, and the
--   character classes of the C locale.
-- - src/core/ip.cpp: Core/Ip (addresses, ranges, merging) and Core/IpText (their texts).
-- - src/core/checksum.cpp: Core/Checksum. src/core/time.cpp: Core/Time.
-- - src/core/security_catalog.cpp: Core/Catalog, the tables of DNS types, rule options and policy
--   settings and of services (Core/Catalog/Services) and the searches in them.
-- - include/packet/packet.hpp, src/packet/packet.cpp: Packet/Types; Packet/Fields and Packet/Headers
--   (`parse_ethernet`, `parse_ipv4_packet`, `parse_tcp_segment`, `parse_udp_datagram`);
--   Packet/DnsName and Packet/Dns (`read_dns_name`, `parse_dns_message`); Packet/Decode
--   (`decode_packet_payload`, which calls the parsers layer by layer on slices of the frame) and
--   Packet/Pcap (`parse_pcap`, which decodes each record); Packet/Domains (`domain_names`).
-- - include/rules/rules.hpp, src/rules/rules.cpp: Rules/Types, Rules/Match (`rule_matches_packet`, on
--   the metadata that Packet/Decode returns), Rules/Ports (`parse_port_expr`),
--   Rules/Addresses (`parse_address_expr`), Rules/Print (`to_string`), Rules/Validate (`validate_rule`).
-- - include/rules/rule_set_manager.hpp, src/rules/rule_set_manager.cpp: Rules/Manager, the rules with
--   their indexes by sid and by class type as association lists.
-- - include/policy/policy.hpp, src/policy/policy.cpp: Policy/Types, Policy/Firewall (the checks of a
--   rule, its test on a tuple, `ordering_warnings`), Policy/Scope (`duplicate_rules`,
--   `shadowed_rules`, by the texts of Rules/Print), Policy/Settings (INI and CSV) and Policy/Iptables
--   (`parse_iptables_rule`).
-- - include/ioc/ioc.hpp, src/ioc/ioc.cpp: Ioc/Types; Ioc/Normalize (domains, URLs and hashes);
--   Ioc/Parse (`parse_indicator_line`, `parse_indicator_text`); Ioc/Matching (`match_packet` of a set,
--   `merge_indicator_sets`); Ioc/Trie (the trie of address ranges: nodes in an array, a missing child
--   is `none`), Ioc/Index (the class `IndicatorIndex`, `add` to `compact`) and Ioc/Lookup (its
--   `lookup_ip`, `lookup_domain`, `lookup_hash`, `match_packet`, which is `match_indexed` there,
--   `validate_integrity` and `stats`); Ioc/Session (`IndicatorRefreshSession`), which reads a text
--   with Ioc/Parse, fills an index and searches it. A function that changes the index returns it.
--   Ioc/Trie/Walks, Insert, Push and Bits say what an insertion changes, Ioc/Index/Invariant what the
--   maps hold, and Ioc/Index/Reach that every sequence of requests keeps it.
-- A `std::map` is an association list (Base/Maps); a loop over one sorts its entries by key.
-- Base holds the shared names, Boolean tests, lists over native numbers, bit operations and integers.
-- The children of a module prove what it promises; Tests holds runs and applications.
--
-- Unsigned integers are natural numbers with the wrap-around written out. Signed counts of a
-- timestamp are integers, whose overflow C++ leaves undefined; the theorem on them keeps off it. Loops run on fuel: a name
-- on one round more than the message has bytes, since each round moves forward, and on 13 levels of
-- compression pointers, as in the source; a capture file and a text record on one round more than
-- they have bytes; the carries of a checksum on three rounds; a timestamp on its quotient by a
-- billion. That the fuel is enough is part of the theorems, which exclude `stuck`.
-- A `std::sort` whose order separates all different elements is an insertion sort.
--
-- The reading of a confidence by `std::stod` is a parameter: a function from text to the bit pattern
-- of a `double`, `none` where `std::stod` throws. The theorems hold for every such function.
--
-- Not modelled: reading files, the texts of summaries, times as text, the parsers of whole detection
-- rules and of nftables rules, and policies in JSON, which rest on `std::regex`. `front` of an empty
-- string is taken for an access outside it.
pub mod Base
pub mod Core
pub mod Packet
pub mod Rules
pub mod Ioc
pub mod Policy
mod Tests
