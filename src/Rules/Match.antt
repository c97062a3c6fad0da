-- ===== src/Rules/Match.antt =====
-- `PortExpr::matches`, `AddressExpr::matches` and `rule_matches_packet` of src/rules/rules.cpp, and
-- `domain_names` of src/packet/packet.cpp, on which the last rests.
pub mod Directions
use packet_guard.Base.{
  ℕ, Bool, true, false, not, ◌&&◌, ◌||◌, List, [], ◌∷◌, ◌++◌, map, Option, some, none, ltb, leb,
  ◌==◌, if◌then◌else◌, Text, codes, text_eq, is_empty, any_of,
}
use packet_guard.Core.Ip.{IPv4Address, contains}
use packet_guard.Core.Strings.{to_lower, has_text}
use packet_guard.Packet.Domains.{domain_names}
use packet_guard.Packet.Types.{
  IPv4Packet, TcpSegment, UdpDatagram, DnsQuestion, DnsRecord, DnsMessage, PacketMetadata,
}
use packet_guard.Rules.Types.{PortExpr, AddressExpr, SignatureRule, RuleProtocol}
use packet_guard.Rules.Types

abbrev in_range : ℕ → ℕ × ℕ → Bool
in_range port r = leb r.0 port && leb port r.1

unfoldable pub ports_match : PortExpr → ℕ → Bool
ports_match e port =
    let hit = if e.any then true else any_of (in_range port) e.ranges in
    if e.negated then not hit else hit

unfoldable pub address_matches : AddressExpr → IPv4Address → Bool
address_matches e address =
    let hit = if e.any then true else any_of (λ range. contains range address) e.ranges in
    if e.negated then not hit else hit

-- `has_value()`.
abbrev has_value : {A : Type 0} → Option A → Bool
has_value none = false
has_value (some a) = true

abbrev is_web : Option TcpSegment → Bool
is_web none = false
is_web (some t) =
    t.destination_port == 80
    || (t.destination_port == 443 || (t.source_port == 80 || t.source_port == 443))

unfoldable pub proto_matches_ip : RuleProtocol → IPv4Packet → PacketMetadata → Bool
proto_matches_ip Types.any_protocol ipv4 md = true
proto_matches_ip Types.ip ipv4 md = true
proto_matches_ip Types.tcp ipv4 md = has_value md.tcp
proto_matches_ip Types.udp ipv4 md = has_value md.udp
proto_matches_ip Types.icmp ipv4 md = ipv4.protocol == 1
proto_matches_ip Types.dns ipv4 md = has_value md.dns
proto_matches_ip Types.http ipv4 md = is_web md.tcp
proto_matches_ip Types.unknown_protocol ipv4 md = false

unfoldable pub proto_matches : RuleProtocol → PacketMetadata → Bool
unfolding proto_matches_ip
proto_matches Types.any_protocol md = true
proto_matches protocol md = elim md.ipv4 [
  | none ↦ false
  | some ipv4 ↦ proto_matches_ip protocol ipv4 md
]

-- `sp` and `dp`.
unfoldable pub packet_ports : Option TcpSegment → Option UdpDatagram → ℕ × ℕ
packet_ports (some t) udp = (t.source_port, t.destination_port)
packet_ports none (some u) = (u.source_port, u.destination_port)
packet_ports none none = (0, 0)

-- The addresses and ports of the packet in the order of the rule, or, under `<>`, in the other.
unfoldable pub sides_match : SignatureRule → IPv4Packet → ℕ × ℕ → Bool
unfolding address_matches ports_match text_eq
sides_match rule ipv4 ports =
    let both_ways = text_eq rule.direction (codes "<>") in
    let forward_addr =
      address_matches rule.source ipv4.source
      && address_matches rule.destination ipv4.destination in
    let reverse_addr =
      both_ways
      && (address_matches rule.source ipv4.destination
          && address_matches rule.destination ipv4.source) in
    let forward_ports =
      ports_match rule.source_ports ports.0 && ports_match rule.destination_ports ports.1 in
    let reverse_ports =
      both_ways
      && (ports_match rule.source_ports ports.1 && ports_match rule.destination_ports ports.0) in
    forward_addr && forward_ports || reverse_addr && reverse_ports

-- `seen`.
unfoldable pub content_seen : Text → PacketMetadata → Bool
unfolding domain_names has_text to_lower
content_seen needle md =
    any_of (λ d. has_text (to_lower d) needle) (domain_names md) || elim md.dns [
      | none ↦ false
      | some m ↦ any_of (λ r. has_text (to_lower r.data_text) needle) m.answers
    ]

unfoldable pub content_matches : Text → PacketMetadata → Bool
unfolding content_seen to_lower
content_matches content md = if is_empty content then true else content_seen (to_lower content) md

unfoldable pub rule_matches_packet : SignatureRule → PacketMetadata → Bool
rule_matches_packet rule md = if not (proto_matches rule.protocol md) then false else elim md.ipv4 [
  | none ↦ false
  | some ipv4 ↦
      if not (sides_match rule ipv4 (packet_ports md.tcp md.udp))
      then false
      else content_matches rule.content md
]
