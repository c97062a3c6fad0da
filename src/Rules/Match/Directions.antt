-- ===== src/Rules/Match/Directions.antt =====
-- What the direction of a rule means.
use packet_guard.Base.{ℕ, ◌||◌, ◌≡◌, arith, codes, text_eq, Option-cases, inl, inr}
use packet_guard.Packet.Types.{IPv4Packet, PacketMetadata}
use packet_guard.Rules.Types.{SignatureRule}
use packet_guard.Rules.Match.{packet_ports, sides_match, rule_matches_packet}

abbrev pub both_ways : SignatureRule → SignatureRule
both_ways rule = record rule { direction = codes "<>" }

abbrev pub one_way : SignatureRule → SignatureRule
one_way rule = record rule { direction = codes "->" }

-- The rule from its destination to its source.
abbrev pub swapped : SignatureRule → SignatureRule
swapped rule = record rule {
  source = rule.destination;
  source_ports = rule.destination_ports;
  destination = rule.source;
  destination_ports = rule.source_ports;
}

sides_match-both_ways :
    (rule : SignatureRule) (ipv4 : IPv4Packet) (ports : ℕ × ℕ)
    → sides_match (both_ways rule) ipv4 ports
      ≡ (sides_match (one_way rule) ipv4 ports || sides_match (swapped (one_way rule)) ipv4 ports)
unfolding sides_match text_eq
sides_match-both_ways rule ipv4 ports = ground arith

-- A rule with the direction `<>` matches a packet exactly when the rule with `->` or that rule with
-- its two sides exchanged does.
pub rule_matches_packet-both_ways :
    (rule : SignatureRule) (md : PacketMetadata)
    → rule_matches_packet (both_ways rule) md
      ≡ (rule_matches_packet (one_way rule) md || rule_matches_packet (swapped (one_way rule)) md)
unfolding rule_matches_packet
rule_matches_packet-both_ways rule md = elim (Option-cases md.ipv4) [
  | inl e ↦ rw e (ground arith)
  | inr (ip, f) ↦ rw (f, sides_match-both_ways rule ip (packet_ports md.tcp md.udp)) (ground arith)
]
