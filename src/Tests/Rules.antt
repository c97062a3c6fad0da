-- ===== src/Tests/Rules.antt =====
-- Rules and port expressions of src/rules/rules.cpp on concrete inputs.
use packet_guard.Base.{◌≡◌, refl, true, false, [], ◌∷◌, ◌||◌, some, none, codes}
use packet_guard.Base.Int.{pos}
use packet_guard.Core.Ip.{contains}
use packet_guard.Core.Result.{ok, overrun, Ensures}
use packet_guard.Packet.Types.{PacketMetadata}
use packet_guard.Rules.Match.{
  rule_matches_packet, proto_matches, sides_match, content_matches, packet_ports,
}
use packet_guard.Rules.Match.Directions.{both_ways, one_way, swapped, rule_matches_packet-both_ways}
use packet_guard.Rules.Ports.{
  parse_port_expr, parse_port_range, signed_ports, port_list, unbracket, port_ranges, range_ends,
  at_colon, two_ends, parse_port_number, port_loop,
}
use packet_guard.Rules.Ports.Bounds.{IsPortExpr, lone_sign, parse_port_expr-IsPortExpr}
use packet_guard.Rules.Types.{AddressExpr, SignatureRule, alert, udp}
use packet_guard.Core.Strings
use packet_guard.Base.Strings.{text_eq}

parses_list :
    parse_port_expr (codes " ![80, 8000:8080,:53] ")
    ≡ ok (record { any = false; negated = true; ranges = (80, 80) ∷ (8000, 8080) ∷ (0, 53) ∷ [] })
unfolding parse_port_expr signed_ports port_list unbracket port_ranges parse_port_range range_ends
    at_colon two_ends parse_port_number port_loop Strings.trim Strings.split Strings.ends_in
    Strings.is_decimal Strings.drop_last text_eq
parses_list = refl

more_than_sign : lone_sign (Strings.trim (codes "![80,8000:8080]")) ≡ false
unfolding Strings.trim
more_than_sign = refl

parse_port_expr_example : Ensures IsPortExpr (parse_port_expr (codes "![80,8000:8080]"))
parse_port_expr_example = parse_port_expr-IsPortExpr (codes "![80,8000:8080]") more_than_sign

abbrev home_net : AddressExpr
home_net = record {
  any = false;
  negated = false;
  ranges = record { network = record { value = 0x0a000000 }; prefix = 8 } ∷ [];
  variables = [];
}

abbrev other_net : AddressExpr
other_net = record home_net { negated = true }

abbrev pub dns_rule : SignatureRule
dns_rule = record {
  action = alert;
  protocol = udp;
  source = home_net;
  source_ports = record { any = true; negated = false; ranges = [] };
  direction = codes "->";
  destination = other_net;
  destination_ports = record { any = false; negated = false; ranges = (53, 53) ∷ [] };
  options = [];
  msg = codes "outbound dns";
  content = [];
  sid = 1000001;
  rev = 1;
  classtype = [];
  raw = [];
  line = 1;
}

-- A reply from elsewhere.
abbrev reply : PacketMetadata
reply = record {
  timestamp = record { seconds = pos 5; nanos = 0 };
  original_length = 60;
  captured_length = 60;
  ethernet = none;
  ipv4 = some (record {
    version = 4;
    ihl = 5;
    dscp_ecn = 0;
    total_length = 40;
    identification = 1;
    flags_fragment = 0;
    ttl = 64;
    protocol = 17;
    header_checksum = 0;
    source = record { value = 0x08080808 };
    destination = record { value = 0x0a000001 };
    checksum_valid = true;
    fragmented = false;
    header_length = 20;
    payload_length = 20;
  });
  tcp = none;
  udp = some (record {
    source_port = 53;
    destination_port = 40000;
    length = 20;
    checksum = 0;
    payload_length = 12;
  });
  dns = none;
  notes = [];
}

both_ways_example : rule_matches_packet (both_ways dns_rule) reply ≡ (
    rule_matches_packet (one_way dns_rule) reply
    || rule_matches_packet (swapped (one_way dns_rule)) reply)
both_ways_example = rule_matches_packet-both_ways dns_rule reply

reply_matches : rule_matches_packet (both_ways dns_rule) reply ≡ true
unfolding rule_matches_packet proto_matches sides_match content_matches packet_ports contains
reply_matches = refl

-- The sign alone leaves an empty text behind, of which the first byte is asked for.
lone_sign_overruns : parse_port_expr (codes "!") ≡ overrun
unfolding parse_port_expr signed_ports port_list unbracket Strings.trim text_eq
lone_sign_overruns = refl
