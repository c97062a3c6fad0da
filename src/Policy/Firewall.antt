-- ===== src/Policy/Firewall.antt =====
-- The tests and the reports of src/policy/policy.cpp on firewall rules.
use packet_guard.Base.{
  ℕ, Bool, true, false, not, ◌&&◌, ◌||◌, List, [], ◌∷◌, ◌++◌, if◌then◌else◌, Text, codes, is_empty,
  any_of, ◌==◌,
}
use packet_guard.Core.Ip.{IPv4Address}
use packet_guard.Core.Strings.{to_decimal}
use packet_guard.Policy.Types.{
  FirewallAction, accept, drop, reject, Direction, input, output, forward, prerouting, postrouting,
  unknown_direction, FirewallRule, PolicyFile,
}
use packet_guard.Policy.Types
use packet_guard.Rules.Match.{ports_match, address_matches}
use packet_guard.Rules.Types.{RuleProtocol}

-- `==` of the enumerations, by a number for each value.
abbrev pub direction_code : Direction → ℕ
direction_code input = 0
direction_code output = 1
direction_code forward = 2
direction_code prerouting = 3
direction_code postrouting = 4
direction_code unknown_direction = 5

abbrev pub same_direction : Direction → Direction → Bool
same_direction a b = direction_code a == direction_code b

abbrev protocol_code : RuleProtocol → ℕ
protocol_code RuleProtocol.tcp = 0
protocol_code RuleProtocol.udp = 1
protocol_code RuleProtocol.icmp = 2
protocol_code RuleProtocol.ip = 3
protocol_code RuleProtocol.dns = 4
protocol_code RuleProtocol.http = 5
protocol_code RuleProtocol.any_protocol = 6
protocol_code RuleProtocol.unknown_protocol = 7

abbrev pub same_protocol : RuleProtocol → RuleProtocol → Bool
same_protocol a b = protocol_code a == protocol_code b

abbrev pub is_unknown_chain : Direction → Bool
is_unknown_chain c = same_direction c unknown_direction

abbrev pub is_any_protocol : RuleProtocol → Bool
is_any_protocol p = same_protocol p RuleProtocol.any_protocol

abbrev pub is_accept : FirewallAction → Bool
is_accept accept = true
is_accept _ = false

-- `drop` or `reject`
abbrev pub is_deny : FirewallAction → Bool
is_deny drop = true
is_deny reject = true
is_deny _ = false

abbrev pub is_unknown_action : FirewallAction → Bool
is_unknown_action Types.unknown_action = true
is_unknown_action _ = false

abbrev note : Bool → Text → List Text
note bad text = if bad then text ∷ [] else []

unfoldable pub validate_firewall_rule : FirewallRule → List Text
validate_firewall_rule r =
    note (is_unknown_chain r.chain) (codes "rule has unknown chain")
    ++ note (is_unknown_action r.action) (codes "rule has unknown action")
    ++ note (is_any_protocol r.protocol && (not r.source_ports.any || not r.destination_ports.any))
        (codes "port constraint has no explicit protocol")
    ++ note
        ((same_direction r.chain input || same_direction r.chain forward)
          && (not (is_empty r.interface_out) && is_empty r.interface_in))
        (codes "input-facing chain sets only output interface")
    ++ note
        (same_direction r.chain output
          && (not (is_empty r.interface_in) && is_empty r.interface_out))
        (codes "output chain sets only input interface")

-- The tuple that a rule is tested on.
pub record Tuple : Type 0 where
  pub src : IPv4Address
  pub dst : IPv4Address
  pub sport : ℕ
  pub dport : ℕ
  pub protocol : RuleProtocol
  pub chain : Direction

abbrev pub chain_differs : Direction → Direction → Bool
chain_differs a b =
    not (is_unknown_chain a) && (not (is_unknown_chain b) && not (same_direction a b))

abbrev pub protocol_differs : RuleProtocol → RuleProtocol → Bool
protocol_differs a b =
    not (is_any_protocol a) && (not (is_any_protocol b) && not (same_protocol a b))

unfoldable pub firewall_rule_matches_tuple : FirewallRule → Tuple → Bool
firewall_rule_matches_tuple r t =
    if chain_differs r.chain t.chain
    then false
    else if protocol_differs r.protocol t.protocol
    then false
    else address_matches r.source t.src
      && (address_matches r.destination t.dst
          && (ports_match r.source_ports t.sport && ports_match r.destination_ports t.dport))

abbrev pub is_broad : FirewallRule → Bool
is_broad r =
    r.source.any
    && (r.destination.any
        && (r.source_ports.any && (r.destination_ports.any && is_any_protocol r.protocol)))

unfoldable pub order_warning : FirewallRule → Text
order_warning r =
    codes "allow rule at line "
    ++ (to_decimal r.line ++ codes " appears after a broad deny in the same chain")

-- The chains for which `broad_drop_seen` is true.
abbrev pub seen_chain : List Direction → Direction → Bool
seen_chain seen c = any_of (same_direction c) seen

unfoldable pub order_loop : List FirewallRule → List Direction → List Text
order_loop [] seen = []
order_loop (r ∷ rest) seen =
    let others =
      order_loop rest (if is_broad r && is_deny r.action then r.chain ∷ seen else seen) in
    if seen_chain seen r.chain && is_accept r.action then order_warning r ∷ others else others

unfoldable pub ordering_warnings : PolicyFile → List Text
ordering_warnings file = order_loop file.firewall_rules []
