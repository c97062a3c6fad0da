-- ===== src/Tests/Policies.antt =====
-- Firewall rules and policy settings of src/policy/policy.cpp on a few inputs.
use packet_guard.Base.{◌≡◌, refl, true, false, ◌&&◌, [], ◌∷◌, codes, any_of}
use packet_guard.Core.Diagnostics.{no_diagnostics}
use packet_guard.Policy.Firewall.{
  Tuple, is_deny, firewall_rule_matches_tuple, order_warning, order_loop, ordering_warnings,
}
use packet_guard.Policy.Order.{IsPlain, late_accept_denied}
use packet_guard.Policy.Order.Reports.{IsReport, ordering_warnings-IsReport}
use packet_guard.Policy.Types.{FirewallRule, PolicyFile, iptables, accept, drop, input}
use packet_guard.Rules.Match.{ports_match, address_matches}
use packet_guard.Rules.Types.{RuleProtocol, PortExpr, AddressExpr}

abbrev every_port : PortExpr
every_port = record { any = true; negated = false; ranges = [] }

abbrev every_address : AddressExpr
every_address = record { any = true; negated = false; ranges = []; variables = [] }

abbrev deny_all : FirewallRule
deny_all = record {
  dialect = iptables;
  chain = input;
  action = drop;
  jump_target = codes "DROP";
  source = every_address;
  destination = every_address;
  source_ports = every_port;
  destination_ports = every_port;
  protocol = RuleProtocol.any_protocol;
  interface_in = [];
  interface_out = [];
  state = [];
  comment = [];
  raw = [];
  line = 1;
}

abbrev allow_ssh : FirewallRule
allow_ssh = record deny_all {
  action = accept;
  destination_ports = record { any = false; negated = false; ranges = (22, 22) ∷ [] };
  protocol = RuleProtocol.tcp;
  line = 2;
}

abbrev two_lines : PolicyFile
two_lines = record {
  dominant_dialect = iptables;
  firewall_rules = deny_all ∷ allow_ssh ∷ [];
  settings = [];
  diagnostics = no_diagnostics;
}

ordering_warnings_example : IsReport [] two_lines.firewall_rules (ordering_warnings two_lines)
ordering_warnings_example = ordering_warnings-IsReport two_lines

warns_of_ssh : ordering_warnings two_lines ≡ order_warning allow_ssh ∷ []
unfolding ordering_warnings order_loop
warns_of_ssh = refl

abbrev ssh_tuple : Tuple
ssh_tuple = record {
  src = record { value = 1 };
  dst = record { value = 2 };
  sport = 40000;
  dport = 22;
  protocol = RuleProtocol.tcp;
  chain = input;
}

ssh_matches : firewall_rule_matches_tuple allow_ssh ssh_tuple ≡ true
unfolding firewall_rule_matches_tuple ports_match address_matches
ssh_matches = refl

deny_all-IsPlain : IsPlain deny_all
deny_all-IsPlain = record {
  source = refl;
  destination = refl;
  source_ports = refl;
  destination_ports = refl;
}

late_accept_denied_example :
    any_of (λ e. is_deny e.action && firewall_rule_matches_tuple e ssh_tuple) (deny_all ∷ []) ≡ true
late_accept_denied_example =
    late_accept_denied (deny_all ∷ []) allow_ssh ssh_tuple refl (deny_all-IsPlain, tt) ssh_matches
