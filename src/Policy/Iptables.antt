-- ===== src/Policy/Iptables.antt =====
-- `parse_iptables_rule` of src/policy/policy.cpp.
use packet_guard.Base.{
  ℕ, Bool, true, false, List, [], ◌∷◌, Option, some, none, if◌then◌else◌, Text, codes, text_eq,
  is_empty, get_or,
}
use packet_guard.Core.Result.{Result, ok, failed, overrun, stuck, fail, ◌>>=◌}
use packet_guard.Core.Strings.{trim, split_ws, remove_comment, strip_quotes}
use packet_guard.Policy.Firewall.{is_unknown_chain, is_unknown_action}
use packet_guard.Policy.Types.{
  FirewallRule, iptables, unknown_direction, unknown_action, parse_direction, parse_firewall_action,
  is_word,
}
use packet_guard.Rules.Addresses.{parse_address_expr, parse_protocol}
use packet_guard.Rules.Ports.{parse_port_expr}
use packet_guard.Rules.Types.{PortExpr, AddressExpr, RuleProtocol}

abbrev any_port : PortExpr
any_port = record { any = true; negated = false; ranges = [] }

abbrev any_addr : AddressExpr
any_addr = record { any = true; negated = false; ranges = []; variables = [] }

-- The rule with which the parser starts.
abbrev blank_rule : Text → ℕ → FirewallRule
blank_rule clean line_number = record {
  dialect = iptables;
  chain = unknown_direction;
  action = unknown_action;
  jump_target = [];
  source = any_addr;
  destination = any_addr;
  source_ports = any_port;
  destination_ports = any_port;
  protocol = RuleProtocol.any_protocol;
  interface_in = [];
  interface_out = [];
  state = [];
  comment = [];
  raw = clean;
  line = line_number;
}

-- The options that take a value, what the value does to the rule, and the token that is no such option.
unfoldable pub set_option : Text → Text → FirewallRule → Option (Result FirewallRule)
set_option tok value rule =
    if is_word tok (codes "-A" ∷ codes "--append" ∷ codes "-I" ∷ codes "--insert" ∷ [])
    then some
        (ok (elim (parse_direction value) [ none ↦ rule | some d ↦ record rule { chain = d } ]))
    else if is_word tok (codes "-p" ∷ codes "--protocol" ∷ [])
    then some
        (ok (elim (parse_protocol value) [ none ↦ rule | some p ↦ record rule { protocol = p } ]))
    else if is_word tok (codes "-s" ∷ codes "--source" ∷ [])
    then some (parse_address_expr value >>= (λ a. ok (record rule { source = a })))
    else if is_word tok (codes "-d" ∷ codes "--destination" ∷ [])
    then some (parse_address_expr value >>= (λ a. ok (record rule { destination = a })))
    else if is_word tok (codes "--sport" ∷ codes "--source-port" ∷ codes "--sports" ∷ [])
    then some (parse_port_expr value >>= (λ p. ok (record rule { source_ports = p })))
    else if is_word tok (codes "--dport" ∷ codes "--destination-port" ∷ codes "--dports" ∷ [])
    then some (parse_port_expr value >>= (λ p. ok (record rule { destination_ports = p })))
    else if is_word tok (codes "-i" ∷ codes "--in-interface" ∷ [])
    then some (ok (record rule { interface_in = value }))
    else if is_word tok (codes "-o" ∷ codes "--out-interface" ∷ [])
    then some (ok (record rule { interface_out = value }))
    else if text_eq tok (codes "-m")
    then some (
        ok (
          if is_word value (codes "state" ∷ codes "conntrack" ∷ [])
          then record rule { state = value }
          else rule))
    else if is_word tok (codes "--state" ∷ codes "--ctstate" ∷ [])
    then some (ok (record rule { state = value }))
    else if is_word tok (codes "-j" ∷ codes "--jump" ∷ [])
    then some (
        ok (elim (parse_firewall_action value) [
          | none ↦ record rule { jump_target = value }
          | some a ↦ record rule { jump_target = value; action = a }
        ]))
    else if text_eq tok (codes "--comment")
    then some (ok (record rule { comment = strip_quotes value }))
    else none

-- The loop over the tokens; the flag says that the token is the value of the option before it.
unfoldable pub option_loop : Bool → List Text → FirewallRule → Result FirewallRule
option_loop skip [] rule = ok rule
option_loop true (tok ∷ rest) rule = option_loop false rest rule
option_loop false (tok ∷ rest) rule = elim (set_option tok (get_or rest 0 []) rule) [
  | none ↦ option_loop false rest rule
  | some r ↦ elim r [
    | ok rule' ↦ option_loop true rest rule'
    | failed st ↦ failed st
    | overrun ↦ overrun
    | stuck ↦ stuck
  ]
]

abbrev finished : FirewallRule → Result FirewallRule
finished rule =
    if is_unknown_chain rule.chain
    then fail "iptables rule missing chain"
    else if is_unknown_action rule.action
    then fail "iptables rule missing jump action"
    else ok rule

unfoldable pub parse_iptables_rule : Text → ℕ → Result FirewallRule
parse_iptables_rule text line_number =
    let clean = trim (remove_comment text) in
    if is_empty clean
    then fail "empty firewall rule"
    else (option_loop false (split_ws clean) (blank_rule clean line_number) >>= finished)
