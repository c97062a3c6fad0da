-- ===== src/Policy/Types.antt =====
-- The structures of include/policy/policy.hpp, the names of their enumerations and the words for them
-- in src/policy/policy.cpp.
use packet_guard.Base.{
  ℕ, Bool, List, [], ◌∷◌, Option, some, none, if◌then◌else◌, Text, codes, text_eq, is_empty, any_of,
}
use packet_guard.Core.Diagnostics.{Diagnostics}
use packet_guard.Core.Strings.{trim, to_upper}
use packet_guard.Rules.Types.{PortExpr, AddressExpr, RuleProtocol}

pub data FirewallDialect : Type 0 where
  iptables nftables generic_policy unknown_dialect : FirewallDialect

pub data FirewallAction : Type 0 where
  accept drop reject log return_action jump unknown_action : FirewallAction

pub data Direction : Type 0 where
  input output forward prerouting postrouting unknown_direction : Direction

pub record FirewallRule : Type 0 where
  pub dialect : FirewallDialect
  pub chain : Direction
  pub action : FirewallAction
  pub jump_target : Text
  pub source : AddressExpr
  pub destination : AddressExpr
  pub source_ports : PortExpr
  pub destination_ports : PortExpr
  pub protocol : RuleProtocol
  pub interface_in : Text
  pub interface_out : Text
  pub state : Text
  pub comment : Text
  pub raw : Text
  pub line : ℕ

pub record PolicyKv : Type 0 where
  pub section : Text
  pub key : Text
  pub value : Text
  pub line : ℕ

pub record PolicyFile : Type 0 where
  pub dominant_dialect : FirewallDialect
  pub firewall_rules : List FirewallRule
  pub settings : List PolicyKv
  pub diagnostics : Diagnostics

abbrev pub dialect_name : FirewallDialect → Text
dialect_name iptables = codes "iptables"
dialect_name nftables = codes "nftables"
dialect_name generic_policy = codes "generic-policy"
dialect_name unknown_dialect = codes "unknown"

abbrev pub action_name : FirewallAction → Text
action_name accept = codes "ACCEPT"
action_name drop = codes "DROP"
action_name reject = codes "REJECT"
action_name log = codes "LOG"
action_name return_action = codes "RETURN"
action_name jump = codes "JUMP"
action_name unknown_action = codes "UNKNOWN"

abbrev pub direction_name : Direction → Text
direction_name input = codes "INPUT"
direction_name output = codes "OUTPUT"
direction_name forward = codes "FORWARD"
direction_name prerouting = codes "PREROUTING"
direction_name postrouting = codes "POSTROUTING"
direction_name unknown_direction = codes "UNKNOWN"

abbrev pub is_word : Text → List Text → Bool
is_word v ws = any_of (text_eq v) ws

unfoldable pub parse_direction : Text → Option Direction
parse_direction token =
    let v = to_upper (trim token) in
    if is_word v (codes "INPUT" ∷ codes "IN" ∷ codes "INPUTHOOK" ∷ [])
    then some input
    else if is_word v (codes "OUTPUT" ∷ codes "OUT" ∷ codes "OUTPUTHOOK" ∷ [])
    then some output
    else if is_word v (codes "FORWARD" ∷ codes "FWD" ∷ [])
    then some forward
    else if text_eq v (codes "PREROUTING")
    then some prerouting
    else if text_eq v (codes "POSTROUTING")
    then some postrouting
    else none

unfoldable pub parse_firewall_action : Text → Option FirewallAction
parse_firewall_action token =
    let v = to_upper (trim token) in
    if is_word v (codes "ACCEPT" ∷ codes "ALLOW" ∷ [])
    then some accept
    else if is_word v (codes "DROP" ∷ codes "DENY" ∷ [])
    then some drop
    else if text_eq v (codes "REJECT")
    then some reject
    else if text_eq v (codes "LOG")
    then some log
    else if text_eq v (codes "RETURN")
    then some return_action
    else if is_empty v
    then none
    else some jump
