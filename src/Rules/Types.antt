-- ===== src/Rules/Types.antt =====
-- The structures of include/rules/rules.hpp.
use packet_guard.Base.{ℕ, Bool, List, Text}
use packet_guard.Core.Ip.{CidrRange}

pub data RuleAction : Type 0 where
  alert pass drop reject log unknown_action : RuleAction

pub data RuleProtocol : Type 0 where
  tcp udp icmp ip dns http any_protocol unknown_protocol : RuleProtocol

pub record PortExpr : Type 0 where
  pub any : Bool
  pub negated : Bool
  pub ranges : List (ℕ × ℕ)

pub record AddressExpr : Type 0 where
  pub any : Bool
  pub negated : Bool
  pub ranges : List CidrRange
  pub variables : List Text

pub record RuleOption : Type 0 where
  pub key : Text
  pub value : Text

pub record SignatureRule : Type 0 where
  pub action : RuleAction
  pub protocol : RuleProtocol
  pub source : AddressExpr
  pub source_ports : PortExpr
  pub direction : Text
  pub destination : AddressExpr
  pub destination_ports : PortExpr
  pub options : List RuleOption
  pub msg : Text
  pub content : Text
  pub sid : ℕ
  pub rev : ℕ
  pub classtype : Text
  pub raw : Text
  pub line : ℕ
