-- ===== src/Rules/Print.antt =====
-- The texts of expressions, and the names of protocols, of src/rules/rules.cpp.
use packet_guard.Base.{ℕ, not, ◌&&◌, List, [], ◌∷◌, ◌++◌, map, if◌then◌else◌, Text, codes, ◌==◌}
use packet_guard.Core.IpText.{cidr_to_string}
use packet_guard.Core.Strings.{to_decimal}
use packet_guard.Rules.Types.{PortExpr, AddressExpr, RuleProtocol}

abbrev pub protocol_name : RuleProtocol → Text
protocol_name RuleProtocol.tcp = codes "tcp"
protocol_name RuleProtocol.udp = codes "udp"
protocol_name RuleProtocol.icmp = codes "icmp"
protocol_name RuleProtocol.ip = codes "ip"
protocol_name RuleProtocol.dns = codes "dns"
protocol_name RuleProtocol.http = codes "http"
protocol_name RuleProtocol.any_protocol = codes "any"
protocol_name RuleProtocol.unknown_protocol = codes "unknown"

-- `if (i) out << ","` before each item.
unfoldable pub comma_list : List Text → Text
comma_list [] = []
comma_list (t ∷ []) = t
comma_list (t ∷ u ∷ rest) = t ++ (b',' ∷ comma_list (u ∷ rest))

abbrev range_text : ℕ × ℕ → Text
range_text r = to_decimal r.0 ++ (if r.1 == r.0 then [] else b':' ∷ to_decimal r.1)

unfoldable pub ports_to_string : PortExpr → Text
ports_to_string e =
    if e.any && not e.negated
    then codes "any"
    else (if e.negated then b'!' ∷ [] else []) ++ comma_list (map range_text e.ranges)

unfoldable pub addresses_to_string : AddressExpr → Text
addresses_to_string e =
    if e.any && not e.negated
    then codes "any"
    else (if e.negated then b'!' ∷ [] else [])
      ++ comma_list (map cidr_to_string e.ranges ++ e.variables)
