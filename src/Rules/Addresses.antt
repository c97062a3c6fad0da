-- ===== src/Rules/Addresses.antt =====
-- `parse_address_expr` and `parse_protocol` of src/rules/rules.cpp.
use packet_guard.Base.{
  Bool, true, false, List, [], ◌∷◌, ◌++◌, Option, some, none, if◌then◌else◌, Text, codes, text_eq,
  is_empty, get_or, ◌==◌,
}
use packet_guard.Core.Ip.{CidrRange}
use packet_guard.Core.IpText.{parse_cidr}
use packet_guard.Core.Result.{Result, ok, failed, failure, fail, ◌>>=◌}
use packet_guard.Core.Strings.{trim, split, to_lower}
use packet_guard.Rules.Ports.{unbracket}
use packet_guard.Rules.Types.{AddressExpr, RuleProtocol}

unfoldable pub parse_protocol : Text → Option RuleProtocol
parse_protocol token =
    let v = to_lower token in
    if text_eq v (codes "tcp")
    then some RuleProtocol.tcp
    else if text_eq v (codes "udp")
    then some RuleProtocol.udp
    else if text_eq v (codes "icmp")
    then some RuleProtocol.icmp
    else if text_eq v (codes "ip")
    then some RuleProtocol.ip
    else if text_eq v (codes "dns")
    then some RuleProtocol.dns
    else if text_eq v (codes "http")
    then some RuleProtocol.http
    else if text_eq v (codes "any")
    then some RuleProtocol.any_protocol
    else none

-- The loop over the parts: the ranges and the variables.
unfoldable pub address_items : List Text → Result (List CidrRange × List Text)
address_items [] = ok ([], [])
address_items (item ∷ items) =
    let p = trim item in
    let others = address_items items in
    if is_empty p
    then others
    else if get_or p 0 0 == b'$'
    then others >>= (λ o. ok (o.0, p ∷ o.1))
    else elim (parse_cidr p) [
      | none ↦ failed (failure (codes "invalid address expression: " ++ p))
      | some r ↦ others >>= (λ o. ok (r ∷ o.0, o.1))
    ]

unfoldable pub address_list : Bool → Text → Result AddressExpr
address_list negated text =
    if text_eq text (codes "any")
    then ok (record { any = true; negated = negated; ranges = []; variables = [] })
    else (unbracket text >>= (λ inner.
        address_items (split inner b',' false)
        >>= (λ o. ok (record { any = false; negated = negated; ranges = o.0; variables = o.1 }))))

-- The part behind the first `trim`, with the sign.
unfoldable pub signed_addresses : Text → Result AddressExpr
signed_addresses [] = fail "empty address expression"
signed_addresses (c ∷ cs) =
    if c == b'!' then address_list true (trim cs) else address_list false (c ∷ cs)

unfoldable pub parse_address_expr : Text → Result AddressExpr
parse_address_expr token = signed_addresses (trim token)
