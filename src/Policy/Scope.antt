-- ===== src/Policy/Scope.antt =====
-- The reports of src/policy/policy.cpp that compare rules by their texts.
use packet_guard.Base.{
  ℕ, Bool, ◌&&◌, ◌||◌, List, [], ◌∷◌, ◌++◌, if◌then◌else◌, Text, codes, text_eq, is_empty,
}
use packet_guard.Base.Maps.{push_index, in_order}
use packet_guard.Core.Strings.{to_decimal}
use packet_guard.Packet.Domains.{text_before}
use packet_guard.Policy.Firewall.{same_direction, same_protocol, is_accept, is_deny}
use packet_guard.Policy.Types.{FirewallRule, PolicyFile, dialect_name, action_name, direction_name}
use packet_guard.Rules.Print.{protocol_name, ports_to_string, addresses_to_string}

abbrev part : Text → Text → Text
part name value = if is_empty value then [] else name ++ value

unfoldable pub normalize_firewall_rule : FirewallRule → Text
normalize_firewall_rule r =
    dialect_name r.dialect
    ++ (b' ' ∷ direction_name r.chain)
    ++ (b' ' ∷ protocol_name r.protocol)
    ++ (b' ' ∷ addresses_to_string r.source)
    ++ (b' ' ∷ ports_to_string r.source_ports)
    ++ codes " -> "
    ++ addresses_to_string r.destination
    ++ (b' ' ∷ ports_to_string r.destination_ports)
    ++ (b' ' ∷ action_name r.action)
    ++ part (codes " iif=") r.interface_in
    ++ part (codes " oif=") r.interface_out
    ++ part (codes " state=") r.state

-- `seen[normalize_firewall_rule(r)].push_back(r.line)`
unfoldable pub lines_by_text : List FirewallRule → List (Text × List ℕ) → List (Text × List ℕ)
lines_by_text [] seen = seen
lines_by_text (r ∷ rest) seen =
    lines_by_text rest (push_index text_eq (normalize_firewall_rule r) r.line seen)

unfoldable pub duplicate_texts : List (Text × List ℕ) → List Text
duplicate_texts [] = []
duplicate_texts ((text, []) ∷ rest) = duplicate_texts rest
duplicate_texts ((text, line ∷ lines) ∷ rest) =
    let others = duplicate_texts rest in
    if is_empty lines
    then others
    else (codes "duplicate firewall rule at line " ++ to_decimal line) ∷ others

unfoldable pub duplicate_rules : PolicyFile → List Text
duplicate_rules file = duplicate_texts (in_order text_before (lines_by_text file.firewall_rules []))

unfoldable pub same_scope : FirewallRule → FirewallRule → Bool
same_scope a b =
    same_direction a.chain b.chain
    && (same_protocol a.protocol b.protocol
        && (text_eq (addresses_to_string a.source) (addresses_to_string b.source)
            && (text_eq (addresses_to_string a.destination) (addresses_to_string b.destination)
                && (text_eq (ports_to_string a.source_ports) (ports_to_string b.source_ports)
                    && text_eq (ports_to_string a.destination_ports)
                        (ports_to_string b.destination_ports)))))

unfoldable pub shadow_text : FirewallRule → FirewallRule → Text
shadow_text earlier later =
    codes "line "
    ++ (to_decimal later.line ++ (codes " is shadowed by line " ++ to_decimal earlier.line))

-- The inner loop of `shadowed_rules`, and the outer one.
unfoldable pub shadowed_by : FirewallRule → List FirewallRule → List Text
shadowed_by earlier [] = []
shadowed_by earlier (later ∷ rest) =
    let others = shadowed_by earlier rest in
    if same_scope earlier later then shadow_text earlier later ∷ others else others

unfoldable pub shadow_loop : List FirewallRule → List Text
shadow_loop [] = []
shadow_loop (r ∷ rest) =
    (if is_accept r.action || is_deny r.action then shadowed_by r rest else []) ++ shadow_loop rest

unfoldable pub shadowed_rules : PolicyFile → List Text
shadowed_rules file = shadow_loop file.firewall_rules
