-- ===== src/Rules/Validate.antt =====
-- `validate_rule` of src/rules/rules.cpp.
use packet_guard.Base.{
  ℕ, Bool, true, false, not, ◌&&◌, List, [], ◌∷◌, ◌++◌, map, keep, length, ltb, ◌==◌, if◌then◌else◌,
  Text, codes, text_eq, is_empty,
}
use Prim.Native.String.{String}
use packet_guard.Rules.Types.{RuleAction, RuleProtocol, RuleOption, SignatureRule}
use packet_guard.Rules.Types
use packet_guard.Rules.Match.{ports_match}

-- `if (test) out.push_back(text)`
abbrev warn_when : Bool → String → List Text
warn_when test text = if test then codes text ∷ [] else []

abbrev is_unknown_action : RuleAction → Bool
is_unknown_action Types.unknown_action = true
is_unknown_action _ = false

abbrev is_unknown_protocol : RuleProtocol → Bool
is_unknown_protocol Types.unknown_protocol = true
is_unknown_protocol _ = false

abbrev is_dns : RuleProtocol → Bool
is_dns Types.dns = true
is_dns _ = false

abbrev is_http : RuleProtocol → Bool
is_http Types.http = true
is_http _ = false

-- `singletons`, in the order in which the map of the counts is gone through.
abbrev singletons : List Text
singletons =
    codes "classtype"
    ∷ codes "metadata"
    ∷ codes "msg"
    ∷ codes "reference"
    ∷ codes "rev"
    ∷ codes "sid"
    ∷ []

-- `counts[key]`
unfoldable pub option_count : Text → List RuleOption → ℕ
unfolding text_eq
option_count key options = length (keep (λ o. text_eq o.key key) options)

unfoldable pub validate_rule : SignatureRule → List Text
unfolding option_count ports_match
validate_rule rule =
    warn_when (is_unknown_action rule.action) "unknown action"
    ++ warn_when (is_unknown_protocol rule.protocol) "unknown protocol"
    ++ warn_when (rule.sid == 0) "missing sid"
    ++ warn_when (rule.rev == 0) "missing rev"
    ++ warn_when (is_empty rule.msg) "missing msg"
    ++ warn_when
        (is_dns rule.protocol
          && (not (ports_match rule.destination_ports 53)
              && not (ports_match rule.source_ports 53)))
        "dns rule does not reference port 53"
    ++ warn_when
        (is_http rule.protocol
          && (not (ports_match rule.destination_ports 80)
              && (not (ports_match rule.destination_ports 443)
                  && (not (ports_match rule.source_ports 80)
                      && not (ports_match rule.source_ports 443)))))
        "http rule does not reference common web ports"
    ++ map (λ key. codes "option appears more than once: " ++ key)
        (keep (λ key. ltb 1 (option_count key rule.options)) singletons)
