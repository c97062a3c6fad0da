-- ===== src/Tests/Managers.antt =====
-- The rule set manager of src/rules/rule_set_manager.cpp on a few rules.
use packet_guard.Base.{codes, keep, ◌≡◌, refl, ◌∷◌, [], some}
use packet_guard.Rules.Manager.{
  RuleSetManager, empty_manager, add_rule, replace_rule, erase_index, erase_sid, clear, index_sids,
  index_classtypes, find_latest_sid, latest_loop, find_by_classtype,
}
use packet_guard.Rules.Manager.Latest.{IsIndexed, operations-IsIndexed}
use packet_guard.Rules.Manager.Revisions.{IsLatest, find_latest_sid-IsLatest}
use packet_guard.Core.Strings.{to_lower}
use packet_guard.Rules.Manager.Classes.{has_class, find_by_classtype-keep}
use packet_guard.Rules.Types.{SignatureRule}
use packet_guard.Tests.Rules.{dns_rule}

abbrev revised : SignatureRule
revised = record dns_rule { rev = 2 }

-- Two revisions of one rule, in the order 2, 1.
abbrev two_rules : RuleSetManager
two_rules = record empty_manager {
  rules = revised ∷ dns_rule ∷ [];
  sid_index = (1000001, 0 ∷ 1 ∷ []) ∷ [];
}

two_rules-IsIndexed : IsIndexed two_rules
unfolding index_sids index_classtypes
two_rules-IsIndexed = record { sids = refl; classtypes = refl }

find_latest_sid_example : IsLatest 1000001 two_rules.rules (find_latest_sid two_rules 1000001)
find_latest_sid_example = find_latest_sid-IsLatest two_rules 1000001 two_rules-IsIndexed

finds_second_revision : find_latest_sid two_rules 1000001 ≡ some revised
unfolding find_latest_sid latest_loop
finds_second_revision = refl

operations_example :
    IsIndexed (add_rule two_rules dns_rule)
    × IsIndexed (replace_rule two_rules 1 dns_rule).1
    × IsIndexed (erase_index two_rules 1).1
    × IsIndexed (erase_sid two_rules 1000001).1
    × IsIndexed (clear two_rules)
operations_example = operations-IsIndexed two_rules dns_rule 1 1000001 two_rules-IsIndexed

abbrev classed : RuleSetManager
classed = record empty_manager {
  rules = dns_rule ∷ record dns_rule { classtype = codes "Policy" } ∷ [];
  sid_index = (1000001, 0 ∷ 1 ∷ []) ∷ [];
  classtype_index = (codes "policy", 1 ∷ []) ∷ [];
}

classed-IsIndexed : IsIndexed classed
unfolding index_sids index_classtypes to_lower
classed-IsIndexed = record { sids = refl; classtypes = refl }

find_by_classtype_example :
    find_by_classtype classed (codes "POLICY")
    ≡ keep (has_class (to_lower (codes "POLICY"))) classed.rules
find_by_classtype_example = find_by_classtype-keep classed (codes "POLICY") classed-IsIndexed
