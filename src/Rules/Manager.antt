-- ===== src/Rules/Manager.antt =====
-- include/rules/rule_set_manager.hpp and src/rules/rule_set_manager.cpp: the rules, and their indexes
-- by sid and by class type. A `std::map` is an association list.
pub mod Latest
pub mod Revisions
pub mod Classes
use packet_guard.Base.{
  ℕ, zero, suc, ◌+◌, ◌-◌, ◌%◌, ◌^◌, Bool, true, false, not, ◌&&◌, ◌||◌, List, [], ◌∷◌, ◌++◌, Option,
  some, none, ltb, leb, ◌==◌, if◌then◌else◌, Text, codes, text_eq, is_empty, length, get_elem?, set,
  take, drop, keep,
}
use packet_guard.Base.Maps.{push_index, indices_at}
use packet_guard.Core.Diagnostics.{Diagnostics, no_diagnostics, add_warning}
use packet_guard.Core.Strings.{to_lower}
use packet_guard.Rules.Types.{SignatureRule}
use packet_guard.Rules.Validate.{validate_rule}

pub record RuleSetManager : Type 0 where
  pub rules : List SignatureRule
  pub sid_index : List (ℕ × List ℕ)
  pub classtype_index : List (Text × List ℕ)
  pub diagnostics : Diagnostics
  pub generation : ℕ

-- `RuleSetManager() = default`
abbrev pub empty_manager : RuleSetManager
empty_manager = record {
  rules = [];
  sid_index = [];
  classtype_index = [];
  diagnostics = no_diagnostics;
  generation = 0;
}

-- The loop of `rebuild_indexes`, for each index; `i` is the place of the first rule.
unfoldable pub index_sids : ℕ → List SignatureRule → List (ℕ × List ℕ) → List (ℕ × List ℕ)
index_sids i [] index = index
index_sids i (rule ∷ rest) index =
    index_sids (suc i) rest
      (if not (rule.sid == 0) then push_index ◌==◌ rule.sid i index else index)

unfoldable pub index_classtypes :
    ℕ → List SignatureRule → List (Text × List ℕ) → List (Text × List ℕ)
index_classtypes i [] index = index
index_classtypes i (rule ∷ rest) index = index_classtypes (suc i) rest (
    if not (is_empty rule.classtype)
    then push_index text_eq (to_lower rule.classtype) i index
    else index)

unfoldable pub rebuild_indexes : RuleSetManager → RuleSetManager
rebuild_indexes m = record m {
  sid_index = index_sids 0 m.rules [];
  classtype_index = index_classtypes 0 m.rules [];
}

-- `++generation_` on a `std::uint64_t`, and the indexes.
unfoldable pub touch : RuleSetManager → RuleSetManager
unfolding rebuild_indexes
touch m = rebuild_indexes (record m { generation = (m.generation + 1) % 2 ^ 64 })

unfoldable pub warn_all : Diagnostics → List Text → ℕ → Diagnostics
warn_all d [] line = d
warn_all d (w ∷ ws) line = warn_all (add_warning d (codes "ruleset.validate") w line) ws line

unfoldable pub note_validation : RuleSetManager → SignatureRule → RuleSetManager
note_validation m rule = record m {
  diagnostics = warn_all m.diagnostics (validate_rule rule) rule.line;
}

unfoldable pub add_rule : RuleSetManager → SignatureRule → RuleSetManager
add_rule m rule = touch (note_validation (record m { rules = m.rules ++ rule ∷ [] }) rule)

abbrev warned_at : RuleSetManager → Text → Text → ℕ → RuleSetManager
warned_at m code text index = record m { diagnostics = add_warning m.diagnostics code text index }

unfoldable pub replace_rule : RuleSetManager → ℕ → SignatureRule → Bool × RuleSetManager
replace_rule m index rule =
    if leb (length m.rules) index
    then (
      false,
      warned_at m (codes "ruleset.replace") (codes "replace index outside rule set") index,
    )
    else (true, touch (note_validation (record m { rules = set m.rules index rule }) rule))

unfoldable pub erase_index : RuleSetManager → ℕ → Bool × RuleSetManager
erase_index m index =
    if leb (length m.rules) index
    then (false, warned_at m (codes "ruleset.erase") (codes "erase index outside rule set") index)
    else (true, touch (record m { rules = take index m.rules ++ drop (suc index) m.rules }))

unfoldable pub erase_sid : RuleSetManager → ℕ → ℕ × RuleSetManager
erase_sid m sid =
    let left = keep (λ rule. not (rule.sid == sid)) m.rules in
    let removed = length m.rules - length left in
    if removed == 0
    then (removed, record m { rules = left })
    else (removed, touch (record m { rules = left }))

unfoldable pub clear : RuleSetManager → RuleSetManager
clear m = if is_empty m.rules then m else touch (record m { rules = [] })

-- `if (!latest || rules_[index].rev >= latest->rev) latest = &rules_[index];`
abbrev pub newer : Option SignatureRule → SignatureRule → Option SignatureRule
newer none rule = some rule
newer (some latest) rule = if leb latest.rev rule.rev then some rule else some latest

unfoldable pub latest_loop :
    List SignatureRule → List ℕ → Option SignatureRule → Option SignatureRule
latest_loop rules [] latest = latest
latest_loop rules (index ∷ rest) latest =
    latest_loop rules rest
      (elim (get_elem? rules index) [ none ↦ latest | some rule ↦ newer latest rule ])

unfoldable pub find_latest_sid : RuleSetManager → ℕ → Option SignatureRule
find_latest_sid m sid = latest_loop m.rules (indices_at ◌==◌ sid m.sid_index) none

-- `for (index : indices) if (index < rules_.size()) out.push_back(rules_[index]);`
unfoldable pub collect_loop : List SignatureRule → List ℕ → List SignatureRule
collect_loop rules [] = []
collect_loop rules (index ∷ rest) = elim (get_elem? rules index) [
  | none ↦ collect_loop rules rest
  | some rule ↦ rule ∷ collect_loop rules rest
]

unfoldable pub find_by_classtype : RuleSetManager → Text → List SignatureRule
find_by_classtype m classtype =
    collect_loop m.rules (indices_at text_eq (to_lower classtype) m.classtype_index)
