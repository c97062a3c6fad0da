-- ===== src/Rules/Manager/Classes.antt =====
-- The search by class type finds the rules that a walk through all rules finds.
use packet_guard.Base.{
  ℕ, suc, ◌+◌, ◌≡◌, refl, sym, ap, ◌∙◌, arith, Bool, not, ◌&&◌, List, [], ◌∷◌, ◌++◌, append-nil,
  append_assoc, some, if◌then◌else◌, is_empty, get_elem?, keep, Bool-cases, inl, inr, Text, text_eq,
  text_eq_iff,
}
use packet_guard.Base.Maps.{push_index, indices_at, indices_at-push_index}
use packet_guard.Core.Strings.{to_lower}
use packet_guard.Rules.Types.{SignatureRule}
use packet_guard.Rules.Manager.{RuleSetManager, index_classtypes, collect_loop, find_by_classtype}
use packet_guard.Rules.Manager.Latest.{IsIndexed}

-- A rule of the class type `key`, which is in lower case.
abbrev pub has_class : Text → SignatureRule → Bool
has_class key rule = not (is_empty rule.classtype) && text_eq (to_lower rule.classtype) key

abbrev places : Text → ℕ → List SignatureRule → List ℕ
places key i [] = []
places key i (rule ∷ rest) =
    let others = places key (suc i) rest in if has_class key rule then i ∷ others else others

place_added :
    (key : Text) (i : ℕ) (rule : SignatureRule) (index : List (Text × List ℕ)) (others : List ℕ)
    → indices_at text_eq key (
          if not (is_empty rule.classtype)
          then push_index text_eq (to_lower rule.classtype) i index
          else index)
        ++ others
      ≡ indices_at text_eq key index ++ (if has_class key rule then i ∷ others else others)
place_added key i rule index others = elim (Bool-cases (is_empty rule.classtype)) [
  | inl e ↦ rw e refl
  | inr e ↦
      rw (e, indices_at-push_index text_eq text_eq_iff key (to_lower rule.classtype) i index)
        (elim (Bool-cases (text_eq (to_lower rule.classtype) key)) [
          | inl f ↦ rw f (append_assoc (indices_at text_eq key index) (i ∷ []) others)
          | inr f ↦ rw f refl
        ])
]

indices_at-index_classtypes :
    (key : Text) (i : ℕ) (rules : List SignatureRule) (index : List (Text × List ℕ))
    → indices_at text_eq key (index_classtypes i rules index)
      ≡ indices_at text_eq key index ++ places key i rules
unfolding index_classtypes
indices_at-index_classtypes key i [] index = sym (append-nil (indices_at text_eq key index))
indices_at-index_classtypes key i (rule ∷ rest) index =
    indices_at-index_classtypes key (suc i) rest (
      if not (is_empty rule.classtype)
      then push_index text_eq (to_lower rule.classtype) i index
      else index)
    ∙ place_added key i rule index (places key (suc i) rest)

collect_loop-some :
    (all : List SignatureRule) (i : ℕ) (is : List ℕ) (rule : SignatureRule)
    → get_elem? all i ≡ some rule
    → collect_loop all (i ∷ is) ≡ rule ∷ collect_loop all is
unfolding collect_loop
collect_loop-some all i is rule e = rw (e, collect_loop) refl

collect_loop-places :
    (all : List SignatureRule) (key : Text) (i : ℕ) (rules : List SignatureRule)
    → ((j k : ℕ) → k ≡ i + j → get_elem? all k ≡ get_elem? rules j)
    → collect_loop all (places key i rules) ≡ keep (has_class key) rules
unfolding collect_loop
collect_loop-places all key i [] h = refl
collect_loop-places all key i (rule ∷ rest) h = elim (Bool-cases (has_class key rule)) [
  | inl e ↦ rw e (
      collect_loop-some all i (places key (suc i) rest) rule (h 0 i (omega arith))
      ∙ ap (λ rs. rule ∷ rs)
          (collect_loop-places all key (suc i) rest (λ j k g. h (suc j) k (omega arith))))
  | inr e ↦ rw e (collect_loop-places all key (suc i) rest (λ j k g. h (suc j) k (omega arith)))
]

-- When the indexes agree with the rules, `find_by_classtype` finds, in their order, all rules whose
-- class type is not empty and equals the given one up to upper and lower case.
pub find_by_classtype-keep :
    (m : RuleSetManager) (classtype : Text)
    → IsIndexed m
    → find_by_classtype m classtype ≡ keep (has_class (to_lower classtype)) m.rules
unfolding find_by_classtype
find_by_classtype-keep m classtype h =
    rw (h.classtypes, indices_at-index_classtypes (to_lower classtype) 0 m.rules [])
      (collect_loop-places m.rules (to_lower classtype) 0 m.rules
        (λ j k e. ap (get_elem? m.rules) (e ∙ omega arith)))
