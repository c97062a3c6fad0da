-- ===== src/Rules/Manager/Latest.antt =====
-- The indexes agree with the rules after every operation, and the search by sid finds the rule that
-- a walk through all rules finds.
use packet_guard.Base.{
  ℕ, suc, ◌+◌, ◌-◌, ◌≤◌, ◌≡◌, refl, sym, ap, ◌∙◌, arith, Bool, false, not, ◌&&◌, List, [], ◌∷◌,
  ◌++◌, append-nil, append_assoc, Option, some, none, leb, ◌==◌, ==_iff, if◌then◌else◌, is_empty,
  length, get_elem?, keep, Bool-cases, inl, inr, drop, take, set,
}
use packet_guard.Base.Maps.{push_index, indices_at, indices_at-push_index}
use packet_guard.Rules.Types.{SignatureRule}
use packet_guard.Rules.Manager.{
  RuleSetManager, index_sids, index_classtypes, rebuild_indexes, touch, note_validation, add_rule,
  replace_rule, erase_index, erase_sid, clear, newer, latest_loop, find_latest_sid,
}

pub record IsIndexed (m : RuleSetManager) : Type 0 where
  pub sids : m.sid_index ≡ index_sids 0 m.rules []
  pub classtypes : m.classtype_index ≡ index_classtypes 0 m.rules []

touch-IsIndexed : (m : RuleSetManager) → IsIndexed (touch m)
unfolding touch rebuild_indexes
touch-IsIndexed m = record { sids = refl; classtypes = refl }

length-keep : {A : Type 0} (p : A → Bool) (xs : List A) → length (keep p xs) ≤ length xs
length-keep p [] = omega arith
length-keep p (x ∷ xs) = elim (Bool-cases (p x)) [
  | inl e ↦ rw e (omega (arith, length-keep p xs))
  | inr e ↦ rw e (omega (arith, length-keep p xs))
]

keep_all :
    {A : Type 0} (p : A → Bool) (xs : List A) → length xs - length (keep p xs) ≡ 0 → keep p xs ≡ xs
keep_all p [] h = refl
keep_all p (x ∷ xs) h = elim (Bool-cases (p x)) [
  | inl e ↦
      let k : suc (length xs) - suc (length (keep p xs)) ≡ 0 = rw e at h in
      rw e (ap (λ ys. x ∷ ys) (keep_all p xs (omega (arith, k))))
  | inr e ↦
      let k : suc (length xs) - length (keep p xs) ≡ 0 = rw e at h in
      absurd (omega (arith, k, length-keep p xs))
]

same_rules-IsIndexed :
    (m : RuleSetManager) (rs : List SignatureRule)
    → rs ≡ m.rules
    → IsIndexed m
    → IsIndexed (record m { rules = rs })
same_rules-IsIndexed m rs e h = record { sids = rw e h.sids; classtypes = rw e h.classtypes }

erase_sid-IsIndexed : (m : RuleSetManager) (sid : ℕ) → IsIndexed m → IsIndexed (erase_sid m sid).1
unfolding erase_sid
erase_sid-IsIndexed m sid h =
    let left = keep (λ rule. not (rule.sid == sid)) m.rules in
    elim (Bool-cases (length m.rules - length left == 0)) [
      | inl e ↦ rw e (same_rules-IsIndexed m left (keep_all _ m.rules (ground arith)) h)
      | inr e ↦ rw e (touch-IsIndexed (record m { rules = left }))
    ]

replace_rule-IsIndexed :
    (m : RuleSetManager) (index : ℕ) (rule : SignatureRule)
    → IsIndexed m
    → IsIndexed (replace_rule m index rule).1
unfolding replace_rule
replace_rule-IsIndexed m index rule h = elim (Bool-cases (leb (length m.rules) index)) [
  | inl e ↦ rw e (record { sids = h.sids; classtypes = h.classtypes })
  | inr e ↦
      rw e (touch-IsIndexed (note_validation (record m { rules = set m.rules index rule }) rule))
]

erase_index-IsIndexed :
    (m : RuleSetManager) (index : ℕ) → IsIndexed m → IsIndexed (erase_index m index).1
unfolding erase_index
erase_index-IsIndexed m index h = elim (Bool-cases (leb (length m.rules) index)) [
  | inl e ↦ rw e (record { sids = h.sids; classtypes = h.classtypes })
  | inr e ↦
      rw e (touch-IsIndexed (record m { rules = take index m.rules ++ drop (suc index) m.rules }))
]

-- Adding, replacing and erasing rules, in range or out of it, and clearing leave both indexes as
-- they are built from the rules.
pub operations-IsIndexed :
    (m : RuleSetManager) (rule : SignatureRule) (index sid : ℕ)
    → IsIndexed m
    → IsIndexed (add_rule m rule)
      × IsIndexed (replace_rule m index rule).1
      × IsIndexed (erase_index m index).1
      × IsIndexed (erase_sid m sid).1
      × IsIndexed (clear m)
unfolding add_rule clear
operations-IsIndexed m rule index sid h = (
  touch-IsIndexed (note_validation (record m { rules = m.rules ++ rule ∷ [] }) rule),
  replace_rule-IsIndexed m index rule h,
  erase_index-IsIndexed m index h,
  erase_sid-IsIndexed m sid h,
  elim (Bool-cases (is_empty m.rules)) [
    | inl e ↦ rw e h
    | inr e ↦ rw e (touch-IsIndexed (record m { rules = [] }))
  ],
)

-- A rule with this sid; the sid 0 stands for none.
abbrev pub has_sid : ℕ → SignatureRule → Bool
has_sid sid rule = rule.sid == sid && not (sid == 0)

-- The walk through all rules, with the choice of the code.
abbrev pub latest_of : ℕ → List SignatureRule → Option SignatureRule → Option SignatureRule
latest_of sid [] best = best
latest_of sid (rule ∷ rest) best =
    latest_of sid rest (if has_sid sid rule then newer best rule else best)

-- The places, from `i` on, of the rules with the sid.
abbrev places : ℕ → ℕ → List SignatureRule → List ℕ
places sid i [] = []
places sid i (rule ∷ rest) =
    let others = places sid (suc i) rest in if has_sid sid rule then i ∷ others else others

place_added :
    (sid i : ℕ) (rule : SignatureRule) (index : List (ℕ × List ℕ)) (others : List ℕ)
    → indices_at ◌==◌ sid (if not (rule.sid == 0) then push_index ◌==◌ rule.sid i index else index)
        ++ others
      ≡ indices_at ◌==◌ sid index ++ (if has_sid sid rule then i ∷ others else others)
place_added sid i rule index others = elim (Bool-cases (rule.sid == 0)) [
  | inl e ↦ let f : has_sid sid rule ≡ false = ground (arith, e) in rw (e, f) refl
  | inr e ↦
      rw (e, indices_at-push_index ◌==◌ ==_iff sid rule.sid i index)
        (elim (Bool-cases (rule.sid == sid)) [
          | inl f ↦
              let g : (sid == 0) ≡ false = ground (arith, e, f) in
              rw (f, g) (append_assoc (indices_at ◌==◌ sid index) (i ∷ []) others)
          | inr f ↦ rw f refl
        ])
]

indices_at-index_sids :
    (sid i : ℕ) (rules : List SignatureRule) (index : List (ℕ × List ℕ))
    → indices_at ◌==◌ sid (index_sids i rules index)
      ≡ indices_at ◌==◌ sid index ++ places sid i rules
unfolding index_sids
indices_at-index_sids sid i [] index = sym (append-nil (indices_at ◌==◌ sid index))
indices_at-index_sids sid i (rule ∷ rest) index =
    indices_at-index_sids sid (suc i) rest
      (if not (rule.sid == 0) then push_index ◌==◌ rule.sid i index else index)
    ∙ place_added sid i rule index (places sid (suc i) rest)

latest_loop-some :
    (all : List SignatureRule) (i : ℕ) (is : List ℕ) (best : Option SignatureRule)
    (rule : SignatureRule)
    → get_elem? all i ≡ some rule
    → latest_loop all (i ∷ is) best ≡ latest_loop all is (newer best rule)
unfolding latest_loop
latest_loop-some all i is best rule e = rw e refl

latest_loop-places :
    (all : List SignatureRule) (sid i : ℕ) (rules : List SignatureRule)
    (best : Option SignatureRule)
    → ((j k : ℕ) → k ≡ i + j → get_elem? all k ≡ get_elem? rules j)
    → latest_loop all (places sid i rules) best ≡ latest_of sid rules best
unfolding latest_loop
latest_loop-places all sid i [] best h = refl
latest_loop-places all sid i (rule ∷ rest) best h = elim (Bool-cases (has_sid sid rule)) [
  | inl e ↦ rw e (
      latest_loop-some all i (places sid (suc i) rest) best rule (h 0 i (omega arith))
      ∙ latest_loop-places all sid (suc i) rest (newer best rule)
          (λ j k g. h (suc j) k (omega arith)))
  | inr e ↦ rw e (latest_loop-places all sid (suc i) rest best (λ j k g. h (suc j) k (omega arith)))
]

-- When the indexes agree with the rules, `find_latest_sid` finds what a walk through all rules finds.
pub find_latest_sid-latest_of :
    (m : RuleSetManager) (sid : ℕ)
    → IsIndexed m
    → find_latest_sid m sid ≡ latest_of sid m.rules none
unfolding find_latest_sid
find_latest_sid-latest_of m sid h =
    rw (h.sids, indices_at-index_sids sid 0 m.rules [])
      (latest_loop-places m.rules sid 0 m.rules none
        (λ j k e. ap (get_elem? m.rules) (e ∙ omega arith)))
