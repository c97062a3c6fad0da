-- ===== src/Rules/Manager/Revisions.antt =====
-- What `find_latest_sid` of src/rules/rule_set_manager.cpp returns, by the places of the rules.
use packet_guard.Base.{
  ℕ, zero, suc, ◌≤◌, ◌<◌, ◌≡◌, ◌≢◌, refl, sym, ap, ◌∙◌, arith, true, false, List, [], ◌∷◌, ◌++◌,
  append-nil, append_assoc, Option, some, none, leb, length, get_elem?, Bool-cases, inl, inr, ◌⊎◌,
  subst,
}
use mathlib.Core.Option.{some-injective, none-ne-some}
use packet_guard.Rules.Types.{SignatureRule}
use packet_guard.Rules.Manager.{RuleSetManager, newer, find_latest_sid}
use packet_guard.Rules.Manager.Latest.{IsIndexed, has_sid, latest_of, find_latest_sid-latest_of}

-- The sid 0 stands for none. Where there is no result, no rule has the sid. A result stands in the
-- list, has the sid, and no rule with the sid has a higher revision, nor an equal one further on.
abbrev pub IsLatest : ℕ → List SignatureRule → Option SignatureRule → Type 0
IsLatest sid rules none =
    (j : ℕ) (s : SignatureRule) → get_elem? rules j ≡ some s → s.sid ≡ sid → sid ≡ 0
IsLatest sid rules (some r) =
    (sid ≢ 0)
    × (r.sid ≡ sid)
    × ((i : ℕ) × (get_elem? rules i ≡ some r)
        × ((j : ℕ) (s : SignatureRule)
            → get_elem? rules j ≡ some s
            → s.sid ≡ sid
            → (s.rev ≤ r.rev) × (i < j → s.rev < r.rev)))

module _ {A : Type 0} where
  -- What stands in a list with one more element at the end.
  get_elem?-one_more :
      (xs : List A) (x : A) (j : ℕ) (s : A)
      → get_elem? (xs ++ x ∷ []) j ≡ some s
      → ((j < length xs) × (get_elem? xs j ≡ some s)) ⊎ ((j ≡ length xs) × (s ≡ x))
  get_elem?-one_more [] x zero s h = inr (refl, sym (some-injective x s h))
  get_elem?-one_more [] x (suc j) s h = absurd (none-ne-some s h)
  get_elem?-one_more (y ∷ xs) x zero s h = inl (omega arith, h)
  get_elem?-one_more (y ∷ xs) x (suc j) s h = elim (get_elem?-one_more xs x j s h) [
    | inl a ↦ inl (omega (arith, a.0), a.1)
    | inr a ↦ inr (omega (arith, a.0), a.1)
  ]

  get_elem?-kept :
      (xs : List A) (x : A) (i : ℕ) (r : A)
      → get_elem? xs i ≡ some r
      → (get_elem? (xs ++ x ∷ []) i ≡ some r) × (i < length xs)
  get_elem?-kept [] x i r h = absurd (none-ne-some r h)
  get_elem?-kept (y ∷ xs) x zero r h = (h, omega arith)
  get_elem?-kept (y ∷ xs) x (suc i) r h =
      let k = get_elem?-kept xs x i r h in (k.0, omega (arith, k.1))

  get_elem?-end : (xs : List A) (x : A) → get_elem? (xs ++ x ∷ []) (length xs) ≡ some x
  get_elem?-end [] x = refl
  get_elem?-end (y ∷ xs) x = get_elem?-end xs x

module _ (sid : ℕ) (done : List SignatureRule) (rule : SignatureRule) where
  -- A rule without the sid changes nothing.
  other-IsLatest :
      (best : Option SignatureRule)
      → has_sid sid rule ≡ false
      → IsLatest sid done best
      → IsLatest sid (done ++ rule ∷ []) best
  other-IsLatest none e h = λ j s g same. elim (get_elem?-one_more done rule j s g) [
    | inl a ↦ h j s a.1 same
    | inr a ↦ let k : rule.sid ≡ sid = sym (ap (λ x. x.sid) a.1) ∙ same in ground (arith, e, k)
  ]
  other-IsLatest (some r) e (some_sid, has, (i, at, high)) =
      let (at', _) = get_elem?-kept done rule i r at in
      (
        some_sid,
        has,
        (
          i,
          at',
          λ j s g same. elim (get_elem?-one_more done rule j s g) [
            | inl a ↦ high j s a.1 same
            | inr a ↦
                let k : rule.sid ≡ sid = sym (ap (λ x. x.sid) a.1) ∙ same in
                absurd (some_sid (ground (arith, e, k)))
          ],
        ),
      )

  -- The new rule is the latest, when all others with the sid have no higher revision.
  last-IsLatest :
      sid ≢ 0
      → rule.sid ≡ sid
      → ((j : ℕ) (s : SignatureRule) → get_elem? done j ≡ some s → s.sid ≡ sid → s.rev ≤ rule.rev)
      → IsLatest sid (done ++ rule ∷ []) (some rule)
  last-IsLatest some_sid has high = (
    some_sid,
    has,
    (
      length done,
      get_elem?-end done rule,
      λ j s g same. elim (get_elem?-one_more done rule j s g) [
        | inl a ↦ (high j s a.1 same, λ l. absurd (omega (arith, a.0, l)))
        | inr a ↦
            let e : s.rev ≡ rule.rev = ap (λ x. x.rev) a.1 in
            (omega (arith, e), λ l. absurd (omega (arith, a.0, l)))
      ],
    ),
  )

  newer-IsLatest :
      (best : Option SignatureRule)
      → has_sid sid rule ≡ true
      → IsLatest sid done best
      → IsLatest sid (done ++ rule ∷ []) (newer best rule)
  newer-IsLatest none e h =
      let some_sid : sid ≢ 0 = λ z. ground (arith, e, z) in
      last-IsLatest some_sid (ground (arith, e)) (λ j s g same. absurd (some_sid (h j s g same)))
  newer-IsLatest (some r) e (some_sid, has, (i, at, high)) =
      let same_sid : rule.sid ≡ sid = ground (arith, e) in
      elim (Bool-cases (leb r.rev rule.rev)) [
        | inl f ↦
            rw f
              (last-IsLatest some_sid same_sid (λ j s g same. ground (arith, f, high j s g same)))
        | inr f ↦
            let (at', low) = get_elem?-kept done rule i r at in
            rw f (
              some_sid,
              has,
              (
                i,
                at',
                λ j s g same. elim (get_elem?-one_more done rule j s g) [
                  | inl a ↦ high j s a.1 same
                  | inr a ↦
                      let k : s.rev ≡ rule.rev = ap (λ x. x.rev) a.1 in
                      let l : rule.rev < r.rev = ground (arith, f) in
                      (omega (arith, k, l), λ m. omega (arith, k, l))
                ],
              ),
            )
      ]

latest_of-IsLatest :
    (sid : ℕ) (rest done : List SignatureRule) (best : Option SignatureRule)
    → IsLatest sid done best
    → IsLatest sid (done ++ rest) (latest_of sid rest best)
latest_of-IsLatest sid [] done best h = rw append-nil h
latest_of-IsLatest sid (rule ∷ rest) done best h =
    subst (λ l. IsLatest sid l (latest_of sid (rule ∷ rest) best))
      (append_assoc done (rule ∷ []) rest)
      (elim (Bool-cases (has_sid sid rule)) [
        | inl e ↦ rw e (
            latest_of-IsLatest sid rest (done ++ rule ∷ []) (newer best rule)
              (newer-IsLatest sid done rule best e h))
        | inr e ↦ rw e (
            latest_of-IsLatest sid rest (done ++ rule ∷ []) best
              (other-IsLatest sid done rule best e h))
      ])

-- When the indexes agree with the rules, `find_latest_sid` finds a rule exactly when the sid is not 0
-- and a rule has it. The rule found has the sid, no rule with the sid has a higher revision, and
-- none of the rules behind it with the sid has an equal one.
pub find_latest_sid-IsLatest :
    (m : RuleSetManager) (sid : ℕ) → IsIndexed m → IsLatest sid m.rules (find_latest_sid m sid)
find_latest_sid-IsLatest m sid h =
    rw (find_latest_sid-latest_of m sid h)
      (latest_of-IsLatest sid m.rules [] none (λ j s g same. absurd (none-ne-some s g)))
