-- ===== src/Ioc/Matching/Allowed.antt =====
-- The allow list in both functions `match_packet` of src/ioc/ioc.cpp.
use packet_guard.Base.{
  ◌≡◌, refl, ap, Bool, true, false, not, ◌||◌, List, [], ◌∷◌, text_eq, text_eq_iff, &&-eq-true,
  keep, any_of, All, Bool-cases, inl, inr, ◌⊎◌,
}
use packet_guard.Ioc.Matching.{allows, drop_allowed}
use packet_guard.Ioc.Types.{MatchResult, ListRole, indicator_role, allow, block, is_allow}

-- A match of the allow list on the field and the value of `m`.
abbrev pub Allows : MatchResult → MatchResult → Type 0
Allows c m = (c.indicator.role ≡ allow) × (c.field ≡ m.field) × (c.value ≡ m.value)

-- A match that stays: one of the allow list itself, or one that no match in the list allows.
abbrev pub Stays : List MatchResult → MatchResult → Type 0
Stays out m = (m.indicator.role ≡ allow) ⊎ All (λ c. ¬ (Allows c m)) out

-- `ys` is the elements of `xs` that satisfy `P`, each as often as it stands there and in that order.
abbrev pub IsFiltered : {A : Type 0} → (A → Type 0) → List A → List A → Type 0
IsFiltered P [] ys = ys ≡ []
IsFiltered {A} P (x ∷ xs) ys =
    (P x × ((zs : List A) × (ys ≡ x ∷ zs) × IsFiltered P xs zs)) ⊎ (¬ (P x) × IsFiltered P xs ys)

keep-IsFiltered :
    {A : Type 0} (P : A → Type 0) (p : A → Bool) (xs : List A)
    → ((x : A) → p x ≡ true → P x)
    → ((x : A) → p x ≡ false → ¬ (P x))
    → IsFiltered P xs (keep p xs)
keep-IsFiltered P p [] h k = refl
keep-IsFiltered P p (x ∷ xs) h k = elim (Bool-cases (p x)) [
  | inl e ↦ rw e (inl (h x e, (keep p xs, refl, keep-IsFiltered P p xs h k)))
  | inr e ↦ rw e (inr (k x e, keep-IsFiltered P p xs h k))
]

is_allow_sound : (r : ListRole) → is_allow r ≡ true → r ≡ allow
is_allow_sound allow h = refl
is_allow_sound indicator_role h = cc
is_allow_sound block h = cc

Allows-allows : (m c : MatchResult) → allows m c ≡ true → Allows c m
Allows-allows m c h =
    let a = &&-eq-true (is_allow c.indicator.role) _ h in
    let b = &&-eq-true (text_eq c.field m.field) _ a.1 in
    (
      is_allow_sound c.indicator.role a.0,
      (text_eq_iff c.field m.field).0 b.0,
      (text_eq_iff c.value m.value).0 b.1,
    )

allows-Allows : (m c : MatchResult) → Allows c m → allows m c ≡ true
allows-Allows m c (a, b, d) =
    rw (ap is_allow a, (text_eq_iff c.field m.field).1 b, (text_eq_iff c.value m.value).1 d) refl

none_allows :
    (m : MatchResult) (out : List MatchResult)
    → any_of (allows m) out ≡ false
    → All (λ c. ¬ (Allows c m)) out
none_allows m [] h = tt
none_allows m (c ∷ out) h = elim (Bool-cases (allows m c)) [
  | inl e ↦ let f : true ≡ false = rw e at h in cc
  | inr e ↦
      let f : any_of (allows m) out ≡ false = rw e at h in
      (λ a. let g = allows-Allows m c a in cc, none_allows m out f)
]

some_allows :
    (m : MatchResult) (out : List MatchResult)
    → any_of (allows m) out ≡ true
    → ¬ (All (λ c. ¬ (Allows c m)) out)
some_allows m [] h a = cc
some_allows m (c ∷ out) h a = elim (Bool-cases (allows m c)) [
  | inl e ↦ a.0 (Allows-allows m c e)
  | inr e ↦ let f : any_of (allows m) out ≡ true = rw e at h in some_allows m out f a.1
]

-- The matches that are left are, in order and as often, those that are of the allow list themselves
-- and those for which the list has no match of the allow list with the same field and value.
pub drop_allowed-IsFiltered :
    (out : List MatchResult) → IsFiltered (Stays out) out (drop_allowed out)
unfolding drop_allowed
drop_allowed-IsFiltered out = keep-IsFiltered (Stays out) _ out stays leaves
  where
    stays :
        (m : MatchResult)
        → (not (any_of (allows m) out) || is_allow m.indicator.role) ≡ true
        → Stays out m
    stays m e = elim (Bool-cases (any_of (allows m) out)) [
      | inr f ↦ inr (none_allows m out f)
      | inl f ↦
          let g : is_allow m.indicator.role ≡ true = rw f at e in
          inl (is_allow_sound m.indicator.role g)
    ]

    leaves :
        (m : MatchResult)
        → (not (any_of (allows m) out) || is_allow m.indicator.role) ≡ false
        → ¬ (Stays out m)
    leaves m e s = elim (Bool-cases (any_of (allows m) out)) [
      | inr f ↦ let g : true ≡ false = rw f at e in cc
      | inl f ↦
          let g : is_allow m.indicator.role ≡ false = rw f at e in
          elim s [ inl a ↦ let k = ap is_allow a in cc | inr a ↦ some_allows m out f a ]
    ]
