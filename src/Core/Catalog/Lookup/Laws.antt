-- ===== src/Core/Catalog/Lookup/Laws.antt =====
-- The searches find exactly the entries of their tables.
use packet_guard.Base.{
  ℕ, zero, suc, ◌+◌, ◌≡◌, refl, ap, ◌∙◌, sym, arith, Bool, true, false, not, ◌&&◌, List, [], ◌∷◌,
  ◌==◌, Option, some, Text, codes, text_eq, text_eq_iff, first_of?, get_elem?, all_of, Bool-cases,
  inl, inr, ◌↔◌, &&-eq-true, ==_iff,
}
use Prim.Native.String.{String}
use mathlib.Core.Option.{some-injective, none-ne-some}
use packet_guard.Core.Catalog.Types.{DnsTypeProfile, RuleOptionProfile, PolicySettingProfile}
use packet_guard.Core.Catalog.Options.{rule_options}
use packet_guard.Core.Catalog.Settings.{policy_settings}
use packet_guard.Core.Catalog.Lookup.{
  dns_types, lookup_dns_type_profile, lookup_rule_option_profile, lookup_policy_setting_profile,
}
use packet_guard.Core.Strings.{to_lower}

-- The types of the entries count up from `k`.
abbrev counts_from : ℕ → List DnsTypeProfile → Bool
counts_from k [] = true
counts_from k (p ∷ ps) = p.type == k && counts_from (suc k) ps

first_type :
    (k i j : ℕ) (ps : List DnsTypeProfile)
    → j ≡ k + i
    → counts_from k ps ≡ true
    → first_of? (λ p. p.type == j) ps ≡ get_elem? ps i
first_type k i j [] g h = refl
first_type k zero j (p ∷ ps) g h =
    let e = &&-eq-true (p.type == k) _ h in
    let f : (p.type == j) ≡ true = (==_iff p.type j).1 (omega (arith, (==_iff p.type k).0 e.0)) in
    rw f refl
first_type k (suc i) j (p ∷ ps) g h =
    let e = &&-eq-true (p.type == k) _ h in
    let f : (p.type == j) ≡ false = ground (arith, (==_iff p.type k).0 e.0) in
    rw f (first_type (suc k) i j ps (omega arith) e.1)

-- The linear search for a DNS type is an index into the table: type `t` has the profile at place
-- `t`, and a type beyond the table has none.
pub lookup_dns_type_profile-index :
    (type : ℕ) → lookup_dns_type_profile type ≡ get_elem? dns_types type
unfolding lookup_dns_type_profile
lookup_dns_type_profile-index type = first_type 0 type type dns_types (omega arith) refl

-- A table with a key for each entry, and the search for a key.
module _ {A : Type 0} (key : A → String) where
  abbrev find : Text → List A → Option A
  find n xs = first_of? (λ p. text_eq n (codes (key p))) xs

  abbrev absent : Text → List A → Bool
  absent n xs = all_of (λ p. not (text_eq n (codes (key p)))) xs

  abbrev distinct : List A → Bool
  distinct [] = true
  distinct (x ∷ xs) = absent (codes (key x)) xs && distinct xs

  -- `p` is an entry, and `n` is its key.
  abbrev pub Stands : List A → Text → A → Type 0
  Stands xs n p = (i : ℕ) × (get_elem? xs i ≡ some p) × (codes (key p) ≡ n)

  find_sound : (xs : List A) (n : Text) (p : A) → find n xs ≡ some p → Stands xs n p
  find_sound [] n p h = absurd (none-ne-some p h)
  find_sound (x ∷ xs) n p h = elim (Bool-cases (text_eq n (codes (key x)))) [
    | inl e ↦
        let f : some x ≡ some p = rw e at h in
        (
          0,
          f,
          ap (λ y. codes (key y)) (sym (some-injective _ _ f))
              ∙ sym ((text_eq_iff n (codes (key x))).0 e),
        )
    | inr e ↦
        let f : find n xs ≡ some p = rw e at h in
        let (i, g, k) = find_sound xs n p f in (suc i, g, k)
  ]

  absent-not :
      (xs : List A) (n : Text) (i : ℕ) (p : A)
      → absent n xs ≡ true
      → get_elem? xs i ≡ some p
      → text_eq (codes (key p)) n ≡ false
  absent-not [] n i p h g = absurd (none-ne-some p g)
  absent-not (x ∷ xs) n zero p h g =
      let e : x ≡ p = some-injective _ _ g in
      let f = &&-eq-true (not (text_eq n (codes (key x)))) _ h in
      elim (Bool-cases (text_eq (codes (key p)) n)) [
        | inl k ↦
            let same : n ≡ codes (key x) =
              sym ((text_eq_iff (codes (key p)) n).0 k) ∙ ap (λ y. codes (key y)) (sym e) in
            absurd (ground (arith, f.0, (text_eq_iff n (codes (key x))).1 same))
        | inr k ↦ k
      ]
  absent-not (x ∷ xs) n (suc i) p h g = absent-not xs n i p (&&-eq-true _ _ h).1 g

  find_complete :
      (xs : List A) (p : A) (i : ℕ)
      → distinct xs ≡ true
      → get_elem? xs i ≡ some p
      → find (codes (key p)) xs ≡ some p
  find_complete [] p i h g = absurd (none-ne-some p g)
  find_complete (x ∷ xs) p zero h g =
      let e = ap (λ y. codes (key y)) (sym (some-injective x p g)) in
      let f : text_eq (codes (key p)) (codes (key x)) ≡ true =
        (text_eq_iff (codes (key p)) (codes (key x))).1 e in
      rw f g
  find_complete (x ∷ xs) p (suc i) h g =
      let f = &&-eq-true (absent (codes (key x)) xs) _ h in
      rw (absent-not xs (codes (key x)) i p f.0 g) (find_complete xs p i f.1 g)

  find_iff :
      (xs : List A) (n : Text) (p : A) → distinct xs ≡ true → (find n xs ≡ some p) ↔ Stands xs n p
  find_iff xs n p h = (find_sound xs n p, λ s. rw (sym s.2) (find_complete xs p s.0 h s.1))

-- A name finds a rule option's profile exactly when that profile is an entry of the table and its
-- name is the given one in lower case.
pub lookup_rule_option_profile_iff :
    (name : Text) (p : RuleOptionProfile)
    → (lookup_rule_option_profile name ≡ some p)
      ↔ Stands RuleOptionProfile.name rule_options (to_lower name) p
unfolding lookup_rule_option_profile text_eq
lookup_rule_option_profile_iff name p =
    find_iff RuleOptionProfile.name rule_options (to_lower name) p refl

-- A key finds a policy setting's profile exactly when that profile is an entry of the table and its
-- key is the given one in lower case.
pub lookup_policy_setting_profile_iff :
    (key : Text) (p : PolicySettingProfile)
    → (lookup_policy_setting_profile key ≡ some p)
      ↔ Stands PolicySettingProfile.key policy_settings (to_lower key) p
unfolding lookup_policy_setting_profile text_eq
lookup_policy_setting_profile_iff key p =
    find_iff PolicySettingProfile.key policy_settings (to_lower key) p refl
