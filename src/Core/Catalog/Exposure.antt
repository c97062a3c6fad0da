-- ===== src/Core/Catalog/Exposure.antt =====
-- The searches for services and the copies of two tables in src/core/security_catalog.cpp.
use packet_guard.Base.{
  ℕ, zero, suc, ◌+◌, ◌≤◌, ◌≡◌, refl, ap, ◌∙◌, sym, arith, Bool, true, ◌&&◌, List, [], ◌∷◌, ◌++◌,
  ◌==◌, ==_iff, leb, leb→le, if◌then◌else◌, Option, some, none, Text, codes, text_eq, text_eq_iff,
  first_of?, get_elem?, keep, Bool-cases, inl, inr, ◌↔◌, &&-eq-true,
}
use mathlib.Core.Option.{some-injective, none-ne-some}
use packet_guard.Core.Catalog.Types.{ServiceProfile, RuleOptionProfile, PolicySettingProfile}
use packet_guard.Core.Catalog.Services.{services}
use packet_guard.Core.Catalog.Options.{rule_options}
use packet_guard.Core.Catalog.Settings.{policy_settings}
use packet_guard.Core.Strings.{to_lower}

-- `profile.port == port && t == profile.transport`
abbrev serves : ℕ → Text → ServiceProfile → Bool
serves port t p = p.port == port && text_eq t (codes p.transport)

unfoldable pub lookup_service_profile : ℕ → Text → Option ServiceProfile
lookup_service_profile port transport =
    let t = to_lower transport in first_of? (serves port t) services

unfoldable pub service_profiles_by_risk : Text → List ServiceProfile
service_profiles_by_risk risk =
    let r = to_lower risk in keep (λ p. text_eq r (codes p.risk)) services

unfoldable pub service_profiles_by_category : Text → List ServiceProfile
service_profiles_by_category category =
    let c = to_lower category in keep (λ p. text_eq c (codes p.category)) services

unfoldable pub service_exposure_label : ℕ → Text → Text
service_exposure_label port transport = label (lookup_service_profile port transport)
  where
    label : Option ServiceProfile → Text
    label none = codes "unknown service exposure"
    label (some p) = codes p.service ++ codes " [" ++ codes p.risk ++ codes "] " ++ codes p.exposure

unfoldable pub known_rule_options : List RuleOptionProfile
known_rule_options = rule_options

unfoldable pub known_policy_settings : List PolicySettingProfile
known_policy_settings = policy_settings

-- A table in which a rank of the entries goes up.
module _ {A : Type 0} (rank : A → ℕ) where
  abbrev ascending : ℕ → List A → Bool
  ascending low [] = true
  ascending low (x ∷ xs) = leb low (rank x) && ascending (suc (rank x)) xs

  ascending_bound :
      (low : ℕ) (xs : List A) (i : ℕ) (p : A)
      → ascending low xs ≡ true
      → get_elem? xs i ≡ some p
      → low ≤ rank p
  ascending_bound low [] i p h g = absurd (none-ne-some p g)
  ascending_bound low (x ∷ xs) zero p h g =
      let e = &&-eq-true (leb low (rank x)) _ h in
      let f = leb→le low (rank x) e.0 in
      let k = ap rank (some-injective x p g) in omega (arith, f, k)
  ascending_bound low (x ∷ xs) (suc i) p h g =
      let e = &&-eq-true (leb low (rank x)) _ h in
      let f = leb→le low (rank x) e.0 in
      omega (arith, f, ascending_bound (suc (rank x)) xs i p e.1 g)

  -- A test that only entries of one rank pass.
  module _ (q : A → Bool) (unique : (a b : A) → q a ≡ true → q b ≡ true → rank a ≡ rank b) where
    first_ascending :
        (low : ℕ) (xs : List A) (i : ℕ) (p : A)
        → ascending low xs ≡ true
        → get_elem? xs i ≡ some p
        → q p ≡ true
        → first_of? q xs ≡ some p
    first_ascending low [] i p h g t = absurd (none-ne-some p g)
    first_ascending low (x ∷ xs) zero p h g t =
        let e : x ≡ p = some-injective x p g in let f : q x ≡ true = ap q e ∙ t in rw f g
    first_ascending low (x ∷ xs) (suc i) p h g t =
        let e = &&-eq-true (leb low (rank x)) _ h in
        elim (Bool-cases (q x)) [
          | inl f ↦
              absurd (omega (arith, unique x p f t, ascending_bound (suc (rank x)) xs i p e.1 g))
          | inr f ↦ rw f (first_ascending (suc (rank x)) xs i p e.1 g t)
        ]

first_found :
    {A : Type 0} (q : A → Bool) (xs : List A) (p : A)
    → first_of? q xs ≡ some p
    → (q p ≡ true) × (i : ℕ) × (get_elem? xs i ≡ some p)
first_found q [] p h = absurd (none-ne-some p h)
first_found q (x ∷ xs) p h = elim (Bool-cases (q x)) [
  | inl e ↦ let f : some x ≡ some p = rw e at h in (ap q (sym (some-injective x p f)) ∙ e, 0, f)
  | inr e ↦
      let f : first_of? q xs ≡ some p = rw e at h in
      let (t, i, g) = first_found q xs p f in (t, suc i, g)
]

-- The services stand by transport, then by port.
abbrev service_rank : ServiceProfile → ℕ
service_rank p = p.port + (if text_eq (codes p.transport) (codes "udp") then 65536 else 0)

serves_unique :
    (port : ℕ) (t : Text) (a b : ServiceProfile)
    → serves port t a ≡ true
    → serves port t b ≡ true
    → service_rank a ≡ service_rank b
serves_unique port t a b h k =
    let e = &&-eq-true (a.port == port) _ h in
    let f = &&-eq-true (b.port == port) _ k in
    let ports : a.port ≡ b.port = (==_iff a.port port).0 e.0 ∙ sym ((==_iff b.port port).0 f.0) in
    let transports : codes a.transport ≡ codes b.transport =
      sym ((text_eq_iff t (codes a.transport)).0 e.1) ∙ (text_eq_iff t (codes b.transport)).0 f.1 in
    rw (ports, transports) refl

services_ascend : ascending service_rank 0 services ≡ true
unfolding text_eq
services_ascend = refl

-- `p` is an entry for the port and the transport.
abbrev pub Serves : ℕ → Text → ServiceProfile → Type 0
Serves port t p =
    (i : ℕ) × (get_elem? services i ≡ some p) × (p.port ≡ port) × (codes p.transport ≡ t)

serves_iff :
    (port : ℕ) (t : Text) (p : ServiceProfile)
    → (serves port t p ≡ true) ↔ ((p.port ≡ port) × (codes p.transport ≡ t))
serves_iff port t p = (
  λ h.
      let e = &&-eq-true (p.port == port) _ h in
      ((==_iff p.port port).0 e.0, sym ((text_eq_iff t (codes p.transport)).0 e.1)),
  λ h. rw ((==_iff p.port port).1 h.0) ((text_eq_iff t (codes p.transport)).1 (sym h.1)),
)

-- A port and a transport find a service profile exactly when that profile is an entry of the table
-- with this port, and with the transport in lower case.
pub lookup_service_profile_iff :
    (port : ℕ) (transport : Text) (p : ServiceProfile)
    → (lookup_service_profile port transport ≡ some p) ↔ Serves port (to_lower transport) p
unfolding lookup_service_profile
lookup_service_profile_iff port transport p =
    let t = to_lower transport in
    (
      λ h.
          let (q, i, g) = first_found (serves port t) services p h in
          let e = (serves_iff port t p).0 q in (i, g, e.0, e.1),
      λ s.
          first_ascending service_rank (serves port t) (serves_unique port t) 0 services s.0 p
            services_ascend s.1 ((serves_iff port t p).1 (s.2, s.3)),
    )
