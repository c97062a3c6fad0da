-- ===== src/Policy/Order/Reports.antt =====
-- What the warnings of `ordering_warnings` of src/policy/policy.cpp say, in terms of the fields of the
-- rules.
use packet_guard.Base.{
  ◌≡◌, refl, ap, sym, ◌∙◌, Bool, true, ◌&&◌, &&-eq-true, List, [], ◌∷◌, ◌++◌, Text, codes, any_of,
  ==_iff, ◌↔◌, ◌⊎◌, Bool-cases, inl, inr, arith,
}
use packet_guard.Core.Strings.{to_decimal}
use packet_guard.Policy.Types.{
  Direction, FirewallAction, accept, drop, reject, log, return_action, jump, unknown_action,
  FirewallRule, PolicyFile,
}
use packet_guard.Policy.Firewall.{
  same_direction, is_accept, is_deny, is_any_protocol, is_broad, order_warning, ordering_warnings,
}
use packet_guard.Policy.Order.{
  denies_chain, late_accepts, same_direction_lem, ordering_warnings-late_accepts,
}
use packet_guard.Rules.Types.{RuleProtocol}

-- A rule of the chain that drops or rejects, with the expression "any", negated or not, for both
-- addresses and both ports, and with any protocol.
pub record IsBroadDeny (c : Direction) (e : FirewallRule) : Type 0 where
  pub source : e.source.any ≡ true
  pub destination : e.destination.any ≡ true
  pub source_ports : e.source_ports.any ≡ true
  pub destination_ports : e.destination_ports.any ≡ true
  pub protocol : e.protocol ≡ RuleProtocol.any_protocol
  pub action : (e.action ≡ drop) ⊎ (e.action ≡ reject)
  pub chain : c ≡ e.chain

-- Some element satisfies `P`.
abbrev pub Some : {A : Type 0} → (A → Type 0) → List A → Type 0
Some P [] = ⊥
Some P (x ∷ xs) = P x ⊎ Some P xs

-- An accept rule behind a broad deny of its chain; `earlier` are the rules before it.
abbrev pub IsLate : List FirewallRule → FirewallRule → Type 0
IsLate earlier r = Some (IsBroadDeny r.chain) earlier × (r.action ≡ accept)

-- The warnings name the lines of the late rules, in the order of the rules.
abbrev pub IsReport : List FirewallRule → List FirewallRule → List Text → Type 0
IsReport earlier [] texts = texts ≡ []
IsReport earlier (r ∷ rest) texts =
    (IsLate earlier r
      × ((others : List Text) × (texts
            ≡ (codes "allow rule at line "
                ++ (to_decimal r.line ++ codes " appears after a broad deny in the same chain"))
              ∷ others)
          × IsReport (r ∷ earlier) rest others))
    ⊎ (¬ (IsLate earlier r) × IsReport (r ∷ earlier) rest texts)

is_deny_iff : (a : FirewallAction) → (is_deny a ≡ true) ↔ ((a ≡ drop) ⊎ (a ≡ reject))
is_deny_iff a = (denies a, λ s. elim s [ inl e ↦ ap is_deny e | inr e ↦ ap is_deny e ])
  where
    denies : (a : FirewallAction) → is_deny a ≡ true → (a ≡ drop) ⊎ (a ≡ reject)
    denies accept h = cc
    denies drop h = inl refl
    denies reject h = inr refl
    denies log h = cc
    denies return_action h = cc
    denies jump h = cc
    denies unknown_action h = cc

is_accept_iff : (a : FirewallAction) → (is_accept a ≡ true) ↔ (a ≡ accept)
is_accept_iff a = (accepts a, λ e. ap is_accept e)
  where
    accepts : (a : FirewallAction) → is_accept a ≡ true → a ≡ accept
    accepts accept h = refl
    accepts drop h = cc
    accepts reject h = cc
    accepts log h = cc
    accepts return_action h = cc
    accepts jump h = cc
    accepts unknown_action h = cc

is_any_protocol_iff :
    (p : RuleProtocol) → (is_any_protocol p ≡ true) ↔ (p ≡ RuleProtocol.any_protocol)
is_any_protocol_iff p = (any p, λ e. ap is_any_protocol e)
  where
    any : (p : RuleProtocol) → is_any_protocol p ≡ true → p ≡ RuleProtocol.any_protocol
    any RuleProtocol.tcp h = cc
    any RuleProtocol.udp h = cc
    any RuleProtocol.icmp h = cc
    any RuleProtocol.ip h = cc
    any RuleProtocol.dns h = cc
    any RuleProtocol.http h = cc
    any RuleProtocol.any_protocol h = refl
    any RuleProtocol.unknown_protocol h = cc

same_direction_refl : (c : Direction) → same_direction c c ≡ true
same_direction_refl c = (==_iff _ _).1 refl

denies_chain_iff : (c : Direction) (e : FirewallRule) → (denies_chain c e ≡ true) ↔ IsBroadDeny c e
denies_chain_iff c e = (
  λ h.
      let both = &&-eq-true (is_broad e && is_deny e.action) _ h in
      let deny = &&-eq-true (is_broad e) (is_deny e.action) both.0 in
      let b1 = &&-eq-true e.source.any _ deny.0 in
      let b2 = &&-eq-true e.destination.any _ b1.1 in
      let b3 = &&-eq-true e.source_ports.any _ b2.1 in
      let b4 = &&-eq-true e.destination_ports.any _ b3.1 in
      record {
        source = b1.0;
        destination = b2.0;
        source_ports = b3.0;
        destination_ports = b4.0;
        protocol = (is_any_protocol_iff e.protocol).0 b4.1;
        action = (is_deny_iff e.action).0 deny.1;
        chain = same_direction_lem c e.chain both.1;
      },
  λ d.
      let chain : same_direction c e.chain ≡ true =
        ap (same_direction c) (sym d.chain) ∙ same_direction_refl c in
      let free = (is_any_protocol_iff e.protocol).1 d.protocol in
      let deny = (is_deny_iff e.action).1 d.action in
      rw (d.source, d.destination, d.source_ports, d.destination_ports, free, deny, chain) refl,
)

any_of_iff :
    {A : Type 0} (p : A → Bool) (P : A → Type 0)
    → ((x : A) → (p x ≡ true) ↔ P x)
    → (xs : List A) → (any_of p xs ≡ true) ↔ Some P xs
any_of_iff p P h [] = (λ e. cc, λ s. absurd s)
any_of_iff p P h (x ∷ xs) =
    let ih = any_of_iff p P h xs in
    (
      λ e. elim (Bool-cases (p x)) [
        | inl f ↦ inl ((h x).0 f)
        | inr f ↦ let g : any_of p xs ≡ true = rw f at e in inr (ih.0 g)
      ],
      λ s. elim s [
        | inl a ↦ let f = (h x).1 a in rw f refl
        | inr a ↦ let f = ih.1 a in ground (arith, f)
      ],
    )

IsLate-iff :
    (earlier : List FirewallRule) (r : FirewallRule)
    → ((any_of (denies_chain r.chain) earlier && is_accept r.action) ≡ true) ↔ IsLate earlier r
IsLate-iff earlier r =
    let broad = any_of_iff (denies_chain r.chain) _ (denies_chain_iff r.chain) earlier in
    let accepts = is_accept_iff r.action in
    (
      λ h.
          let both = &&-eq-true (any_of (denies_chain r.chain) earlier) _ h in
          (broad.0 both.0, accepts.0 both.1),
      λ l. rw (broad.1 l.0, accepts.1 l.1) refl,
    )

late_accepts-IsReport :
    (rs earlier : List FirewallRule) → IsReport earlier rs (late_accepts earlier rs)
unfolding order_warning
late_accepts-IsReport [] earlier = refl
late_accepts-IsReport (r ∷ rs) earlier =
    let test = any_of (denies_chain r.chain) earlier && is_accept r.action in
    let ih = late_accepts-IsReport rs (r ∷ earlier) in
    elim (Bool-cases test) [
      | inl e ↦ rw e (inl ((IsLate-iff earlier r).0 e, (late_accepts (r ∷ earlier) rs, refl, ih)))
      | inr e ↦ rw e (inr (λ l. let f = (IsLate-iff earlier r).1 l in cc, ih))
    ]

-- There is a warning, with the line of the rule in the text of the code and in the order of the file,
-- for each accept rule that has before it, in its chain, a rule that drops or rejects with
-- any protocol and the expression "any", whether or not negated, for both addresses and both ports;
-- and there is no other warning.
pub ordering_warnings-IsReport :
    (file : PolicyFile) → IsReport [] file.firewall_rules (ordering_warnings file)
ordering_warnings-IsReport file =
    rw (ordering_warnings-late_accepts file) (late_accepts-IsReport file.firewall_rules [])
