-- ===== src/Policy/Order.antt =====
-- The order of firewall rules: which rules `ordering_warnings` of src/policy/policy.cpp reports, and that
-- they decide nothing.
pub mod Reports
use packet_guard.Base.{
  ℕ, ◌≡◌, refl, sym, ap, ◌∙◌, arith, Bool, true, false, ◌&&◌, &&-eq-true, List, [], ◌∷◌,
  if◌then◌else◌, Text, any_of, ◌==◌, ==_iff, All, Bool-cases, inl, inr,
}
use packet_guard.Core.Ip.{IPv4Address}
use packet_guard.Policy.Types.{
  Direction, input, output, forward, prerouting, postrouting, unknown_direction, FirewallRule,
  PolicyFile,
}
use packet_guard.Policy.Firewall.{
  direction_code, same_direction, is_accept, is_deny, Tuple, chain_differs, protocol_differs,
  firewall_rule_matches_tuple, is_broad, order_warning, seen_chain, order_loop, ordering_warnings,
}
use packet_guard.Rules.Match.{ports_match, address_matches}
use packet_guard.Rules.Types.{PortExpr, AddressExpr}

-- A broad deny in a chain.
abbrev pub denies_chain : Direction → FirewallRule → Bool
denies_chain c e = (is_broad e && is_deny e.action) && same_direction c e.chain

-- The accept rules behind a broad deny in their chain; `earlier` are the rules before.
abbrev pub late_accepts : List FirewallRule → List FirewallRule → List Text
late_accepts earlier [] = []
late_accepts earlier (r ∷ rest) =
    let others = late_accepts (r ∷ earlier) rest in
    if any_of (denies_chain r.chain) earlier && is_accept r.action
    then order_warning r ∷ others
    else others

seen_chain-more :
    (earlier : List FirewallRule) (seen : List Direction) (r : FirewallRule) (c : Direction)
    → seen_chain seen c ≡ any_of (denies_chain c) earlier
    → seen_chain (if is_broad r && is_deny r.action then r.chain ∷ seen else seen) c
      ≡ any_of (denies_chain c) (r ∷ earlier)
seen_chain-more earlier seen r c h = elim (Bool-cases (is_broad r && is_deny r.action)) [
  | inl e ↦ rw (e, h) refl
  | inr e ↦ rw (e, h) refl
]

order_loop-late_accepts :
    (rs earlier : List FirewallRule) (seen : List Direction)
    → ((c : Direction) → seen_chain seen c ≡ any_of (denies_chain c) earlier)
    → order_loop rs seen ≡ late_accepts earlier rs
unfolding order_loop
order_loop-late_accepts [] earlier seen h = refl
order_loop-late_accepts (r ∷ rs) earlier seen h =
    let ih =
      order_loop-late_accepts rs (r ∷ earlier)
        (if is_broad r && is_deny r.action then r.chain ∷ seen else seen)
        (λ c. seen_chain-more earlier seen r c (h c)) in
    rw (ih, h r.chain) refl

-- The warnings are those for the late accepts.
pub ordering_warnings-late_accepts :
    (file : PolicyFile) → ordering_warnings file ≡ late_accepts [] file.firewall_rules
unfolding ordering_warnings
ordering_warnings-late_accepts file = order_loop-late_accepts file.firewall_rules [] [] (λ c. refl)

direction_of : ℕ → Direction
direction_of n =
    if n == 0
    then input
    else if n == 1
    then output
    else if n == 2
    then forward
    else if n == 3
    then prerouting
    else if n == 4
    then postrouting
    else unknown_direction

direction_of-code : (c : Direction) → direction_of (direction_code c) ≡ c
unfolding direction_of
direction_of-code input = refl
direction_of-code output = refl
direction_of-code forward = refl
direction_of-code prerouting = refl
direction_of-code postrouting = refl
direction_of-code unknown_direction = refl

pub same_direction_lem : (a b : Direction) → same_direction a b ≡ true → a ≡ b
same_direction_lem a b h =
    sym (direction_of-code a)
    ∙ ap direction_of ((==_iff (direction_code a) (direction_code b)).0 h)
    ∙ direction_of-code b

-- No expression of the rule is negated.
pub record IsPlain (r : FirewallRule) : Type 0 where
  pub source : r.source.negated ≡ false
  pub destination : r.destination.negated ≡ false
  pub source_ports : r.source_ports.negated ≡ false
  pub destination_ports : r.destination_ports.negated ≡ false

any_address :
    (e : AddressExpr) (a : IPv4Address)
    → e.any ≡ true
    → e.negated ≡ false
    → address_matches e a ≡ true
unfolding address_matches
any_address e a h k = rw (h, k) refl

any_port : (e : PortExpr) (p : ℕ) → e.any ≡ true → e.negated ≡ false → ports_match e p ≡ true
unfolding ports_match
any_port e p h k = rw (h, k) refl

broad-matches :
    (e r : FirewallRule) (t : Tuple)
    → is_broad e ≡ true
    → IsPlain e
    → r.chain ≡ e.chain
    → firewall_rule_matches_tuple r t ≡ true
    → firewall_rule_matches_tuple e t ≡ true
unfolding firewall_rule_matches_tuple
broad-matches e r t b p c m = elim (Bool-cases (chain_differs r.chain t.chain)) [
  | inl f ↦ let g : false ≡ true = rw f at m in cc
  | inr f ↦
      let b1 = &&-eq-true e.source.any _ b in
      let b2 = &&-eq-true e.destination.any _ b1.1 in
      let b3 = &&-eq-true e.source_ports.any _ b2.1 in
      let b4 = &&-eq-true e.destination_ports.any _ b3.1 in
      let chain : chain_differs e.chain t.chain ≡ false =
        ap (λ d. chain_differs d t.chain) (sym c) ∙ f in
      let free : protocol_differs e.protocol t.protocol ≡ false = rw b4.1 refl in
      rw
        (
          chain,
          free,
          any_address e.source t.src b1.0 p.source,
          any_address e.destination t.dst b2.0 p.destination,
          any_port e.source_ports t.sport b3.0 p.source_ports,
          any_port e.destination_ports t.dport b4.0 p.destination_ports,
        )
        refl
]

-- A rule behind a broad deny of its chain decides nothing: whatever tuple it matches, an earlier rule
-- that drops or rejects matches too, when no expression of the earlier rules is negated.
pub late_accept_denied :
    (earlier : List FirewallRule) (r : FirewallRule) (t : Tuple)
    → any_of (denies_chain r.chain) earlier ≡ true
    → All IsPlain earlier
    → firewall_rule_matches_tuple r t ≡ true
    → any_of (λ e. is_deny e.action && firewall_rule_matches_tuple e t) earlier ≡ true
late_accept_denied [] r t h p m = cc
late_accept_denied (e ∷ earlier) r t h p m = elim (Bool-cases (denies_chain r.chain e)) [
  | inr f ↦
      let rest : any_of (denies_chain r.chain) earlier ≡ true = rw f at h in
      let ih = late_accept_denied earlier r t rest p.1 m in ground (arith, ih)
  | inl f ↦
      let both = &&-eq-true (is_broad e && is_deny e.action) _ f in
      let deny = &&-eq-true (is_broad e) (is_deny e.action) both.0 in
      let hit = broad-matches e r t deny.0 p.0 (same_direction_lem r.chain e.chain both.1) m in
      rw (deny.1, hit) refl
]
