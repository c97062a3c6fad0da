-- ===== src/Core/Ip/Cidr.antt =====
-- Containment in a CIDR range, by arithmetic: two addresses agree on their first `prefix` bits.
use native.Mathlib.Nat.{one-le-pow, mod-eq_of_lt}
use packet_guard.Base.{
  ℕ, ◌-◌, ◌*◌, ◌/◌, ◌^◌, ◌<◌, ◌≤◌, bit_and, Bool, true, ◌&&◌, ◌≡◌, refl, ◌∙◌, ap, sym, ◌==◌, ==_iff,
  &&-eq-true, arith, ◌↔◌,
}
use packet_guard.Base.Bits.{bit_and_shifted, bit_and_ones, all_below, all_below_sound}
use packet_guard.Core.Ip.{IPv4Address, CidrRange, cidr_mask, contains}

-- The mask of a prefix is its ones followed by zeros, checked prefix by prefix.
mask_test : ℕ → Bool
mask_test p = cidr_mask p == (2 ^ p - 1) * 2 ^ (32 - p) && 2 ^ p * 2 ^ (32 - p) == 2 ^ 32

mask_table : all_below 33 mask_test ≡ true
unfolding cidr_mask mask_test
mask_table = refl

mask_ones :
    (p : ℕ) → p ≤ 32 → (cidr_mask p ≡ (2 ^ p - 1) * 2 ^ (32 - p)) × (2 ^ p * 2 ^ (32 - p) ≡ 2 ^ 32)
unfolding mask_test
mask_ones p h =
    let (e, f) = &&-eq-true _ _ (all_below_sound 33 mask_test p mask_table (omega arith)) in
    ((==_iff _ _).0 e, (==_iff _ _).0 f)

quotient_small : (a m n : ℕ) → a < m * n → a / n < m
quotient_small a m n h = grind arith

-- The address with its last `32 - p` bits cleared.
pub masked :
    (p a : ℕ) → p ≤ 32 → a < 2 ^ 32 → bit_and a (cidr_mask p) ≡ a / 2 ^ (32 - p) * 2 ^ (32 - p)
masked p a h b =
    let (mask, whole) = mask_ones p h in
    let small : a / 2 ^ (32 - p) < 2 ^ p = quotient_small a (2 ^ p) (2 ^ (32 - p)) (rw whole b) in
    rw (mask, bit_and_shifted (32 - p) a (2 ^ p - 1), bit_and_ones p (a / 2 ^ (32 - p)))
      (rw (mod-eq_of_lt small))

same_quotient : (x y n : ℕ) → 0 < n → x * n ≡ y * n → x ≡ y
same_quotient x y n h e = grind arith

-- A 32-bit address is in a range with a 32-bit network and a prefix up to 32 exactly when both agree
-- on the bits of the prefix.
pub contains_iff :
    (r : CidrRange) (ip : IPv4Address)
    → r.prefix ≤ 32
    → r.network.value < 2 ^ 32
    → ip.value < 2 ^ 32
    → (contains r ip ≡ true)
      ↔ (ip.value / 2 ^ (32 - r.prefix) ≡ r.network.value / 2 ^ (32 - r.prefix))
unfolding contains
contains_iff r ip h n i =
    let mi = masked r.prefix ip.value h i in
    let mn = masked r.prefix r.network.value h n in
    (
      λ e.
          same_quotient _ _ (2 ^ (32 - r.prefix)) (one-le-pow _ 2 (omega arith))
            (sym mi ∙ (==_iff _ _).0 e ∙ mn),
      λ e. (==_iff _ _).1 (mi ∙ ap (λ (t : ℕ). t * 2 ^ (32 - r.prefix)) e ∙ sym mn),
    )
