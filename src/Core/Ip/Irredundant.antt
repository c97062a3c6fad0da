-- ===== src/Core/Ip/Irredundant.antt =====
-- `merge_ranges` of src/core/ip.cpp drops every range that lies inside an earlier one.
use native.Mathlib.Nat.{one-le-pow}
use packet_guard.Base.{
  ℕ, ◌+◌, ◌-◌, ◌*◌, ◌/◌, ◌^◌, ◌<◌, ◌≤◌, true, false, ◌≡◌, refl, ◌∙◌, ap, sym, List, [], ◌∷◌, ◌++◌,
  any_of, arith, All, All-append, Bool-cases, inl, inr,
}
use packet_guard.Base.Bits.{pow-add}
use packet_guard.Core.Ip.{
  CidrRange, IPv4Address, contains, covers, sort_ranges, merge_loop, merge_ranges,
}
use packet_guard.Core.Ip.Cidr.{contains_iff}
use packet_guard.Core.Ip.Merge.{IsRange, All-sort_ranges}

-- Every address of `r` is one of `e`.
abbrev pub IsWithin : CidrRange → CidrRange → Type 0
IsWithin r e = (ip : IPv4Address) → ip.value < 2 ^ 32 → contains r ip ≡ true → contains e ip ≡ true

quotient_is : (x q r n : ℕ) → x ≡ q * n + r → r < n → x / n ≡ q
quotient_is x q r n e h = grind arith

-- The first address of a block of `n` and the one `m` further, for a smaller block size `m`.
two_blocks :
    (x k m n : ℕ)
    → n ≡ k * m
    → 1 < k
    → 0 < m
    → (x * n / n ≡ x) × ((x * n + m) / n ≡ x) × (x * n / m ≡ x * k) × ((x * n + m) / m ≡ x * k + 1)
two_blocks x k m n e h l = (
  quotient_is _ x 0 n (grind arith) (grind arith),
  quotient_is _ x m n (grind arith) (grind arith),
  quotient_is _ (x * k) 0 m (grind arith) (grind arith),
  quotient_is _ (x * k + 1) 0 m (grind arith) (grind arith),
)

block_room : (x n w m k : ℕ) → x * n < w * n → n ≡ k * m → 1 < k → 0 < m → x * n + m < w * n
block_room x n w m k h e l g =
    let a : x < w = grind arith in
    let b : x * n + n ≤ w * n = grind arith in let c : m < n = grind arith in omega (arith, b, c)

quotient_below : (y n : ℕ) → 0 < n → y / n * n ≤ y
quotient_below y n h = grind arith

two_or_more : (d : ℕ) → 0 < d → 1 < 2 ^ d
two_or_more d h =
    let split : d ≡ 1 + (d - 1) = omega arith in
    let one = one-le-pow (d - 1) 2 (omega arith) in
    rw (split, pow-add 1 (d - 1)) (omega (arith, one))

-- A range with a shorter prefix has an address in two blocks of the other.
wider-not-IsWithin :
    (e r : CidrRange) → IsRange e → IsRange r → r.prefix < e.prefix → ¬ (IsWithin r e)
wider-not-IsWithin e r ve vr h all =
    let n = 2 ^ (32 - r.prefix) in
    let m = 2 ^ (32 - e.prefix) in
    let k = 2 ^ (e.prefix - r.prefix) in
    let x = r.network.value / n in
    let parts : 32 - r.prefix ≡ (e.prefix - r.prefix) + (32 - e.prefix) = omega (arith, ve.0) in
    let whole : 32 ≡ r.prefix + (32 - r.prefix) = omega (arith, vr.0) in
    let split : n ≡ k * m = ap (λ (j : ℕ). 2 ^ j) parts ∙ pow-add _ _ in
    let total : 2 ^ 32 ≡ 2 ^ r.prefix * n = ap (λ (j : ℕ). 2 ^ j) whole ∙ pow-add _ _ in
    let more = two_or_more (e.prefix - r.prefix) (omega (arith, h)) in
    let some_m = one-le-pow (32 - e.prefix) 2 (omega arith) in
    let some_n = one-le-pow (32 - r.prefix) 2 (omega arith) in
    let below = quotient_below r.network.value n (omega (arith, some_n)) in
    let first_fits : x * n < 2 ^ r.prefix * n = omega (arith, below, vr.1, total) in
    let room = block_room x n (2 ^ r.prefix) m k first_fits split more (omega (arith, some_m)) in
    let fits : x * n + m < 2 ^ 32 = omega (arith, room, total) in
    let (a, b, c, d) = two_blocks x k m n split more (omega (arith, some_m)) in
    let inside : (v : ℕ) → v < 2 ^ 32 → v / n ≡ x → v / m ≡ e.network.value / m = λ v l s.
      (contains_iff e (record { value = v }) ve.0 ve.1 l).0
        (all (record { value = v }) l ((contains_iff r (record { value = v }) vr.0 vr.1 l).1 s)) in
    let same : x * k ≡ x * k + 1 =
      sym c ∙ inside (x * n) (omega (arith, fits)) a ∙ sym (inside (x * n + m) fits b) ∙ d in
    omega (arith, same)

-- A range that the test of the loop leaves has an address outside the other.
uncovered-not-IsWithin :
    (e r : CidrRange) → IsRange e → IsRange r → covers e r ≡ false → ¬ (IsWithin r e)
unfolding covers
uncovered-not-IsWithin e r ve vr c all =
    let own = (contains_iff r r.network vr.0 vr.1 vr.1).1 refl in
    let there = all r.network vr.1 own in
    wider-not-IsWithin e r ve vr (ground (arith, c, there)) all

-- No range lies inside one that stands before it.
abbrev pub IsIrredundant : List CidrRange → Type 0
IsIrredundant [] = Unit {0}
IsIrredundant (r ∷ rs) = All (λ s. ¬ (IsWithin s r)) rs × IsIrredundant rs

IsIrredundant-append :
    (out : List CidrRange) (r : CidrRange)
    → All IsRange out
    → IsRange r
    → IsIrredundant out
    → any_of (λ e. covers e r) out ≡ false
    → IsIrredundant (out ++ r ∷ [])
IsIrredundant-append [] r vs v h c = (tt, tt)
IsIrredundant-append (e ∷ out) r vs v h c = (
  All-append (λ s. ¬ (IsWithin s e)) out (r ∷ []) h.0
      (uncovered-not-IsWithin e r vs.0 v (ground (arith, c)), tt),
  IsIrredundant-append out r vs.1 v h.1 (ground (arith, c)),
)

merge_loop-IsIrredundant :
    (rs out : List CidrRange)
    → All IsRange out
    → All IsRange rs
    → IsIrredundant out
    → IsIrredundant (merge_loop out rs)
unfolding merge_loop
merge_loop-IsIrredundant [] out vs us h = h
merge_loop-IsIrredundant (r ∷ rs) out vs us h = elim (Bool-cases (any_of (λ e. covers e r) out)) [
  | inl c ↦ rw c (merge_loop-IsIrredundant rs out vs us.1 h)
  | inr c ↦ rw c (
      merge_loop-IsIrredundant rs (out ++ r ∷ []) (All-append IsRange out _ vs (us.0, tt)) us.1
        (IsIrredundant-append out r vs us.0 h c))
]

-- Of ranges with 32-bit networks and prefixes up to 32: of two of the merged ranges, the later one
-- is not inside the earlier one, that is, not all of its addresses are addresses of the earlier one.
pub merge_ranges-IsIrredundant :
    (rs : List CidrRange) → All IsRange rs → IsIrredundant (merge_ranges rs)
unfolding merge_ranges
merge_ranges-IsIrredundant rs vs =
    merge_loop-IsIrredundant (sort_ranges rs) [] tt (All-sort_ranges rs vs) tt
