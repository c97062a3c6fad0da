-- ===== src/Core/Ip/Merge.antt =====
-- `merge_ranges` keeps the addresses that the ranges cover.
use native.Mathlib.Nat.{div-div-eq-div-mul}
use packet_guard.Base.{
  ℕ, ◌+◌, ◌-◌, ◌/◌, ◌^◌, ◌<◌, ◌≤◌, Bool, true, ◌||◌, ◌≡◌, refl, ◌∙◌, ap, sym, List, [], ◌∷◌, ◌++◌,
  any_of, arith, All, All-append, any_of-append, &&-eq-true, leb→le, Bool-cases, inl, inr,
}
use packet_guard.Base.Bits.{pow-add}
use packet_guard.Core.Ip.{
  IPv4Address, CidrRange, contains, covers, range_before, insert_range, sort_ranges, merge_loop,
  merge_ranges,
}
use packet_guard.Core.Ip.Cidr.{contains_iff}

-- The values that the fields of a range can hold, with a prefix that is one.
abbrev pub IsRange : CidrRange → Type 0
IsRange r = (r.prefix ≤ 32) × (r.network.value < 2 ^ 32)

-- Some range holds the address.
abbrev pub holds : List CidrRange → IPv4Address → Bool
holds rs ip = any_of (λ r. contains r ip) rs

shorter_prefix : (p q x : ℕ) → p ≤ q → q ≤ 32 → x / 2 ^ (32 - p) ≡ x / 2 ^ (32 - q) / 2 ^ (q - p)
shorter_prefix p q x h k =
    let split : 32 - p ≡ (32 - q) + (q - p) = omega arith in
    rw (split, pow-add (32 - q) (q - p)) (sym (div-div-eq-div-mul x (2 ^ (32 - q)) (2 ^ (q - p))))

-- What `covers` tests is containment of the whole range.
pub covers-contains :
    (e r : CidrRange) (ip : IPv4Address)
    → IsRange e
    → IsRange r
    → ip.value < 2 ^ 32
    → covers e r ≡ true
    → contains r ip ≡ true
    → contains e ip ≡ true
unfolding covers
covers-contains e r ip ve vr i c h =
    let (shorter, holds_network) = &&-eq-true _ _ c in
    let le = leb→le e.prefix r.prefix shorter in
    let same = (contains_iff r ip (vr.0) (vr.1) i).0 h in
    let inside = (contains_iff e r.network (ve.0) (ve.1) (vr.1)).0 holds_network in
    (contains_iff e ip (ve.0) (ve.1) i).1 (
      shorter_prefix e.prefix r.prefix ip.value le (vr.0)
      ∙ ap (λ (t : ℕ). t / 2 ^ (r.prefix - e.prefix)) same
      ∙ sym (shorter_prefix e.prefix r.prefix r.network.value le (vr.0))
      ∙ inside)

holds-insert_range :
    (r : CidrRange) (rs : List CidrRange) (ip : IPv4Address)
    → holds (insert_range r rs) ip ≡ (contains r ip || holds rs ip)
unfolding insert_range
holds-insert_range r [] ip = refl
holds-insert_range r (s ∷ rs) ip = ground (arith, holds-insert_range r rs ip)

holds-sort_ranges :
    (rs : List CidrRange) (ip : IPv4Address) → holds (sort_ranges rs) ip ≡ holds rs ip
unfolding sort_ranges
holds-sort_ranges [] ip = refl
holds-sort_ranges (r ∷ rs) ip =
    rw (holds-insert_range r (sort_ranges rs) ip, holds-sort_ranges rs ip)

All-insert_range :
    (r : CidrRange) (rs : List CidrRange)
    → IsRange r
    → All IsRange rs
    → All IsRange (insert_range r rs)
unfolding insert_range
All-insert_range r [] v vs = (v, tt)
All-insert_range r (s ∷ rs) v vs = elim (Bool-cases (range_before s r)) [
  | inl e ↦ rw e (vs.0, All-insert_range r rs v vs.1)
  | inr e ↦ rw e (v, vs)
]

pub All-sort_ranges : (rs : List CidrRange) → All IsRange rs → All IsRange (sort_ranges rs)
unfolding sort_ranges
All-sort_ranges [] vs = tt
All-sort_ranges (r ∷ rs) vs = All-insert_range r (sort_ranges rs) vs.0 (All-sort_ranges rs vs.1)

covered_holds :
    (out : List CidrRange) (r : CidrRange) (ip : IPv4Address)
    → All IsRange out
    → IsRange r
    → ip.value < 2 ^ 32
    → any_of (λ e. covers e r) out ≡ true
    → contains r ip ≡ true
    → holds out ip ≡ true
covered_holds [] r ip vs v i c h = cc
covered_holds (e ∷ out) r ip vs v i c h =
    ground (arith, covers-contains e r ip vs.0 v i, covered_holds out r ip vs.1 v i)

holds-merge_loop :
    (rs out : List CidrRange) (ip : IPv4Address)
    → All IsRange out
    → All IsRange rs
    → ip.value < 2 ^ 32
    → holds (merge_loop out rs) ip ≡ (holds out ip || holds rs ip)
unfolding merge_loop
holds-merge_loop [] out ip vs us i = ground arith
holds-merge_loop (r ∷ rs) out ip vs us i = elim (Bool-cases (any_of (λ e. covers e r) out)) [
  | inl c ↦
      rw c
        (holds-merge_loop rs out ip vs us.1 i ∙ ground (arith, covered_holds out r ip vs us.0 i c))
  | inr c ↦ rw c (
      holds-merge_loop rs (out ++ r ∷ []) ip (All-append IsRange out _ vs (us.0, tt)) us.1 i
      ∙ ground (arith, any_of-append (λ e. contains e ip) out (r ∷ [])))
]

-- Of ranges with 32-bit networks and prefixes up to 32, the merged ranges hold exactly the 32-bit
-- addresses that the given ranges hold.
pub holds-merge_ranges :
    (rs : List CidrRange) (ip : IPv4Address)
    → All IsRange rs
    → ip.value < 2 ^ 32
    → holds (merge_ranges rs) ip ≡ holds rs ip
unfolding merge_ranges
holds-merge_ranges rs ip vs i =
    holds-merge_loop (sort_ranges rs) [] ip tt (All-sort_ranges rs vs) i ∙ holds-sort_ranges rs ip
