-- ===== src/Core/IpText/Bounds.antt =====
-- What the parsers of addresses and ranges in src/core/ip.cpp return fits 32 bits.
use native.Mathlib.Nat.{div-mul-le_self}
use packet_guard.Base.{
  ℕ, ◌+◌, ◌-◌, ◌*◌, ◌%◌, ◌^◌, ◌≤◌, ◌<◌, ◌≡◌, refl, arith, true, not, ◌||◌, List, [], ◌∷◌, Option,
  some, none, ltb, ◌==◌, Text, length, bit_or, Bool-cases, inl, inr, subst, is_empty,
}
use mathlib.Core.Option.{some-injective, none-ne-some}
use packet_guard.Base.Bits.{bit_or_sum}
use packet_guard.Core.Ip.{IPv4Address, CidrRange}
use packet_guard.Core.Ip.Cidr.{masked}
use packet_guard.Core.IpText.{
  octets_loop, parse_ipv4, prefix_loop, parse_cidr_prefix, host_range, masked_range, cidr_parts,
  parse_cidr,
}
use packet_guard.Core.Strings.{split, trim, is_decimal, from_decimal}

-- One octet more keeps a value within 32 bits.
octet_fits : (value octet : ℕ) → octet < 2 ^ 8 → bit_or (value * 2 ^ 8 % 2 ^ 32) octet < 2 ^ 32
octet_fits value octet h =
    let e : value * 2 ^ 8 % 2 ^ 32 ≡ value % 2 ^ 24 * 2 ^ 8 = omega arith in
    rw (e, bit_or_sum 8 (value % 2 ^ 24) octet h) (omega (arith, h))

octets_loop-bound :
    (parts : List Text) (value : ℕ) (a : IPv4Address)
    → value < 2 ^ 32
    → octets_loop value parts ≡ some a
    → a.value < 2 ^ 32
unfolding octets_loop
octets_loop-bound [] value a h e =
    subst (λ (x : IPv4Address). x.value < 2 ^ 32) (some-injective _ a e) h
octets_loop-bound (part ∷ parts) value a h e =
    elim (Bool-cases (not (is_decimal part) || ltb 3 (length part))) [
      | inl f ↦ let g : none ≡ some a = rw f at e in absurd (none-ne-some a g)
      | inr f ↦ elim (Bool-cases (ltb 255 (from_decimal 0 part))) [
        | inl k ↦ let g : none ≡ some a = rw (f, k) at e in absurd (none-ne-some a g)
        | inr k ↦
            let octet = from_decimal 0 part in
            let g : octets_loop (bit_or (value * 2 ^ 8 % 2 ^ 32) octet) parts ≡ some a =
              rw (f, k) at e in
            octets_loop-bound parts (bit_or (value * 2 ^ 8 % 2 ^ 32) octet) a
              (octet_fits value octet (ground (arith, k))) g
      ]
    ]

pub parse_ipv4-bound : (text : Text) (a : IPv4Address) → parse_ipv4 text ≡ some a → a.value < 2 ^ 32
unfolding parse_ipv4
parse_ipv4-bound text a e = elim (Bool-cases (not (length (split (trim text) b'.' true) == 4))) [
  | inl f ↦ let g : none ≡ some a = rw f at e in absurd (none-ne-some a g)
  | inr f ↦
      let g : octets_loop 0 (split (trim text) b'.' true) ≡ some a = rw f at e in
      octets_loop-bound (split (trim text) b'.' true) 0 a (omega arith) g
]

prefix_loop-bound : (cs : Text) (value p : ℕ) → value ≤ 32 → prefix_loop value cs ≡ some p → p ≤ 32
unfolding prefix_loop
prefix_loop-bound [] value p h e = let f = some-injective (value % 2 ^ 8) p e in omega (arith, f, h)
prefix_loop-bound (c ∷ cs) value p h e =
    let value' = (value * 10 + (c - b'0')) % 2 ^ 32 in
    elim (Bool-cases (ltb 32 value')) [
      | inl f ↦ let g : none ≡ some p = rw f at e in absurd (none-ne-some p g)
      | inr f ↦
          let g : prefix_loop value' cs ≡ some p = rw f at e in
          prefix_loop-bound cs value' p (ground (arith, f)) g
    ]

parse_cidr_prefix-bound : (text : Text) (p : ℕ) → parse_cidr_prefix text ≡ some p → p ≤ 32
unfolding parse_cidr_prefix
parse_cidr_prefix-bound text p e = elim (Bool-cases (is_empty text)) [
  | inl f ↦ let g : none ≡ some p = rw f at e in absurd (none-ne-some p g)
  | inr f ↦
      let g : prefix_loop 0 text ≡ some p = rw f at e in prefix_loop-bound text 0 p (omega arith) g
]

-- A range whose prefix and network fit.
abbrev pub Fits : CidrRange → Type 0
Fits r = (r.prefix ≤ 32) × (r.network.value < 2 ^ 32)

masked_range-Fits :
    (p : Option ℕ) (a : Option IPv4Address) (r : CidrRange)
    → ((n : ℕ) → p ≡ some n → n ≤ 32)
    → ((b : IPv4Address) → a ≡ some b → b.value < 2 ^ 32)
    → masked_range p a ≡ some r
    → Fits r
unfolding masked_range
masked_range-Fits none a r h k e = absurd (none-ne-some r e)
masked_range-Fits (some p) none r h k e = absurd (none-ne-some r e)
masked_range-Fits (some p) (some b) r h k e =
    let small = k b refl in
    subst Fits (some-injective _ r e) (
      h p refl,
      rw (masked p b.value (h p refl) small)
          (omega (arith, small, div-mul-le_self b.value (2 ^ (32 - p)))),
    )

host_range-Fits :
    (a : Option IPv4Address) (r : CidrRange)
    → ((b : IPv4Address) → a ≡ some b → b.value < 2 ^ 32)
    → host_range a ≡ some r
    → Fits r
unfolding host_range
host_range-Fits none r k e = absurd (none-ne-some r e)
host_range-Fits (some b) r k e = subst Fits (some-injective _ r e) (le_32, k b refl)
  where
    le_32 : 32 ≤ 32
    le_32 = omega arith

cidr_parts-Fits : (parts : List Text) (r : CidrRange) → cidr_parts parts ≡ some r → Fits r
unfolding cidr_parts
cidr_parts-Fits [] r e = absurd (none-ne-some r e)
cidr_parts-Fits (host ∷ []) r e = host_range-Fits (parse_ipv4 host) r (parse_ipv4-bound host) e
cidr_parts-Fits (network ∷ prefix ∷ []) r e = elim (Bool-cases (not (is_decimal prefix))) [
  | inl f ↦ let g : none ≡ some r = rw f at e in absurd (none-ne-some r g)
  | inr f ↦
      let g : masked_range (parse_cidr_prefix prefix) (parse_ipv4 network) ≡ some r = rw f at e in
      masked_range-Fits (parse_cidr_prefix prefix) (parse_ipv4 network) r
        (parse_cidr_prefix-bound prefix) (parse_ipv4-bound network) g
]
cidr_parts-Fits (a ∷ b ∷ c ∷ rest) r e = absurd (none-ne-some r e)

-- A range that is parsed has a prefix of at most 32 bits and a network of 32 bits.
pub parse_cidr-Fits : (text : Text) (r : CidrRange) → parse_cidr text ≡ some r → Fits r
unfolding parse_cidr
parse_cidr-Fits text r e = cidr_parts-Fits (split (trim text) b'/' true) r e
