-- ===== src/Core/IpText/RoundTrip.antt =====
-- The text of an address is read back as the address, and that of a range as the range.
use packet_guard.Base.{
  ℕ, ◌+◌, ◌-◌, ◌*◌, ◌/◌, ◌%◌, ◌^◌, ◌<◌, ◌≤◌, Bool, true, false, not, ◌&&◌, List, [], ◌∷◌, ◌++◌,
  Option, none, some, Text, leb, ◌==◌, if◌then◌else◌, all_of, length, All, ◌≡◌, refl, ◌∙◌, ap,
  arith, bit_and,
}
use packet_guard.Base.Bits.{all_below, all_below_sound, bit_and_ones, bit_or_sum}
use packet_guard.Core.Ip.Cidr.{masked}
use Prim.Native.Nat.{suc-le-suc}
use native.Mathlib.Nat.{le_trans, div-mul-le_self, one-le-pow, mul-div_cancel}
use packet_guard.Core.Ip.{IPv4Address, CidrRange, cidr_mask}
use packet_guard.Core.IpText.{
  parse_ipv4, ipv4_to_string, octets_loop, parse_cidr, cidr_to_string, parse_cidr_prefix,
  cidr_parts, masked_range,
}
use packet_guard.Core.Strings.Laws.{lacks, join, split-join, trim_plain}
use packet_guard.Core.Strings.{is_space, trim, split, is_decimal, from_decimal, to_decimal}

-- What the parser needs of the decimal form of a byte, checked for each byte.
octet_test : ℕ → Bool
octet_test o =
    is_decimal (to_decimal o)
    && (leb (length (to_decimal o)) 3
        && (from_decimal 0 (to_decimal o) == o
            && (lacks b'.' (to_decimal o)
                && (lacks b'/' (to_decimal o) && all_of (λ c. not (is_space c)) (to_decimal o)))))

octet_table : all_below 256 octet_test ≡ true
unfolding octet_test is_decimal to_decimal from_decimal is_space
octet_table = refl

record IsOctetText (o : ℕ) (text : Text) : Type 0 where
  decimal : is_decimal text ≡ true
  short : leb (length text) 3 ≡ true
  value : from_decimal 0 text ≡ o
  no_dot : lacks b'.' text ≡ true
  no_slash : lacks b'/' text ≡ true
  no_space : all_of (λ c. not (is_space c)) text ≡ true

to_decimal-IsOctetText : (o : ℕ) → o < 256 → IsOctetText o (to_decimal o)
unfolding octet_test
to_decimal-IsOctetText o h =
    let t = all_below_sound 256 octet_test o octet_table h in ground (arith, t)

octets_loop_step :
    (value o : ℕ) (part : Text) (parts : List Text)
    → o < 256
    → value < 2 ^ 24
    → IsOctetText o part
    → octets_loop value (part ∷ parts) ≡ octets_loop (value * 256 + o) parts
unfolding octets_loop
octets_loop_step value o part parts h k t =
    let s : value * 2 ^ 8 % 2 ^ 32 ≡ value * 2 ^ 8 = omega arith in
    rw (t.value, t.decimal, s, bit_or_sum 8 value o h) (ground arith)

-- The four octets of an address, as `ipv4_to_string` cuts them out.
octet : ℕ → ℕ → ℕ
octet v k = bit_and (v / 2 ^ k) 255

octet-mod : (v k : ℕ) → octet v k ≡ v / 2 ^ k % 256
unfolding octet
octet-mod v k = bit_and_ones 8 (v / 2 ^ k)

octet_text : (v k : ℕ) → IsOctetText (octet v k) (to_decimal (octet v k))
octet_text v k = to_decimal-IsOctetText (octet v k) (omega (arith, octet-mod v k))

octet_texts : ℕ → List Text
octet_texts v =
    to_decimal (octet v 24)
    ∷ to_decimal (octet v 16)
    ∷ to_decimal (octet v 8)
    ∷ to_decimal (octet v 0)
    ∷ []

octets_loop-octet_texts :
    (v : ℕ) → v < 2 ^ 32 → octets_loop 0 (octet_texts v) ≡ some (record { value = v })
unfolding octet_texts
octets_loop-octet_texts v h =
    let a = octet-mod v 24 in
    let b = octet-mod v 16 in
    let c = octet-mod v 8 in
    let d = octet-mod v 0 in
    octets_loop_step 0 (octet v 24) _ _ (omega (arith, a)) (omega arith) (octet_text v 24)
    ∙ octets_loop_step _ (octet v 16) _ _ (omega (arith, b)) (omega (arith, a)) (octet_text v 16)
    ∙ octets_loop_step _ (octet v 8) _ _ (omega (arith, c)) (omega (arith, a, b)) (octet_text v 8)
    ∙ octets_loop_step _ (octet v 0) _ _ (omega (arith, d)) (omega (arith, a, b, c))
        (octet_text v 0)
    ∙ (let whole : (((0 * 256 + octet v 24) * 256 + octet v 16) * 256 + octet v 8) * 256 + octet v 0
            ≡ v =
          omega (arith, a, b, c, d) in
        rw whole (unfold octets_loop in refl))

dotted : ℕ → Text
dotted v =
    join b'.' (to_decimal (octet v 24))
      (to_decimal (octet v 16) ∷ to_decimal (octet v 8) ∷ to_decimal (octet v 0) ∷ [])

ipv4_to_string-dotted : (v : ℕ) → ipv4_to_string (record { value = v }) ≡ dotted v
unfolding ipv4_to_string dotted octet
ipv4_to_string-dotted v = let e : v / 1 ≡ v = omega arith in rw e refl

module _ (good : ℕ → Bool) where
  all_of-append :
      (xs ys : Text) → all_of good xs ≡ true → all_of good ys ≡ true → all_of good (xs ++ ys) ≡ true
  all_of-append [] ys h k = k
  all_of-append (x ∷ xs) ys h k = ground (arith, all_of-append xs ys)

  all_of-join :
      (d : ℕ) (p : Text) (ps : List Text)
      → good d ≡ true
      → all_of good p ≡ true
      → All (λ q. all_of good q ≡ true) ps
      → all_of good (join d p ps) ≡ true
  all_of-join d p [] s h hs = h
  all_of-join d p (q ∷ qs) s h hs =
      all_of-append p (d ∷ join d q qs) h (rw s (all_of-join d q qs s hs.0 hs.1))

  -- So of the dotted text, if of its parts and the dot.
  all_of-dotted :
      (v : ℕ)
      → good b'.' ≡ true
      → ((k : ℕ) → all_of good (to_decimal (octet v k)) ≡ true)
      → all_of good (dotted v) ≡ true
  unfolding dotted
  all_of-dotted v dot parts =
      all_of-join b'.' (to_decimal (octet v 24))
        (to_decimal (octet v 16) ∷ to_decimal (octet v 8) ∷ to_decimal (octet v 0) ∷ []) dot
        (parts 24) (parts 16, (parts 8, (parts 0, tt)))

abbrev not_space : ℕ → Bool
not_space c = not (is_space c)

no_space_dotted : (v : ℕ) → all_of not_space (dotted v) ≡ true
no_space_dotted v =
    all_of-dotted not_space v (unfold is_space in refl) (λ k. (octet_text v k).no_space)

no_slash_dotted : (v : ℕ) → lacks b'/' (dotted v) ≡ true
no_slash_dotted v = all_of-dotted (λ c. not (c == b'/')) v refl (λ k. (octet_text v k).no_slash)

split-dotted : (v : ℕ) → split (dotted v) b'.' true ≡ octet_texts v
unfolding dotted octet_texts
split-dotted v =
    split-join b'.' _ _ _ (octet_text v 24).no_dot (octet_text v 16).no_dot
      ((octet_text v 8).no_dot, ((octet_text v 0).no_dot, tt))

-- Every 32-bit address is read back from its dotted text.
pub parse_ipv4-to_string :
    (ip : IPv4Address) → ip.value < 2 ^ 32 → parse_ipv4 (ipv4_to_string ip) ≡ some ip
unfolding parse_ipv4
parse_ipv4-to_string ip h =
    rw
      (
        ipv4_to_string-dotted ip.value,
        trim_plain (dotted ip.value) (no_space_dotted ip.value),
        split-dotted ip.value,
      )
      (unfold octet_texts in octets_loop-octet_texts ip.value h)

prefix_test : ℕ → Bool
prefix_test p = ite_some (parse_cidr_prefix (to_decimal p)) p
  where
    ite_some : Option ℕ → ℕ → Bool
    ite_some none n = false
    ite_some (some m) n = m == n

prefix_table : all_below 33 prefix_test ≡ true
unfolding prefix_test parse_cidr_prefix to_decimal
prefix_table = refl

parse_cidr_prefix-to_decimal : (p : ℕ) → p ≤ 32 → parse_cidr_prefix (to_decimal p) ≡ some p
unfolding prefix_test
parse_cidr_prefix-to_decimal p h =
    ground (arith, all_below_sound 33 prefix_test p prefix_table (omega arith))

-- The network address of a range.
abbrev pub network_of : CidrRange → CidrRange
network_of r = record r {
  network = record { value = bit_and r.network.value (cidr_mask r.prefix) };
}

masked-lt : (p a : ℕ) → p ≤ 32 → a < 2 ^ 32 → bit_and a (cidr_mask p) < 2 ^ 32
masked-lt p a h b = rw (masked p a h b) (le_trans (suc-le-suc (div-mul-le_self a (2 ^ (32 - p)))) b)

cleared : (q n : ℕ) → 0 < n → q * n / n * n ≡ q * n
cleared q n h = rw (mul-div_cancel q h)

masked_twice :
    (p a : ℕ)
    → p ≤ 32
    → a < 2 ^ 32
    → bit_and (bit_and a (cidr_mask p)) (cidr_mask p) ≡ bit_and a (cidr_mask p)
masked_twice p a h b =
    masked p _ h (masked-lt p a h b)
    ∙ rw (masked p a h b) (cleared (a / 2 ^ (32 - p)) (2 ^ (32 - p)) (one-le-pow _ 2 (omega arith)))

cidr_parts_two :
    (network prefix : Text)
    → cidr_parts (network ∷ prefix ∷ []) ≡ (
        if not (is_decimal prefix)
        then none
        else masked_range (parse_cidr_prefix prefix) (parse_ipv4 network))
unfolding cidr_parts
cidr_parts_two network prefix = refl

parse_cidr-split : (t : Text) → parse_cidr t ≡ cidr_parts (split (trim t) b'/' true)
unfolding parse_cidr
parse_cidr-split t = refl

masked_range-some :
    (p : ℕ) (ip : IPv4Address)
    → masked_range (some p) (some ip)
      ≡ some (record { network = record { value = bit_and ip.value (cidr_mask p) }; prefix = p })
unfolding masked_range
masked_range-some p ip = refl

parse_ipv4-dotted : (v : ℕ) → v < 2 ^ 32 → parse_ipv4 (dotted v) ≡ some (record { value = v })
parse_ipv4-dotted v h =
    rw (ipv4_to_string-dotted v) at (parse_ipv4-to_string (record { value = v }) h)

module _ (r : CidrRange) (h : r.prefix ≤ 32) (b : r.network.value < 2 ^ 32) where
  cleared_value : ℕ
  cleared_value = bit_and r.network.value (cidr_mask r.prefix)

  cidr_text : Text
  cidr_text = join b'/' (dotted cleared_value) (to_decimal r.prefix ∷ [])

  cidr_to_string-text : cidr_to_string r ≡ cidr_text
  unfolding cidr_to_string cidr_text cleared_value
  cidr_to_string-text =
      ap (λ (t : Text). t ++ (b'/' ∷ to_decimal r.prefix)) (ipv4_to_string-dotted _)

  prefix_text : IsOctetText r.prefix (to_decimal r.prefix)
  prefix_text = to_decimal-IsOctetText r.prefix (omega arith)

  no_space_cidr : all_of not_space cidr_text ≡ true
  unfolding cidr_text
  no_space_cidr =
      all_of-join not_space b'/' (dotted cleared_value) (to_decimal r.prefix ∷ [])
        (unfold is_space in refl) (no_space_dotted cleared_value) (prefix_text.no_space, tt)

  split_cidr : split cidr_text b'/' true ≡ dotted cleared_value ∷ to_decimal r.prefix ∷ []
  unfolding cidr_text
  split_cidr =
      split-join b'/' (dotted cleared_value) (to_decimal r.prefix) []
        (no_slash_dotted cleared_value) prefix_text.no_slash tt

  cidr_parts_of : cidr_parts (dotted cleared_value ∷ to_decimal r.prefix ∷ []) ≡ some (network_of r)
  unfolding cleared_value
  cidr_parts_of =
      cidr_parts_two _ _
      ∙ rw
          (
            prefix_text.decimal,
            parse_cidr_prefix-to_decimal r.prefix h,
            parse_ipv4-dotted _ (masked-lt r.prefix r.network.value h b),
          )
          (masked_range-some _ _
            ∙ ap (λ (v : ℕ). some (record { network = record { value = v }; prefix = r.prefix }))
                (masked_twice r.prefix r.network.value h b))

  -- A range with a 32-bit network and a prefix up to 32 is read back from its text with the bits behind
  -- its prefix cleared.
  pub parse_cidr-to_string : parse_cidr (cidr_to_string r) ≡ some (network_of r)
  parse_cidr-to_string =
      parse_cidr-split _
      ∙ rw (cidr_to_string-text, trim_plain cidr_text no_space_cidr, split_cidr) cidr_parts_of
