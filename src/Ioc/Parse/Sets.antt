-- ===== src/Ioc/Parse/Sets.antt =====
-- The set of indicators that `parse_indicator_text` of src/ioc/ioc.cpp reads.
use packet_guard.Base.{
  ℕ, suc, ◌≤◌, ◌≡◌, refl, arith, true, ◌&&◌, ◌||◌, List, [], ◌∷◌, Option, none, Text, codes,
  is_empty, drop, All, All-append, Bool-cases, Option-cases, inl, inr, ◌⊎◌,
}
use packet_guard.Core.IpText.{parse_ipv4, parse_cidr}
use packet_guard.Core.IpText.Bounds.{parse_ipv4-bound, parse_cidr-Fits}
use packet_guard.Core.Result.{Result, ok, failed, overrun, stuck, Ensures, Status}
use packet_guard.Core.Strings.{starts_with, trim, strip_quotes, get_lines}
use packet_guard.Ioc.Index.Slots.{HasRange}
use packet_guard.Ioc.Matching.{seen_in, no_indicators}
use packet_guard.Ioc.Matching.Keys.{
  has_distinct_keys, IsTracked, nothing-IsTracked, new_key-IsTracked,
}
use packet_guard.Ioc.Normalize.{is_valid_domain, normalize_hash, hash_length_is_known}
use packet_guard.Ioc.Parse.{
  with_value, with_attributes, typed_value, clean_line, line_fields, parse_indicator_line,
  take_indicator, take_line, take_lines, parse_indicator_text,
}
use packet_guard.Ioc.Types.{
  IocType, ip, cidr, domain, url, hash, unknown_type, Indicator, IndicatorSet, indicator_key,
}

-- An indicator of a type, before its value is filled in.
record IsBlank (t : IocType) (i : Indicator) : Type 0 where
  type : i.type ≡ t
  no_ip : i.ip_value ≡ none
  no_cidr : i.cidr_value ≡ none

with_value-HasRange :
    (t : IocType) (value : Text) (i : Indicator)
    → IsBlank t i
    → Ensures HasRange (with_value t value i)
unfolding with_value
with_value-HasRange ip value i b = elim (Option-cases (parse_ipv4 value)) [
  | inl e ↦ rw (e, with_value) tt
  | inr (a, e) ↦
      let small = parse_ipv4-bound value a e in
      let whole : 32 ≤ 32 = omega arith in
      rw (e, with_value) (simp (b.type, b.no_cidr) (whole, small))
]
with_value-HasRange cidr value i b = elim (Option-cases (parse_cidr value)) [
  | inl e ↦ rw (e, with_value) tt
  | inr (r, e) ↦ rw (e, with_value) (simp b.type (parse_cidr-Fits value r e))
]
with_value-HasRange domain value i b =
    elim (Bool-cases (
      is_valid_domain value
      || (starts_with value (codes "*.") && is_valid_domain (drop 2 value)))) [
        | inl e ↦ rw (e, with_value) (simp b.type tt)
        | inr e ↦ rw (e, with_value) tt
      ]
with_value-HasRange url value i b = simp b.type tt
with_value-HasRange hash value i b =
    elim (Bool-cases (hash_length_is_known (normalize_hash value))) [
      | inl e ↦ rw (e, with_value) (simp b.type tt)
      | inr e ↦ rw (e, with_value) tt
    ]
with_value-HasRange unknown_type value i b = tt

parse_indicator_line-HasRange :
    (read_confidence : Text → Option ℕ) (line : Text) (n : ℕ)
    → Ensures HasRange (parse_indicator_line read_confidence line n)
unfolding parse_indicator_line with_attributes
parse_indicator_line-HasRange read_confidence line n =
    let fields = line_fields (clean_line line) in
    elim (Bool-cases (is_empty (clean_line line))) [
      | inl e ↦ rw (e, parse_indicator_line) tt
      | inr e ↦ elim (Bool-cases (is_empty fields)) [
        | inl f ↦ rw (e, f, parse_indicator_line) tt
        | inr f ↦ elim (Option-cases (typed_value fields)) [
          | inl g ↦ rw (e, f, g, parse_indicator_line) tt
          | inr ((t, field, rest), g) ↦
              rw (e, f, g, parse_indicator_line)
                (with_value-HasRange t (strip_quotes (trim field)) _
                  (record { type = refl; no_ip = refl; no_cidr = refl }))
        ]
      ]
    ]

Result-cases :
    (r : Result Indicator)
    → ((i : Indicator) × (r ≡ ok i))
      ⊎ (((st : Status) × (r ≡ failed st)) ⊎ ((r ≡ overrun) ⊎ (r ≡ stuck)))
Result-cases (ok i) = inl (i, refl)
Result-cases (failed st) = inr (inl (st, refl))
Result-cases overrun = inr (inr (inl refl))
Result-cases stuck = inr (inr (inr refl))

take_indicator-IsTracked :
    (n : ℕ) (i : Indicator) (seen : List Text) (set : IndicatorSet)
    → IsTracked seen set.indicators
    → IsTracked (take_indicator n i seen set).0 (take_indicator n i seen set).1.indicators
unfolding take_indicator
take_indicator-IsTracked n i seen set t = elim (Bool-cases (seen_in seen (indicator_key i))) [
  | inl e ↦ rw e t
  | inr e ↦ rw e (new_key-IsTracked seen set.indicators i e t)
]

take_indicator-HasRange :
    (n : ℕ) (i : Indicator) (seen : List Text) (set : IndicatorSet)
    → HasRange i
    → All HasRange set.indicators
    → All HasRange (take_indicator n i seen set).1.indicators
unfolding take_indicator
take_indicator-HasRange n i seen set r h = elim (Bool-cases (seen_in seen (indicator_key i))) [
  | inl e ↦ rw e h
  | inr e ↦ rw e (All-append HasRange set.indicators (i ∷ []) h (r, tt))
]

-- What the loop over the lines keeps.
abbrev IsRead : List Text × IndicatorSet → Type 0
IsRead r = IsTracked r.0 r.1.indicators × All HasRange r.1.indicators

module _ (read_confidence : Text → Option ℕ) (source : Text) where
  take_line-IsRead :
      (line : Text) (n : ℕ) (seen : List Text) (set : IndicatorSet)
      → IsRead (seen, set)
      → IsRead (take_line read_confidence source line n seen set)
  unfolding take_line
  take_line-IsRead line n seen set h = elim (Bool-cases (is_empty (clean_line line))) [
    | inl f ↦ rw (f, take_line) h
    | inr f ↦
        let parsed = parse_indicator_line read_confidence line n in
        let fits = parse_indicator_line-HasRange read_confidence line n in
        elim (Result-cases parsed) [
          | inl (i, e) ↦
              let k : HasRange i = rw e at fits in
              rw (f, e, take_line)
                (
                  take_indicator-IsTracked n (record i { source = source }) seen set h.0,
                  take_indicator-HasRange n (record i { source = source }) seen set k h.1,
                )
          | inr (inl (st, e)) ↦ rw (f, e, take_line) h
          | inr (inr (inl e)) ↦ rw (f, e, take_line) h
          | inr (inr (inr e)) ↦ rw (f, e, take_line) h
        ]
  ]

  take_lines-IsRead :
      (lines : List Text) (n : ℕ) (seen : List Text) (set : IndicatorSet)
      → IsRead (seen, set)
      → IsRead (take_lines read_confidence source lines n seen set)
  unfolding take_lines
  take_lines-IsRead [] n seen set h = h
  take_lines-IsRead (line ∷ rest) n seen set h =
      let k = take_line-IsRead line (suc n) seen set h in
      let (seen', set') = take_line read_confidence source line (suc n) seen set in
      take_lines-IsRead rest (suc n) seen' set' k

-- Of the indicators read from any text no two have the same key, and the ranges of those that have one
-- have a prefix of at most 32 bits and a network of 32 bits, whatever reads the confidence.
pub parse_indicator_text-keys :
    (read_confidence : Text → Option ℕ) (text source : Text)
    → let set = parse_indicator_text read_confidence text source in
      (has_distinct_keys set.indicators ≡ true) × All HasRange set.indicators
unfolding parse_indicator_text
parse_indicator_text-keys read_confidence text source =
    let (t, r) =
      take_lines-IsRead read_confidence source (get_lines b'\n' [] text) 0 [] no_indicators
        (nothing-IsTracked, tt) in
    (t.distinct, r)
