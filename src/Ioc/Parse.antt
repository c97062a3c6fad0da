-- ===== src/Ioc/Parse.antt =====
-- Indicators read from text, of src/ioc/ioc.cpp. `read_confidence` stands for
-- `std::max(0.0, std::min(1.0, std::stod(value)))` on a `double`, and is `none` where `std::stod` throws.
pub mod Sets
use packet_guard.Base.{
  ℕ, suc, Bool, false, ◌&&◌, ◌||◌, List, [], ◌∷◌, ◌++◌, Option, some, none, ◌==◌, if◌then◌else◌,
  Text, codes, text_eq, is_empty, any_of, drop,
}
use packet_guard.Base.Maps.{find_at, assign}
use packet_guard.Core.Diagnostics.{add_warning, add_info}
use packet_guard.Core.IpText.{parse_ipv4, parse_cidr, ipv4_to_string, cidr_to_string}
use packet_guard.Core.Result.{Result, ok, failed, overrun, stuck, failure, fail}
use packet_guard.Core.Strings.{
  to_lower, trim, split, split_ws, starts_with, strip_quotes, remove_comment, get_lines, to_decimal,
}
use packet_guard.Ioc.Matching.{no_indicators, seen_in}
use packet_guard.Ioc.Normalize.{
  normalize_domain, normalize_url, normalize_hash, is_valid_domain, hash_length_is_known, cut_first,
  infer_ioc_type,
}
use packet_guard.Ioc.Types.{
  IocType, ip, cidr, domain, url, hash, unknown_type, ListRole, indicator_role, allow, block,
  Indicator, IndicatorSet, indicator_key,
}

abbrev is_one_of : Text → List Text → Bool
is_one_of v ws = any_of (text_eq v) ws

unfoldable pub parse_role : Text → Option ListRole
parse_role value =
    let v = to_lower (trim value) in
    if is_one_of v (codes "allow" ∷ codes "allowlist" ∷ codes "whitelist" ∷ [])
    then some allow
    else if is_one_of v (codes "block" ∷ codes "blocklist" ∷ codes "deny" ∷ codes "denylist" ∷ [])
    then some block
    else if is_one_of v (codes "indicator" ∷ codes "ioc" ∷ codes "detect" ∷ [])
    then some indicator_role
    else none

-- The loop of `parse_attributes` over the fields behind the value.
unfoldable pub parse_attributes : List Text → List (Text × Text) → List (Text × Text)
parse_attributes [] attrs = attrs
parse_attributes (field ∷ rest) attrs = parse_attributes rest (elim (cut_first b'=' (trim field)) [
  | none ↦ attrs
  | some (k, v) ↦ assign text_eq (to_lower (trim k)) (strip_quotes (trim v)) attrs
])

-- The type that the first field names.
unfoldable pub token_type : Text → Option IocType
token_type token =
    if text_eq token (codes "ip")
    then some ip
    else if text_eq token (codes "cidr")
    then some cidr
    else if is_one_of token (codes "domain" ∷ codes "host" ∷ [])
    then some domain
    else if text_eq token (codes "url")
    then some url
    else if is_one_of token (codes "hash" ∷ codes "md5" ∷ codes "sha1" ∷ codes "sha256" ∷ [])
    then some hash
    else none

-- The type of the indicator, its value and the fields behind the value.
unfoldable pub typed_value : List Text → Option (IocType × Text × List Text)
typed_value [] = none
typed_value (f ∷ rest) = elim (infer_ioc_type f) [
  | some t ↦ some (t, f, rest)
  | none ↦ elim rest [
    | [] ↦ none
    | g ∷ more ↦ elim (token_type (to_lower (trim f))) [ none ↦ none | some t ↦ some (t, g, more) ]
  ]
]

unfoldable pub role_at : List Text → ListRole
role_at [] = indicator_role
role_at (f ∷ rest) = elim (parse_role f) [ none ↦ indicator_role | some r ↦ r ]

-- The `switch` on the type: what it fills in, or why it fails.
unfoldable pub with_value : IocType → Text → Indicator → Result Indicator
with_value ip value i = elim (parse_ipv4 value) [
  | none ↦ fail "invalid IPv4 indicator"
  | some a ↦ ok (record i { ip_value = some a; normalized = ipv4_to_string a })
]
with_value cidr value i = elim (parse_cidr value) [
  | none ↦ fail "invalid CIDR indicator"
  | some r ↦ ok (record i { cidr_value = some r; normalized = cidr_to_string r })
]
with_value domain value i =
    if is_valid_domain value || (starts_with value (codes "*.") && is_valid_domain (drop 2 value))
    then ok (record i { normalized = normalize_domain value })
    else fail "invalid domain indicator"
with_value url value i = ok (record i { normalized = normalize_url value })
with_value hash value i =
    let n = normalize_hash value in
    if hash_length_is_known n
    then ok (record i { normalized = n })
    else fail "hash length is not recognized"
with_value unknown_type value i = fail "unknown indicator type"

-- The text after the comment is cut off, and its fields.
unfoldable pub clean_line : Text → Text
clean_line line = trim (remove_comment line)

unfoldable pub line_fields : Text → List Text
line_fields clean =
    if any_of (λ c. c == b',') clean
    then split clean b',' false
    else if any_of (λ c. c == b'|') clean
    then split clean b'|' false
    else split_ws clean

-- What the loop of `parse_indicator_text` does with a parsed line.
unfoldable pub take_indicator : ℕ → Indicator → List Text → IndicatorSet → List Text × IndicatorSet
take_indicator line_no i seen set =
    let key = indicator_key i in
    if seen_in seen key
    then (
      seen,
      record set {
        duplicates = set.duplicates ++ i ∷ [];
        diagnostics =
            add_info set.diagnostics (codes "ioc.duplicate")
              (codes "duplicate indicator " ++ i.normalized) line_no;
      },
    )
    else (key ∷ seen, record set { indicators = set.indicators ++ i ∷ [] })

module _ (read_confidence : Text → Option ℕ) where
  -- 4602678819172646912 is the bit pattern of 0.5.
  unfoldable pub with_attributes : List (Text × Text) → Indicator → Indicator
  with_attributes attrs i = record i {
    attributes = attrs;
    severity = elim (find_at text_eq (codes "severity") attrs) [
      | none ↦ i.severity
      | some v ↦ to_lower v
    ];
    confidence = elim (find_at text_eq (codes "confidence") attrs) [
      | none ↦ i.confidence
      | some v ↦ elim (read_confidence v) [ none ↦ i.confidence | some c ↦ c ]
    ];
  }

  unfoldable pub parse_indicator_line : Text → ℕ → Result Indicator
  parse_indicator_line line line_number =
      let clean = clean_line line in
      let fields = line_fields clean in
      if is_empty clean
      then fail "empty indicator line"
      else if is_empty fields
      then fail "no indicator fields"
      else elim (typed_value fields) [
        | none ↦
            failed (failure (codes "unrecognized indicator on line " ++ to_decimal line_number))
        | some (type, field, rest) ↦ with_value type (strip_quotes (trim field)) (
            with_attributes (parse_attributes rest []) (record {
              type = type;
              role = role_at rest;
              raw = clean;
              normalized = [];
              source = [];
              severity = codes "medium";
              confidence = 4602678819172646912;
              ip_value = none;
              cidr_value = none;
              attributes = [];
            }))
      ]

  unfoldable pub take_line : Text → Text → ℕ → List Text → IndicatorSet → List Text × IndicatorSet
  take_line source line line_no seen set =
      if is_empty (clean_line line) then (seen, set) else elim (parse_indicator_line line line_no) [
        | ok i ↦ take_indicator line_no (record i { source = source }) seen set
        | failed st ↦ (
          seen,
          record set {
            diagnostics = add_warning set.diagnostics (codes "ioc.parse") st.message line_no;
          },
        )
        | overrun ↦ (seen, set)
        | stuck ↦ (seen, set)
      ]

  unfoldable pub take_lines :
      Text → List Text → ℕ → List Text → IndicatorSet → List Text × IndicatorSet
  take_lines source [] line_no seen set = (seen, set)
  take_lines source (line ∷ rest) line_no seen set =
      let (seen', set') = take_line source line (suc line_no) seen set in
      take_lines source rest (suc line_no) seen' set'

  unfoldable pub parse_indicator_text : Text → Text → IndicatorSet
  parse_indicator_text text source =
      (take_lines source (get_lines b'\n' [] text) 0 [] no_indicators).1
