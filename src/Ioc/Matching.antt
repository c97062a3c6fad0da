-- ===== src/Ioc/Matching.antt =====
-- The matching of a packet against a set of indicators, and the union of sets, of src/ioc/ioc.cpp.
pub mod Keys
pub mod Allowed
use packet_guard.Base.{
  Bool, not, ◌&&◌, ◌||◌, List, [], ◌∷◌, ◌++◌, Option, some, none, ◌==◌, if◌then◌else◌, Text, codes,
  text_eq, keep, any_of,
}
use packet_guard.Core.Diagnostics.{Diagnostics, no_diagnostics}
use packet_guard.Core.Ip.{IPv4Address, CidrRange, contains}
use packet_guard.Core.IpText.{ipv4_to_string}
use packet_guard.Ioc.Normalize.{normalize_domain, domain_matches, url_host}
use packet_guard.Ioc.Types.{
  IocType, ip, cidr, domain, url, Indicator, IndicatorSet, MatchResult, is_allow, indicator_key,
}
use packet_guard.Packet.Domains.{domain_names}
use packet_guard.Packet.Types.{PacketMetadata, PcapPacket}

abbrev pub match_of : Indicator → Text → Text → Text → MatchResult
match_of i field value reason = record {
  indicator = i;
  field = field;
  value = value;
  reason = reason;
}

-- The tests of `maybe_add_ip_matches`; an indicator has one type, so that at most one applies.
abbrev exact_reason : IPv4Address → Option IPv4Address → Option Text
exact_reason a none = none
exact_reason a (some own) = if own.value == a.value then some (codes "exact IPv4 match") else none

abbrev range_reason : IPv4Address → Option CidrRange → Option Text
range_reason a none = none
range_reason a (some r) = if contains r a then some (codes "CIDR containment match") else none

abbrev address_reason : IPv4Address → IocType → Indicator → Option Text
address_reason a ip i = exact_reason a i.ip_value
address_reason a cidr i = range_reason a i.cidr_value
address_reason a _ i = none

unfoldable pub ip_reason : IPv4Address → Indicator → Option Text
ip_reason a i = address_reason a i.type i

-- The tests of `maybe_add_domain_matches`.
abbrev name_reason : Text → IocType → Text → Option Text
name_reason name domain n =
    if domain_matches n name then some (codes "domain suffix match") else none
name_reason name url n =
    if domain_matches (url_host n) name then some (codes "URL host match") else none
name_reason name _ n = none

unfoldable pub domain_reason : Text → Indicator → Option Text
domain_reason name i = name_reason name i.type i.normalized

-- `out.push_back(...)` for each indicator with a reason.
abbrev pub collect : (Indicator → Option Text) → Text → Text → List Indicator → List MatchResult
collect reason field value [] = []
collect reason field value (i ∷ rest) = elim (reason i) [
  | none ↦ collect reason field value rest
  | some r ↦ match_of i field value r ∷ collect reason field value rest
]

unfoldable pub maybe_add_ip_matches :
    IndicatorSet → IPv4Address → Text → List MatchResult → List MatchResult
maybe_add_ip_matches set a field out =
    out ++ collect (ip_reason a) field (ipv4_to_string a) set.indicators

unfoldable pub maybe_add_domain_matches : IndicatorSet → Text → List MatchResult → List MatchResult
maybe_add_domain_matches set name out =
    out ++ collect (domain_reason name) (codes "dns.name") (normalize_domain name) set.indicators

-- Whether one of the matches allows what `m` matched: its field and its value.
abbrev pub allows : MatchResult → MatchResult → Bool
allows m c = is_allow c.indicator.role && (text_eq c.field m.field && text_eq c.value m.value)

-- The last loop of both functions `match_packet`.
unfoldable pub drop_allowed : List MatchResult → List MatchResult
drop_allowed out = keep (λ m. not (any_of (allows m) out) || is_allow m.indicator.role) out

unfoldable pub match_names : IndicatorSet → List Text → List MatchResult → List MatchResult
match_names set [] out = out
match_names set (name ∷ rest) out = match_names set rest (maybe_add_domain_matches set name out)

unfoldable pub match_packet : IndicatorSet → PacketMetadata → List MatchResult
match_packet set md =
    let addresses : List MatchResult = elim md.ipv4 [
      | none ↦ []
      | some h ↦
          maybe_add_ip_matches set h.destination (codes "ipv4.destination")
            (maybe_add_ip_matches set h.source (codes "ipv4.source") [])
    ] in
    drop_allowed (match_names set (domain_names md) addresses)

unfoldable pub match_packets : IndicatorSet → List PcapPacket → List MatchResult
match_packets set [] = []
match_packets set (pkt ∷ rest) = match_packet set pkt.metadata ++ match_packets set rest

-- A `std::set<std::string>` of the keys seen.
abbrev pub seen_in : List Text → Text → Bool
seen_in seen key = any_of (text_eq key) seen

-- One turn of the inner loop of `merge_indicator_sets`, with the keys seen, and the loop.
unfoldable pub merge_one : Indicator → List Text → IndicatorSet → List Text × IndicatorSet
merge_one i seen merged =
    let key = indicator_key i in
    if seen_in seen key
    then (seen, record merged { duplicates = merged.duplicates ++ i ∷ [] })
    else (key ∷ seen, record merged { indicators = merged.indicators ++ i ∷ [] })

unfoldable pub merge_indicators :
    List Indicator → List Text → IndicatorSet → List Text × IndicatorSet
merge_indicators [] seen merged = (seen, merged)
merge_indicators (i ∷ rest) seen merged =
    let (seen', merged') = merge_one i seen merged in merge_indicators rest seen' merged'

-- One turn of the outer loop, and the loop.
unfoldable pub merge_set : IndicatorSet → List Text → IndicatorSet → List Text × IndicatorSet
merge_set set seen merged = merge_indicators set.indicators seen (record merged {
  diagnostics = record { entries = merged.diagnostics.entries ++ set.diagnostics.entries };
})

unfoldable pub merge_sets : List IndicatorSet → List Text → IndicatorSet → IndicatorSet
merge_sets [] seen merged = merged
merge_sets (set ∷ rest) seen merged =
    let (seen', merged') = merge_set set seen merged in merge_sets rest seen' merged'

abbrev pub no_indicators : IndicatorSet
no_indicators = record { indicators = []; duplicates = []; diagnostics = no_diagnostics }

unfoldable pub merge_indicator_sets : List IndicatorSet → IndicatorSet
merge_indicator_sets sets = merge_sets sets [] no_indicators
