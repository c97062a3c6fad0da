-- ===== src/Tests/Iocs.antt =====
-- The indicators, their index and their session of src/ioc/ioc.cpp, and the services of
-- src/core/security_catalog.cpp, on a few inputs.
use packet_guard.Base.{
  ℕ, ◌^◌, ◌<◌, ◌≡◌, arith, true, List, [], ◌∷◌, map, Option, some, none, Text, codes, any_of, keep,
  length, ◌+◌, All, ◌↔◌,
}
use packet_guard.Core.Catalog.Types.{ServiceProfile, service_profile}
use packet_guard.Core.Catalog.Exposure.{lookup_service_profile, Serves, lookup_service_profile_iff}
use packet_guard.Core.Ip.{IPv4Address}
use packet_guard.Core.IpText.{ipv4_to_string}
use packet_guard.Core.Strings.{to_lower}
use packet_guard.Ioc.Index.{
  IndicatorIndex, empty_index, normalized_indicator, add_all, contains_key,
}
use packet_guard.Ioc.Index.Changes.{empty_index-IsIndexed}
use packet_guard.Ioc.Index.Integrity.{passes, contains_key-any_of, validate_integrity-perform_all}
use packet_guard.Ioc.Index.Ranges.{up_to, covers_at, HasFit, lookup_ip-up_to}
use packet_guard.Ioc.Index.Reach.{
  Request, add_one, remove_by_id, reactivate, set_role, compact_all, perform_all,
  reachable-IsIndexed,
}
use packet_guard.Ioc.Index.Rebuild.{IsIndexed}
use packet_guard.Ioc.Index.Searches.{indicators_where, lookup_hash-indicators_where}
use packet_guard.Ioc.Index.Slots.{has_key, has_hash, HasRange}
use packet_guard.Ioc.Lookup.{lookup_ip, lookup_hash, validate_integrity}
use packet_guard.Ioc.Matching.{match_of, drop_allowed, merge_indicator_sets, no_indicators}
use packet_guard.Ioc.Matching.Allowed.{Stays, IsFiltered, drop_allowed-IsFiltered}
use packet_guard.Ioc.Matching.Keys.{has_distinct_keys, holds_key, total, merge_indicator_sets-keys}
use packet_guard.Ioc.Normalize.{normalize_hash}
use packet_guard.Ioc.Parse.{parse_indicator_text}
use packet_guard.Ioc.Parse.Sets.{parse_indicator_text-keys}
use packet_guard.Ioc.Session.{IndicatorRefreshSession, ingest_snapshot, match_cached_cidr}
use packet_guard.Ioc.Session.Snapshot.{match_cached_cidr-keep, add_all-HasFit, add_all-IsIndexed}
use packet_guard.Ioc.Types.{Indicator, IndicatorSet, MatchResult, cidr, hash, allow, block}

abbrev no_confidence : Text → Option ℕ
no_confidence text = none

abbrev new_session : IndicatorRefreshSession
new_session = record { current_set = no_indicators; index = empty_index; refresh_generation = 0 }

-- A range, an address in it, and the range again.
abbrev feed : Text
feed = codes "10.0.0.0/8,block\n10.1.2.3\nnonsense\n10.0.0.0/8,block\n"

abbrev host : IPv4Address
host = record { value = 167838211 }

host_fits : host.value < 2 ^ 32
host_fits = omega arith

match_cached_cidr_example :
    match_cached_cidr
      (ingest_snapshot no_confidence new_session feed (codes "feed")).1
      host
      (codes "ip")
    ≡ map
        (λ i. match_of i (codes "ip") (ipv4_to_string host) (codes "stateful IOC index CIDR match"))
        (up_to
          (λ k. keep (covers_at k host) (
            map normalized_indicator
              (ingest_snapshot no_confidence new_session feed
                (codes "feed")).1.current_set.indicators))
          32)
match_cached_cidr_example =
    match_cached_cidr-keep no_confidence new_session feed (codes "feed") host (codes "ip") host_fits

parse_indicator_text_example :
    (has_distinct_keys (parse_indicator_text no_confidence feed (codes "feed")).indicators ≡ true)
    × All HasRange (parse_indicator_text no_confidence feed (codes "feed")).indicators
parse_indicator_text_example = parse_indicator_text-keys no_confidence feed (codes "feed")

abbrev ten_net : Indicator
ten_net = record {
  type = cidr;
  role = block;
  raw = codes "10.0.0.0/8";
  normalized = codes "10.0.0.0/8";
  source = [];
  severity = codes "medium";
  confidence = 4602678819172646912;
  ip_value = none;
  cidr_value = some (record { network = record { value = 167772160 }; prefix = 8 });
  attributes = [];
}

abbrev sample_hash : Indicator
sample_hash = record ten_net {
  type = hash;
  normalized = codes "d41d8cd98f00b204e9800998ecf8427e";
  cidr_value = none;
}

abbrev requests : List Request
requests =
    add_one ten_net
    ∷ add_one sample_hash
    ∷ remove_by_id 1
    ∷ reactivate 1
    ∷ set_role 2 allow
    ∷ add_one ten_net
    ∷ remove_by_id 3
    ∷ compact_all
    ∷ []

reachable_example : IsIndexed (perform_all empty_index requests)
reachable_example = reachable-IsIndexed requests

validate_integrity_example :
    validate_integrity (perform_all empty_index requests) none ≡ (true, none)
validate_integrity_example = validate_integrity-perform_all requests none

abbrev sample_index : IndicatorIndex
sample_index = add_all empty_index (ten_net ∷ sample_hash ∷ [])

sample_index-IsIndexed : IsIndexed sample_index
sample_index-IsIndexed =
    add_all-IsIndexed (ten_net ∷ sample_hash ∷ []) empty_index empty_index-IsIndexed

ten_net-HasRange : HasRange ten_net
ten_net-HasRange = (omega arith, omega arith)

sample_index-HasFit : All HasFit sample_index.records
sample_index-HasFit =
    add_all-HasFit (ten_net ∷ sample_hash ∷ []) empty_index (ten_net-HasRange, (tt, tt)) tt

contains_key_example :
    contains_key sample_index (codes "cidr:block:10.0.0.0/8")
    ≡ any_of (passes (has_key (codes "cidr:block:10.0.0.0/8"))) sample_index.records
contains_key_example =
    contains_key-any_of sample_index (codes "cidr:block:10.0.0.0/8") sample_index-IsIndexed

lookup_hash_example :
    lookup_hash sample_index sample_hash.normalized (codes "hash")
    ≡ map
        (λ i.
          match_of i
            (codes "hash")
            (normalize_hash sample_hash.normalized)
            (codes "stateful IOC index hash match"))
        (indicators_where (has_hash (normalize_hash sample_hash.normalized)) sample_index.records)
lookup_hash_example =
    lookup_hash-indicators_where sample_index sample_hash.normalized (codes "hash")
      sample_index-IsIndexed

lookup_ip_example :
    lookup_ip sample_index host (codes "ip")
    ≡ map
        (λ i. match_of i (codes "ip") (ipv4_to_string host) (codes "stateful IOC index CIDR match"))
        (up_to (λ k. indicators_where (covers_at k host) sample_index.records) 32)
lookup_ip_example =
    lookup_ip-up_to sample_index host (codes "ip") sample_index-IsIndexed sample_index-HasFit
      host_fits

abbrev one_set : IndicatorSet
one_set = record no_indicators { indicators = ten_net ∷ sample_hash ∷ [] }

abbrev other_set : IndicatorSet
other_set = record no_indicators { indicators = sample_hash ∷ [] }

abbrev both_sets : List IndicatorSet
both_sets = one_set ∷ other_set ∷ []

merge_indicator_sets_example :
    (has_distinct_keys (merge_indicator_sets both_sets).indicators ≡ true)
    × ((key : Text)
        → holds_key (merge_indicator_sets both_sets).indicators key
          ≡ any_of (λ set. holds_key set.indicators key) both_sets)
    × (length (merge_indicator_sets both_sets).indicators
          + length (merge_indicator_sets both_sets).duplicates
        ≡ total both_sets)
merge_indicator_sets_example = merge_indicator_sets-keys both_sets

abbrev host_matches : List MatchResult
host_matches =
    match_of ten_net (codes "ip") (codes "10.1.2.3") []
    ∷ match_of (record ten_net { role = allow }) (codes "ip") (codes "10.1.2.3") []
    ∷ match_of ten_net (codes "ip") (codes "10.9.9.9") []
    ∷ []

drop_allowed_example : IsFiltered (Stays host_matches) host_matches (drop_allowed host_matches)
drop_allowed_example = drop_allowed-IsFiltered host_matches

abbrev shell : ServiceProfile
shell = service_profile 22 "tcp" "ssh" "remote-admin" "encrypted remote shell" "medium"

lookup_service_profile_example :
    (lookup_service_profile 22 (codes "TCP") ≡ some shell)
    ↔ Serves 22 (to_lower (codes "TCP")) shell
lookup_service_profile_example = lookup_service_profile_iff 22 (codes "TCP") shell
