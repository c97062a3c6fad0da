-- ===== src/Ioc/Session.antt =====
-- The class `IndicatorRefreshSession` of src/ioc/ioc.cpp.
pub mod Snapshot
use packet_guard.Base.{ℕ, ◌+◌, ◌%◌, ◌^◌, List, Text, Option}
use packet_guard.Core.Ip.{IPv4Address}
use packet_guard.Ioc.Index.{IndicatorIndex, empty_index, add_set}
use packet_guard.Ioc.Lookup.{lookup_ip, match_indexed, stats}
use packet_guard.Ioc.Parse.{parse_indicator_text}
use packet_guard.Ioc.Types.{IndicatorSet, MatchResult, IocIndexStats}
use packet_guard.Packet.Types.{PacketMetadata}

pub record IndicatorRefreshSession : Type 0 where
  pub current_set : IndicatorSet
  pub index : IndicatorIndex
  pub refresh_generation : ℕ

-- It returns the number of indicators added and the session.
unfoldable pub ingest_snapshot :
    (Text → Option ℕ) → IndicatorRefreshSession → Text → Text → ℕ × IndicatorRefreshSession
ingest_snapshot read_confidence session text source =
    let set = parse_indicator_text read_confidence text source in
    let (added, index) = add_set empty_index set in
    (
      added,
      record {
        current_set = set;
        index = index;
        refresh_generation = (session.refresh_generation + 1) % 2 ^ 32;
      },
    )

unfoldable pub replace_snapshot :
    (Text → Option ℕ) → IndicatorRefreshSession → Text → Text → ℕ × IndicatorRefreshSession
replace_snapshot = ingest_snapshot

unfoldable pub match_cached_cidr : IndicatorRefreshSession → IPv4Address → Text → List MatchResult
match_cached_cidr session a field = lookup_ip session.index a field

unfoldable pub match_session : IndicatorRefreshSession → PacketMetadata → List MatchResult
match_session session md = match_indexed session.index md

unfoldable pub session_stats : IndicatorRefreshSession → IocIndexStats
session_stats session = record (stats session.index) { generation = session.refresh_generation }
