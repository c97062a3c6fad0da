-- ===== src/Ioc/Lookup.antt =====
-- The searches and the checks of the class `IndicatorIndex` of src/ioc/ioc.cpp.
use Prim.Native.String.{String}
use packet_guard.Base.{
  ℕ, suc, ◌+◌, Bool, true, false, not, List, [], ◌∷◌, ◌++◌, map, Option, some, none, ltb, leb, ◌==◌,
  if◌then◌else◌, Text, codes, text_eq, is_empty, length, get_elem?,
}
use packet_guard.Base.Maps.{indices_at, in_order}
use packet_guard.Core.Diagnostics.{Sink, error_to}
use packet_guard.Core.Ip.{IPv4Address}
use packet_guard.Core.IpText.{ipv4_to_string}
use packet_guard.Ioc.Index.{IndicatorIndex}
use packet_guard.Ioc.Matching.{match_of, drop_allowed}
use packet_guard.Ioc.Normalize.{normalize_domain, normalize_hash, domain_matches}
use packet_guard.Ioc.Trie.{TrieNode, walk_slots, path_bits}
use packet_guard.Ioc.Types.{Indicator, IndexedIndicator, MatchResult, IocIndexStats}
use packet_guard.Packet.Domains.{text_before, domain_names}
use packet_guard.Packet.Types.{PacketMetadata}

-- The records at slots: those in range and active.
unfoldable pub live_at : List IndexedIndicator → List ℕ → List Indicator
live_at records [] = []
live_at records (slot ∷ rest) = elim (get_elem? records slot) [
  | none ↦ live_at records rest
  | some rec ↦
      let others = live_at records rest in if rec.active then rec.indicator ∷ others else others
]

abbrev pub matches_at : IndicatorIndex → List ℕ → Text → Text → Text → List MatchResult
matches_at s slots field value reason =
    map (λ i. match_of i field value reason) (live_at s.records slots)

-- The walk down the trie along the 32 bits of the address.
unfoldable pub ip_slots : IndicatorIndex → IPv4Address → List ℕ
ip_slots s a =
    if is_empty s.cidr_trie then [] else walk_slots s.cidr_trie 0 (path_bits a.value 0 32)

unfoldable pub lookup_ip : IndicatorIndex → IPv4Address → Text → List MatchResult
lookup_ip s a field =
    matches_at s (ip_slots s a) field (ipv4_to_string a) (codes "stateful IOC index CIDR match")

-- The loop over the map of domains, in the order of its keys.
unfoldable pub domain_slots : Text → List (Text × List ℕ) → List ℕ
domain_slots observed [] = []
domain_slots observed ((key, slots) ∷ rest) =
    (if domain_matches key observed then slots else []) ++ domain_slots observed rest

unfoldable pub lookup_domain : IndicatorIndex → Text → Text → List MatchResult
lookup_domain s name field =
    let observed = normalize_domain name in
    matches_at s (domain_slots observed (in_order text_before s.domains)) field observed
      (codes "stateful IOC index domain match")

unfoldable pub lookup_hash : IndicatorIndex → Text → Text → List MatchResult
lookup_hash s value field =
    let normalized = normalize_hash value in
    matches_at s (indices_at text_eq normalized s.hashes) field normalized
      (codes "stateful IOC index hash match")

unfoldable pub lookup_names : IndicatorIndex → List Text → List MatchResult
lookup_names s [] = []
lookup_names s (name ∷ rest) = lookup_domain s name (codes "dns.name") ++ lookup_names s rest

unfoldable pub match_indexed : IndicatorIndex → PacketMetadata → List MatchResult
match_indexed s md =
    let addresses : List MatchResult = elim md.ipv4 [
      | none ↦ []
      | some h ↦
          lookup_ip s h.source (codes "ipv4.source")
          ++ lookup_ip s h.destination (codes "ipv4.destination")
    ] in
    drop_allowed (addresses ++ lookup_names s (domain_names md))

-- `if (bad) { if (diagnostics) diagnostics->error(...); ok = false; }`
abbrev pub report : Bool → String → String → ℕ → Bool × Sink → Bool × Sink
report bad code message offset (fine, d) =
    if bad then (false, error_to d code message offset) else (fine, d)

-- The tests of `validate_integrity`.
abbrev pub has_id : List IndexedIndicator → ℕ → ℕ → Bool
has_id records id slot = elim (get_elem? records slot) [ none ↦ false | some rec ↦ rec.id == id ]

abbrev pub is_live : List IndexedIndicator → ℕ → Bool
is_live records slot = elim (get_elem? records slot) [ none ↦ false | some rec ↦ rec.active ]

abbrev pub child_fits : List TrieNode → Option ℕ → Bool
child_fits t none = true
child_fits t (some j) = not (leb (length t) j)

unfoldable pub check_ids : List IndexedIndicator → List (ℕ × ℕ) → Bool × Sink → Bool × Sink
check_ids records [] acc = acc
check_ids records ((id, slot) ∷ rest) acc = check_ids records rest (
    report (not (has_id records id slot)) "ioc.index.id" "id map points at an invalid record" slot
      acc)

unfoldable pub check_keys : List IndexedIndicator → List (Text × ℕ) → Bool × Sink → Bool × Sink
check_keys records [] acc = acc
check_keys records ((key, slot) ∷ rest) acc = check_keys records rest (
    report (not (is_live records slot)) "ioc.index.key"
      "key map points at an inactive or invalid record" slot acc)

unfoldable pub check_slots : List IndexedIndicator → ℕ → List ℕ → Bool × Sink → Bool × Sink
check_slots records i [] acc = acc
check_slots records i (slot ∷ rest) acc = check_slots records i rest (
    report (not (is_live records slot)) "ioc.index.trie-record"
      "CIDR trie record points at an inactive or invalid record" i acc)

abbrev pub check_child : List TrieNode → ℕ → Option ℕ → Bool × Sink → Bool × Sink
check_child t i c acc =
    report (not (child_fits t c)) "ioc.index.trie" "CIDR trie child points outside node array" i acc

-- The loop over the nodes, from the one at `i` on.
unfoldable pub check_nodes : IndicatorIndex → ℕ → List TrieNode → Bool × Sink → Bool × Sink
check_nodes s i [] acc = acc
check_nodes s i (n ∷ rest) acc = check_nodes s (suc i) rest (
    check_slots s.records i n.slots
      (check_child s.cidr_trie i n.one_child (check_child s.cidr_trie i n.zero_child acc)))

unfoldable pub validate_integrity : IndicatorIndex → Sink → Bool × Sink
validate_integrity s d = check_nodes s 0 s.cidr_trie (
    check_keys s.records (in_order text_before s.key_to_slot)
      (check_ids s.records (in_order ltb s.id_to_slot) (true, d)))

-- The loop of `stats`.
unfoldable pub count_records : List IndexedIndicator → IocIndexStats → IocIndexStats
count_records [] t = t
count_records (rec ∷ rest) t = count_records rest (
    if rec.active
    then record t { active_records = t.active_records + 1 }
    else record t { inactive_records = t.inactive_records + 1 })

unfoldable pub stats : IndicatorIndex → IocIndexStats
stats s = count_records s.records (record {
  total_records = length s.records;
  active_records = 0;
  inactive_records = 0;
  cidr_nodes = length s.cidr_trie;
  domain_keys = length s.domains;
  hash_keys = length s.hashes;
  generation = s.generation;
})
