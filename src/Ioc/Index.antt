-- ===== src/Ioc/Index.antt =====
-- The class `IndicatorIndex` of src/ioc/ioc.cpp: records in slots, and the maps and the trie that
-- lead to them.
pub mod Slots
pub mod Live
pub mod Invariant
pub mod Rebuild
pub mod Changes
pub mod Reach
pub mod Integrity
pub mod Searches
pub mod Ranges
use packet_guard.Base.{
  ℕ, suc, ◌+◌, ◌%◌, ◌^◌, Bool, true, false, not, List, [], ◌∷◌, ◌++◌, Option, some, none, ◌==◌,
  if◌then◌else◌, Text, text_eq, is_empty, length, get_elem?, set, keep,
}
use packet_guard.Base.Maps.{find_at, assign, push_index}
use packet_guard.Core.Ip.{IPv4Address, CidrRange}
use packet_guard.Ioc.Normalize.{normalize_domain, normalize_url, normalize_hash, url_host}
use packet_guard.Ioc.Trie.{TrieNode, empty_node, trie_insert, range_path}
use packet_guard.Ioc.Types.{
  IocType, ip, cidr, domain, url, hash, ListRole, Indicator, IndicatorSet, IndexedIndicator,
  indicator_key,
}

pub record IndicatorIndex : Type 0 where
  pub next_id : ℕ
  pub generation : ℕ
  pub records : List IndexedIndicator
  pub id_to_slot : List (ℕ × ℕ)
  pub key_to_slot : List (Text × ℕ)
  pub domains : List (Text × List ℕ)
  pub hashes : List (Text × List ℕ)
  pub cidr_trie : List TrieNode

-- `IndicatorIndex{}`
abbrev pub empty_index : IndicatorIndex
empty_index = record {
  next_id = 1;
  generation = 1;
  records = [];
  id_to_slot = [];
  key_to_slot = [];
  domains = [];
  hashes = [];
  cidr_trie = [];
}

-- The key of an indicator in each of the three indexes by content.
abbrev pub domain_key : IocType → Text → Option Text
domain_key domain n = some (normalize_domain n)
domain_key url n = some (normalize_domain (url_host n))
domain_key _ n = none

abbrev pub hash_key : IocType → Text → Option Text
hash_key hash n = some (normalize_hash n)
hash_key _ n = none

-- `auto range = ind.cidr; if (!range && ind.ip) range = CIDRRange{*ind.ip, 32};`
abbrev pub own_range : Option CidrRange → Option IPv4Address → Option CidrRange
own_range (some r) a = some r
own_range none (some a) = some (record { network = a; prefix = 32 })
own_range none none = none

abbrev pub range_key : IocType → Option CidrRange → Option CidrRange
range_key ip r = r
range_key cidr r = r
range_key _ r = none

abbrev pub indicator_range : Indicator → Option CidrRange
indicator_range i = range_key i.type (own_range i.cidr_value i.ip_value)

-- Each map after the indicator at a slot.
abbrev pub push_key : Option Text → ℕ → List (Text × List ℕ) → List (Text × List ℕ)
push_key none slot m = m
push_key (some key) slot m = push_index text_eq key slot m

abbrev pub insert_range_key : Option CidrRange → ℕ → List TrieNode → List TrieNode
insert_range_key none slot t = t
insert_range_key (some r) slot t = trie_insert t (range_path r) slot

unfoldable pub index_domain : ℕ → Indicator → List (Text × List ℕ) → List (Text × List ℕ)
index_domain slot i m = push_key (domain_key i.type i.normalized) slot m

unfoldable pub index_hash : ℕ → Indicator → List (Text × List ℕ) → List (Text × List ℕ)
index_hash slot i m = push_key (hash_key i.type i.normalized) slot m

unfoldable pub index_cidr : ℕ → Indicator → List TrieNode → List TrieNode
index_cidr slot i t = insert_range_key (indicator_range i) slot t

-- The chain of tests on the type changes one of the three.
unfoldable pub index_record : IndicatorIndex → ℕ → IndicatorIndex
index_record s slot = elim (get_elem? s.records slot) [
  | none ↦ s
  | some rec ↦ if not rec.active then s else record s {
    domains = index_domain slot rec.indicator s.domains;
    hashes = index_hash slot rec.indicator s.hashes;
    cidr_trie = index_cidr slot rec.indicator s.cidr_trie;
  }
]

-- The normal form that `add` fills in where there is none.
abbrev pub normal_form : IocType → Text → Text
normal_form domain raw = normalize_domain raw
normal_form url raw = normalize_url raw
normal_form hash raw = normalize_hash raw
normal_form _ raw = []

unfoldable pub normalized_indicator : Indicator → Indicator
normalized_indicator i =
    if is_empty i.normalized then record i { normalized = normal_form i.type i.raw } else i

-- The new record.
unfoldable pub new_record : IndicatorIndex → Indicator → IndexedIndicator
new_record s i = record {
  id = s.next_id;
  generation = s.generation;
  active = true;
  indicator = normalized_indicator i;
}

-- It returns the new id and the index.
unfoldable pub add : IndicatorIndex → Indicator → ℕ × IndicatorIndex
add s i =
    let rec = new_record s i in
    let slot = length s.records in
    (
      rec.id,
      index_record
          (record s {
            next_id = (s.next_id + 1) % 2 ^ 64;
            generation = (s.generation + 1) % 2 ^ 32;
            records = s.records ++ rec ∷ [];
            id_to_slot = assign ◌==◌ rec.id slot s.id_to_slot;
            key_to_slot = assign text_eq (indicator_key rec.indicator) slot s.key_to_slot;
          })
          slot,
    )

unfoldable pub add_all : IndicatorIndex → List Indicator → IndicatorIndex
add_all s [] = s
add_all s (i ∷ rest) = add_all (add s i).1 rest

unfoldable pub add_set : IndicatorIndex → IndicatorSet → ℕ × IndicatorIndex
add_set s set = (length set.indicators, add_all s set.indicators)

-- The loop of `rebuild_indexes`, from the record at slot `i` on.
unfoldable pub reindex : ℕ → List IndexedIndicator → IndicatorIndex → IndicatorIndex
reindex i [] s = s
reindex i (rec ∷ rest) s = reindex (suc i) rest (
    if not rec.active
    then s
    else index_record
        (record s { key_to_slot = assign text_eq (indicator_key rec.indicator) i s.key_to_slot }) i)

unfoldable pub rebuild_indexes : IndicatorIndex → IndicatorIndex
rebuild_indexes s =
    reindex 0 s.records
      (record s { key_to_slot = []; domains = []; hashes = []; cidr_trie = empty_node ∷ [] })

-- A record changed in its slot, with a new generation, and the indexes built anew.
unfoldable pub change_record : IndicatorIndex → ℕ → IndexedIndicator → IndicatorIndex
change_record s slot rec = rebuild_indexes (record s {
  records = set s.records slot (record rec { generation = s.generation });
  generation = (s.generation + 1) % 2 ^ 32;
})

-- The record of an id and its slot; a slot outside the array, which no map holds, has none.
unfoldable pub record_of : IndicatorIndex → ℕ → Option (ℕ × IndexedIndicator)
record_of s id = elim (find_at ◌==◌ id s.id_to_slot) [
  | none ↦ none
  | some slot ↦ elim (get_elem? s.records slot) [ none ↦ none | some rec ↦ some (slot, rec) ]
]

unfoldable pub remove_id : IndicatorIndex → ℕ → Bool × IndicatorIndex
remove_id s id = elim (record_of s id) [
  | none ↦ (false, s)
  | some (slot, rec) ↦
      if not rec.active
      then (false, s)
      else (true, change_record s slot (record rec { active = false }))
]

unfoldable pub reactivate_id : IndicatorIndex → ℕ → Bool × IndicatorIndex
reactivate_id s id = elim (record_of s id) [
  | none ↦ (false, s)
  | some (slot, rec) ↦
      if rec.active then (false, s) else (true, change_record s slot (record rec { active = true }))
]

unfoldable pub update_role : IndicatorIndex → ℕ → ListRole → Bool × IndicatorIndex
update_role s id role = elim (record_of s id) [
  | none ↦ (false, s)
  | some (slot, rec) ↦
      (true, change_record s slot (record rec { indicator = record rec.indicator { role = role } }))
]

unfoldable pub remove_key : IndicatorIndex → Text → Bool × IndicatorIndex
remove_key s key = elim (find_at text_eq key s.key_to_slot) [
  | none ↦ (false, s)
  | some slot ↦ elim (get_elem? s.records slot) [
    | none ↦ (false, s)
    | some rec ↦ remove_id s rec.id
  ]
]

unfoldable pub contains_key : IndicatorIndex → Text → Bool
contains_key s key = elim (find_at text_eq key s.key_to_slot) [
  | none ↦ false
  | some slot ↦ elim (get_elem? s.records slot) [ none ↦ false | some rec ↦ rec.active ]
]

-- The loop over the ids of `rebuild`.
unfoldable pub index_ids : ℕ → List IndexedIndicator → List (ℕ × ℕ) → List (ℕ × ℕ)
index_ids i [] m = m
index_ids i (rec ∷ rest) m = index_ids (suc i) rest (assign ◌==◌ rec.id i m)

abbrev next_generation : IndicatorIndex → IndicatorIndex
next_generation s = record s { generation = (s.generation + 1) % 2 ^ 32 }

unfoldable pub rebuild : IndicatorIndex → IndicatorIndex
rebuild s = next_generation (rebuild_indexes (record s { id_to_slot = index_ids 0 s.records [] }))

unfoldable pub compact : IndicatorIndex → IndicatorIndex
compact s = rebuild (record s { records = keep (λ rec. rec.active) s.records })
