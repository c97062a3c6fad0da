-- ===== src/Ioc/Trie.antt =====
-- The trie of address ranges in `IndicatorIndex` of src/ioc/ioc.cpp: nodes in an array, which refer to
-- one another by index; a child of -1 is `none`. A bit of an address is a Boolean.
pub mod Walks
pub mod Insert
pub mod Push
pub mod Bits
use packet_guard.Base.{
  ℕ, zero, suc, ◌+◌, ◌-◌, ◌/◌, ◌^◌, bit_and, Bool, true, false, not, List, [], ◌∷◌, ◌++◌, Option,
  some, none, ◌==◌, if◌then◌else◌, is_empty, length, get_or, set,
}
use packet_guard.Core.Ip.{CidrRange}

pub record TrieNode : Type 0 where
  pub zero_child : Option ℕ
  pub one_child : Option ℕ
  pub slots : List ℕ

abbrev pub empty_node : TrieNode
empty_node = record { zero_child = none; one_child = none; slots = [] }

abbrev pub child : Bool → TrieNode → Option ℕ
child true n = n.one_child
child false n = n.zero_child

abbrev pub with_child : Bool → ℕ → TrieNode → TrieNode
with_child true j n = record n { one_child = some j }
with_child false j n = record n { zero_child = some j }

-- `cidr_trie_[i]`. Every index that stands in a trie lies in the array.
abbrev pub node_at : List TrieNode → ℕ → TrieNode
node_at t i = get_or t i empty_node

-- `(value >> (31u - bit)) & 1u`, for the bits below 32. A bit over 31, which only a prefix over 32
-- leads to, is a shift out of range in C++; every range that `parse_cidr` returns has a prefix of at
-- most 32, and the theorems on ranges ask for it.
abbrev pub bit_of : ℕ → ℕ → Bool
bit_of value bit = not (bit_and (value / 2 ^ (31 - bit)) 1 == 0)

-- `left` bits from the one at `bit` on.
abbrev pub path_bits : ℕ → ℕ → ℕ → List Bool
path_bits value bit zero = []
path_bits value bit (suc left) = bit_of value bit ∷ path_bits value (suc bit) left

abbrev pub range_path : CidrRange → List Bool
range_path r = path_bits r.network.value 0 r.prefix

-- The new node that a missing child gets.
unfoldable pub grow : List TrieNode → ℕ → Bool → List TrieNode
grow t n b = set t n (with_child b (length t) (node_at t n)) ++ empty_node ∷ []

-- The loop over the bits; it returns the node that it ends at.
unfoldable pub insert_path : List TrieNode → ℕ → List Bool → List TrieNode × ℕ
insert_path t n [] = (t, n)
insert_path t n (b ∷ bs) = elim (child b (node_at t n)) [
  | some j ↦ insert_path t j bs
  | none ↦ insert_path (grow t n b) (length t) bs
]

-- `cidr_trie_[node].records.push_back(slot)`
unfoldable pub push_slot : List TrieNode → ℕ → ℕ → List TrieNode
push_slot t n slot = set t n (record (node_at t n) { slots = (node_at t n).slots ++ slot ∷ [] })

-- `if (cidr_trie_.empty()) cidr_trie_.push_back({});`
abbrev pub with_root : List TrieNode → List TrieNode
with_root t = if is_empty t then empty_node ∷ [] else t

unfoldable pub trie_insert : List TrieNode → List Bool → ℕ → List TrieNode
trie_insert t path slot = let (t', n) = insert_path (with_root t) 0 path in push_slot t' n slot

-- The slots at the nodes along a path, from the node `n` on.
unfoldable pub walk_slots : List TrieNode → ℕ → List Bool → List ℕ
walk_slots t n [] = (node_at t n).slots
walk_slots t n (b ∷ bs) =
    (node_at t n).slots ++ elim (child b (node_at t n)) [ none ↦ [] | some j ↦ walk_slots t j bs ]
