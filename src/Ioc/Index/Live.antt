-- ===== src/Ioc/Index/Live.antt =====
-- What all nodes of the trie have in common, and records that stay where they are, of
-- `IndicatorIndex` of src/ioc/ioc.cpp.
use packet_guard.Base.{
  ℕ, zero, suc, ◌≡◌, refl, sym, ap, ◌∙◌, Bool, true, false, List, [], ◌∷◌, ◌++◌, Option, some, none,
  ==_iff, length, get_elem?, set, All, All-append, All-set, All-get_or, Option-cases, inl, inr,
  subst,
}
use mathlib.Core.Option.{some-injective}
use packet_guard.Core.Ip.{CidrRange}
use packet_guard.Ioc.Index.{indicator_range, insert_range_key, index_cidr}
use packet_guard.Ioc.Lookup.{is_live, has_id}
use packet_guard.Ioc.Trie.{
  TrieNode, empty_node, child, with_child, node_at, grow, insert_path, push_slot, with_root,
  trie_insert, range_path,
}
use packet_guard.Ioc.Trie.Insert.{insert_path-found, insert_path-missing, insert_path-nil}
use packet_guard.Ioc.Types.{Indicator, IndexedIndicator}

-- All slots of all nodes.
abbrev pub Everywhere : (ℕ → Type 0) → List TrieNode → Type 0
Everywhere P t = All (λ n. All P n.slots) t

module _ (P : ℕ → Type 0) where
  slots_of : (t : List TrieNode) (n : ℕ) → Everywhere P t → All P (node_at t n).slots
  slots_of t n a = All-get_or (λ x. All P x.slots) t n empty_node tt a

  with_child-All :
      (b : Bool) (j : ℕ) (n : TrieNode) → All P n.slots → All P (with_child b j n).slots
  with_child-All true j n a = a
  with_child-All false j n a = a

  grow-Everywhere :
      (t : List TrieNode) (n : ℕ) (b : Bool) → Everywhere P t → Everywhere P (grow t n b)
  unfolding grow
  grow-Everywhere t n b a =
      let v = with_child b (length t) (node_at t n) in
      All-append (λ x. All P x.slots) (set t n v) (empty_node ∷ [])
        (All-set (λ x. All P x.slots) t n v
          (with_child-All b (length t) (node_at t n) (slots_of t n a)) a)
        (tt, tt)

  insert_path-Everywhere :
      (p : List Bool) (t : List TrieNode) (n : ℕ)
      → Everywhere P t
      → Everywhere P (insert_path t n p).0
  insert_path-Everywhere [] t n a = subst (λ r. Everywhere P r.0) (sym (insert_path-nil t n)) a
  insert_path-Everywhere (b ∷ p) t n a = elim (Option-cases (child b (node_at t n))) [
    | inr (j, e) ↦
        subst (λ r. Everywhere P r.0) (sym (insert_path-found t n j b p e))
          (insert_path-Everywhere p t j a)
    | inl e ↦
        subst (λ r. Everywhere P r.0) (sym (insert_path-missing t n b p e))
          (insert_path-Everywhere p (grow t n b) (length t) (grow-Everywhere t n b a))
  ]

  push_slot-Everywhere :
      (t : List TrieNode) (n slot : ℕ) → P slot → Everywhere P t → Everywhere P (push_slot t n slot)
  unfolding push_slot
  push_slot-Everywhere t n slot h a =
      All-set (λ x. All P x.slots) t n _
        (All-append P (node_at t n).slots (slot ∷ []) (slots_of t n a) (h, tt)) a

  with_root-Everywhere : (t : List TrieNode) → Everywhere P t → Everywhere P (with_root t)
  with_root-Everywhere [] a = (tt, tt)
  with_root-Everywhere (n ∷ t) a = a

  insert_range_key-Everywhere :
      (o : Option CidrRange) (slot : ℕ) (t : List TrieNode)
      → P slot
      → Everywhere P t
      → Everywhere P (insert_range_key o slot t)
  unfolding trie_insert
  insert_range_key-Everywhere none slot t h a = a
  insert_range_key-Everywhere (some r) slot t h a =
      let (u, k) = insert_path (with_root t) 0 (range_path r) in
      push_slot-Everywhere u k slot h
        (insert_path-Everywhere (range_path r) (with_root t) 0 (with_root-Everywhere t a))

  pub index_cidr-Everywhere :
      (slot : ℕ) (i : Indicator) (t : List TrieNode)
      → P slot
      → Everywhere P t
      → Everywhere P (index_cidr slot i t)
  unfolding index_cidr
  index_cidr-Everywhere slot i t h a = insert_range_key-Everywhere (indicator_range i) slot t h a

-- Records added behind change no test of a slot that holds.
pub is_live-append :
    (recs more : List IndexedIndicator) (slot : ℕ)
    → is_live recs slot ≡ true
    → is_live (recs ++ more) slot ≡ true
is_live-append [] more slot h = cc
is_live-append (r ∷ recs) more zero h = h
is_live-append (r ∷ recs) more (suc slot) h = is_live-append recs more slot h

pub is_live-last :
    (recs : List IndexedIndicator) (rec : IndexedIndicator)
    → rec.active ≡ true
    → is_live (recs ++ rec ∷ []) (length recs) ≡ true
is_live-last [] rec h = h
is_live-last (r ∷ recs) rec h = is_live-last recs rec h

pub has_id-append :
    (recs more : List IndexedIndicator) (id slot : ℕ)
    → has_id recs id slot ≡ true
    → has_id (recs ++ more) id slot ≡ true
has_id-append [] more id slot h = cc
has_id-append (r ∷ recs) more id zero h = h
has_id-append (r ∷ recs) more id (suc slot) h = has_id-append recs more id slot h

pub has_id-last :
    (recs : List IndexedIndicator) (rec : IndexedIndicator) (more : List IndexedIndicator)
    → has_id (recs ++ rec ∷ more) rec.id (length recs) ≡ true
has_id-last [] rec more = (==_iff rec.id rec.id).1 refl
has_id-last (r ∷ recs) rec more = has_id-last recs rec more

-- A record changed without its id.
pub has_id-set :
    (recs : List IndexedIndicator) (at : ℕ) (old rec : IndexedIndicator) (id slot : ℕ)
    → get_elem? recs at ≡ some old
    → rec.id ≡ old.id
    → has_id recs id slot ≡ true
    → has_id (set recs at rec) id slot ≡ true
has_id-set [] at old rec id slot g e h = cc
has_id-set (r ∷ recs) zero old rec id zero g e h =
    let same : rec.id ≡ r.id = e ∙ ap (λ x. x.id) (sym (some-injective r old g)) in rw same h
has_id-set (r ∷ recs) zero old rec id (suc slot) g e h = h
has_id-set (r ∷ recs) (suc at) old rec id zero g e h = h
has_id-set (r ∷ recs) (suc at) old rec id (suc slot) g e h =
    has_id-set recs at old rec id slot g e h

pub get_elem?-last :
    (recs : List IndexedIndicator) (rec : IndexedIndicator) (more : List IndexedIndicator)
    → get_elem? (recs ++ rec ∷ more) (length recs) ≡ some rec
get_elem?-last [] rec more = refl
get_elem?-last (r ∷ recs) rec more = get_elem?-last recs rec more
