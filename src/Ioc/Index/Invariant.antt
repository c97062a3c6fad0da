-- ===== src/Ioc/Index/Invariant.antt =====
-- The invariant of `IndicatorIndex` of src/ioc/ioc.cpp: its maps and its trie hold the slots of the
-- active records, and no others.
use packet_guard.Base.{
  ℕ, ◌+◌, ◌≡◌, refl, sym, ap, ◌∙◌, arith, Bool, true, false, List, [], ◌∷◌, ◌++◌, some, none,
  if◌then◌else◌, Text, text_eq, text_eq_iff, length, All, All-imp,
}
use packet_guard.Base.Maps.{find_at, assign, indices_at, find_at-assign, All-assign}
use packet_guard.Ioc.Index.{index_domain, index_hash, index_cidr}
use packet_guard.Ioc.Index.Live.{Everywhere, index_cidr-Everywhere, is_live-append, is_live-last}
use packet_guard.Ioc.Index.Slots.{
  slots_where, last_where, slots_where-append, last_where-append, has_domain, has_hash, has_key,
  has_path, indices_at-index_domain, indices_at-index_hash, index_cidr-Pushed,
}
use packet_guard.Ioc.Lookup.{is_live}
use packet_guard.Ioc.Trie.{TrieNode, with_root, empty_node}
use packet_guard.Ioc.Trie.Walks.{IsTrie, slots_at}
use packet_guard.Ioc.Trie.Push.{empty_node-IsTrie, slots_at-empty_node}
use packet_guard.Ioc.Types.{Indicator, IndexedIndicator, indicator_key}

-- The indexes of some records.
pub record IsIndexOf (recs : List IndexedIndicator) (keys : List (Text × ℕ))
    (domains hashes : List (Text × List ℕ)) (t : List TrieNode) : Type 0 where
  pub last_keys : (key : Text) → find_at text_eq key keys ≡ last_where (has_key key) 0 recs none
  pub live_keys : All (λ e. is_live recs e.1 ≡ true) keys
  pub domain_slots :
      (key : Text) → indices_at text_eq key domains ≡ slots_where (has_domain key) 0 recs
  pub hash_slots : (key : Text) → indices_at text_eq key hashes ≡ slots_where (has_hash key) 0 recs
  pub trie : IsTrie (with_root t)
  pub path_slots : (q : List Bool) → slots_at (with_root t) 0 q ≡ slots_where (has_path q) 0 recs
  pub live_nodes : Everywhere (λ slot. is_live recs slot ≡ true) t

abbrev Live : List IndexedIndicator → ℕ → Type 0
Live recs slot = is_live recs slot ≡ true

-- One more record in the slots that pass a test.
one_more :
    (p : Indicator → Bool) (recs : List IndexedIndicator) (rec : IndexedIndicator)
    → rec.active ≡ true
    → slots_where p 0 (recs ++ rec ∷ [])
      ≡ (if p rec.indicator then slots_where p 0 recs ++ length recs ∷ [] else slots_where p 0 recs)
one_more p recs rec h =
    let e : 0 + length recs ≡ length recs = omega arith in
    slots_where-append p recs rec 0 ∙ rw (h, e) refl

-- An inactive one leaves them.
none_more :
    (p : Indicator → Bool) (recs : List IndexedIndicator) (rec : IndexedIndicator)
    → rec.active ≡ false
    → slots_where p 0 (recs ++ rec ∷ []) ≡ slots_where p 0 recs
none_more p recs rec h = slots_where-append p recs rec 0 ∙ rw h refl

Live-more :
    (recs : List IndexedIndicator) (rec : IndexedIndicator) (slot : ℕ)
    → Live recs slot
    → Live (recs ++ rec ∷ []) slot
Live-more recs rec slot h = is_live-append recs (rec ∷ []) slot h

nodes_more :
    (recs : List IndexedIndicator) (rec : IndexedIndicator) (t : List TrieNode)
    → Everywhere (Live recs) t
    → Everywhere (Live (recs ++ rec ∷ [])) t
nodes_more recs rec t a =
    All-imp (λ n. All (Live recs) n.slots) (λ n. All (Live (recs ++ rec ∷ [])) n.slots) t
      (λ n. All-imp (Live recs) (Live (recs ++ rec ∷ [])) n.slots (Live-more recs rec)) a

keys_more :
    (recs : List IndexedIndicator) (rec : IndexedIndicator) (keys : List (Text × ℕ))
    → All (λ e. Live recs e.1) keys
    → All (λ e. Live (recs ++ rec ∷ []) e.1) keys
keys_more recs rec keys =
    All-imp (λ e. Live recs e.1) (λ e. Live (recs ++ rec ∷ []) e.1) keys
      (λ e. Live-more recs rec e.1)

module _ (recs : List IndexedIndicator) (rec : IndexedIndicator) (keys : List (Text × ℕ))
    (domains hashes : List (Text × List ℕ)) (t : List TrieNode)
    (h : IsIndexOf recs keys domains hashes t) where
  pub inactive-IsIndexOf : rec.active ≡ false → IsIndexOf (recs ++ rec ∷ []) keys domains hashes t
  inactive-IsIndexOf a = record {
    last_keys =
        λ key. h.last_keys key ∙ sym (last_where-append (has_key key) recs rec 0 none ∙ rw a refl);
    live_keys = keys_more recs rec keys h.live_keys;
    domain_slots = λ key. h.domain_slots key ∙ sym (none_more (has_domain key) recs rec a);
    hash_slots = λ key. h.hash_slots key ∙ sym (none_more (has_hash key) recs rec a);
    trie = h.trie;
    path_slots = λ q. h.path_slots q ∙ sym (none_more (has_path q) recs rec a);
    live_nodes = nodes_more recs rec t h.live_nodes;
  }

  pub active-IsIndexOf :
      rec.active ≡ true
      → IsIndexOf
          (recs ++ rec ∷ [])
          (assign text_eq (indicator_key rec.indicator) (length recs) keys)
          (index_domain (length recs) rec.indicator domains)
          (index_hash (length recs) rec.indicator hashes)
          (index_cidr (length recs) rec.indicator t)
  active-IsIndexOf a =
      let slot = length recs in
      let e : 0 + length recs ≡ length recs = omega arith in
      let grown = index_cidr-Pushed slot rec.indicator t h.trie in
      let live = is_live-last recs rec a in
      record {
        last_keys = λ key.
            find_at-assign text_eq text_eq_iff key (indicator_key rec.indicator) slot keys
            ∙ ap (λ o. if has_key key rec.indicator then some slot else o) (h.last_keys key)
            ∙ sym (last_where-append (has_key key) recs rec 0 none ∙ rw (a, e) refl);
        live_keys =
            All-assign text_eq text_eq_iff (λ k. Live (recs ++ rec ∷ []) k.1)
              (indicator_key rec.indicator) slot keys (λ k s. live)
              (keys_more recs rec keys h.live_keys);
        domain_slots = λ key.
            indices_at-index_domain slot rec.indicator key domains
            ∙ ap (λ l. if has_domain key rec.indicator then l ++ slot ∷ [] else l)
                (h.domain_slots key)
            ∙ sym (one_more (has_domain key) recs rec a);
        hash_slots = λ key.
            indices_at-index_hash slot rec.indicator key hashes
            ∙ ap (λ l. if has_hash key rec.indicator then l ++ slot ∷ [] else l) (h.hash_slots key)
            ∙ sym (one_more (has_hash key) recs rec a);
        trie = grown.0;
        path_slots = λ q.
            grown.1 q
            ∙ ap (λ l. if has_path q rec.indicator then l ++ slot ∷ [] else l) (h.path_slots q)
            ∙ sym (one_more (has_path q) recs rec a);
        live_nodes =
            index_cidr-Everywhere (Live (recs ++ rec ∷ [])) slot rec.indicator t live
              (nodes_more recs rec t h.live_nodes);
      }

pub empty-IsIndexOf : IsIndexOf [] [] [] [] (empty_node ∷ [])
empty-IsIndexOf = record {
  last_keys = λ key. refl;
  live_keys = tt;
  domain_slots = λ key. refl;
  hash_slots = λ key. refl;
  trie = empty_node-IsTrie;
  path_slots = slots_at-empty_node;
  live_nodes = (tt, tt);
}
