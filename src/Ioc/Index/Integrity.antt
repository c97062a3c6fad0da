-- ===== src/Ioc/Index/Integrity.antt =====
-- `validate_integrity` and `contains_key` of `IndicatorIndex` of src/ioc/ioc.cpp.
use packet_guard.Base.{
  ℕ, suc, ◌+◌, ◌<◌, ◌≡◌, refl, ap, ◌∙◌, arith, Bool, true, false, ◌&&◌, List, [], ◌∷◌, Option, some,
  none, if◌then◌else◌, Text, length, get_or, any_of, leb, leb→le, All, Bool-cases, inl, inr, ltb,
}
use packet_guard.Base.Maps.{in_order, All-in_order}
use packet_guard.Core.Diagnostics.{Sink}
use packet_guard.Ioc.Index.{IndicatorIndex, contains_key, empty_index}
use packet_guard.Ioc.Index.Live.{Everywhere}
use packet_guard.Ioc.Index.Reach.{Request, perform_all, reachable-IsIndexed}
use packet_guard.Ioc.Index.Rebuild.{IsIndexed}
use packet_guard.Ioc.Index.Slots.{last_where, has_key}
use packet_guard.Ioc.Lookup.{
  is_live, has_id, child_fits, check_ids, check_keys, check_slots, check_nodes, validate_integrity,
}
use packet_guard.Ioc.Trie.{TrieNode, node_at, with_root, empty_node}
use packet_guard.Ioc.Trie.Walks.{IsTrie}
use packet_guard.Ioc.Types.{Indicator, IndexedIndicator}
use packet_guard.Packet.Domains.{text_before}

check_ids-fine :
    (recs : List IndexedIndicator) (ids : List (ℕ × ℕ)) (acc : Bool × Sink)
    → All (λ e. has_id recs e.0 e.1 ≡ true) ids
    → check_ids recs ids acc ≡ acc
unfolding check_ids
check_ids-fine recs [] acc a = refl
check_ids-fine recs ((id, slot) ∷ rest) acc a = rw a.0 (check_ids-fine recs rest acc a.1)

check_keys-fine :
    (recs : List IndexedIndicator) (keys : List (Text × ℕ)) (acc : Bool × Sink)
    → All (λ e. is_live recs e.1 ≡ true) keys
    → check_keys recs keys acc ≡ acc
unfolding check_keys
check_keys-fine recs [] acc a = refl
check_keys-fine recs ((key, slot) ∷ rest) acc a = rw a.0 (check_keys-fine recs rest acc a.1)

check_slots-fine :
    (recs : List IndexedIndicator) (i : ℕ) (slots : List ℕ) (acc : Bool × Sink)
    → All (λ slot. is_live recs slot ≡ true) slots
    → check_slots recs i slots acc ≡ acc
unfolding check_slots
check_slots-fine recs i [] acc a = refl
check_slots-fine recs i (slot ∷ rest) acc a = rw a.0 (check_slots-fine recs i rest acc a.1)

abbrev Fits : List TrieNode → TrieNode → Type 0
Fits t n = (child_fits t n.zero_child ≡ true) × (child_fits t n.one_child ≡ true)

check_nodes-fine :
    (s : IndicatorIndex) (nodes : List TrieNode) (i : ℕ) (acc : Bool × Sink)
    → All (Fits s.cidr_trie) nodes
    → Everywhere (λ slot. is_live s.records slot ≡ true) nodes
    → check_nodes s i nodes acc ≡ acc
unfolding check_nodes
check_nodes-fine s [] i acc f a = refl
check_nodes-fine s (n ∷ rest) i acc f a =
    rw (f.0.0, f.0.1, check_slots-fine s.records i n.slots acc a.0)
      (check_nodes-fine s rest (suc i) acc f.1 a.1)

child-fits :
    (t : List TrieNode) (o : Option ℕ)
    → ((j : ℕ) → o ≡ some j → j < length t)
    → child_fits t o ≡ true
child-fits t none h = refl
child-fits t (some j) h = elim (Bool-cases (leb (length t) j)) [
  | inl e ↦ absurd (omega (arith, h j refl, leb→le (length t) j e))
  | inr e ↦ rw e refl
]

-- What holds of each place holds of all.
All-places :
    (P : TrieNode → Type 0) (nodes : List TrieNode)
    → ((i : ℕ) → P (get_or nodes i empty_node))
    → All P nodes
All-places P [] h = tt
All-places P (n ∷ rest) h = (h 0, All-places P rest (λ i. h (suc i)))

IsTrie-Fits : (t : List TrieNode) → IsTrie t → All (Fits t) t
IsTrie-Fits t w = All-places (Fits t) t (λ i. (
  child-fits t (node_at t i).zero_child (λ j e. (w.children i j false e).0),
  child-fits t (node_at t i).one_child (λ j e. (w.children i j true e).0),
))

root-Fits : (t : List TrieNode) → IsTrie (with_root t) → All (Fits t) t
root-Fits [] w = tt
root-Fits (n ∷ t) w = IsTrie-Fits (n ∷ t) w

integrity : (s : IndicatorIndex) (d : Sink) → IsIndexed s → validate_integrity s d ≡ (true, d)
unfolding validate_integrity
integrity s d h =
    rw
      (check_ids-fine s.records (in_order ltb s.id_to_slot) (true, d)
        (All-in_order ltb (λ e. has_id s.records e.0 e.1 ≡ true) s.id_to_slot h.ids.entries))
      (rw
        (check_keys-fine s.records (in_order text_before s.key_to_slot) (true, d)
          (All-in_order text_before (λ e. is_live s.records e.1 ≡ true) s.key_to_slot
            h.built.live_keys))
        (check_nodes-fine s s.cidr_trie 0 (true, d) (root-Fits s.cidr_trie h.built.trie)
          h.built.live_nodes))

-- The check of the integrity passes, and reports no error, on every index that additions, removals,
-- reactivations, changes of role, rebuilds and compactions lead to from the empty one.
pub validate_integrity-perform_all :
    (rs : List Request) (d : Sink) → validate_integrity (perform_all empty_index rs) d ≡ (true, d)
validate_integrity-perform_all rs d =
    integrity (perform_all empty_index rs) d (reachable-IsIndexed rs)

-- Whether a record is active and passes a test.
abbrev pub passes : (Indicator → Bool) → IndexedIndicator → Bool
passes p rec = rec.active && p rec.indicator

abbrev live_slot : List IndexedIndicator → Option ℕ → Bool
live_slot recs none = false
live_slot recs (some slot) = is_live recs slot

last_where-none :
    (p : Indicator → Bool) (recs : List IndexedIndicator) (i : ℕ) (best : Option ℕ)
    → any_of (passes p) recs ≡ false
    → last_where p i recs best ≡ best
last_where-none p [] i best h = refl
last_where-none p (rec ∷ rest) i best h = elim (Bool-cases (passes p rec)) [
  | inl e ↦ let f : true ≡ false = rw e at h in cc
  | inr e ↦
      let f : any_of (passes p) rest ≡ false = rw e at h in
      rw e (last_where-none p rest (suc i) best f)
]

last_where-live :
    (p : Indicator → Bool) (recs : List IndexedIndicator) (i : ℕ) (best : Option ℕ)
    → any_of (passes p) recs ≡ true
    → (j : ℕ) × (last_where p i recs best ≡ some (i + j)) × (is_live recs j ≡ true)
last_where-live p [] i best h = cc
last_where-live p (rec ∷ rest) i best h = elim (Bool-cases (any_of (passes p) rest)) [
  | inl e ↦
      let (j, f, g) = last_where-live p rest (suc i) (if passes p rec then some i else best) e in
      let k : suc i + j ≡ i + suc j = omega arith in (suc j, f ∙ ap some k, g)
  | inr e ↦
      let f : passes p rec ≡ true = ground (arith, e, h) in
      let z : i ≡ i + 0 = omega arith in
      (
        0,
        last_where-none p rest (suc i) (if passes p rec then some i else best) e
            ∙ ap (λ b. if b then some i else best) f
            ∙ ap some z,
        ground (arith, f),
      )
]

-- An index whose maps agree with its records contains a key exactly when one of its active records has
-- the key.
pub contains_key-any_of :
    (s : IndicatorIndex) (key : Text)
    → IsIndexed s
    → contains_key s key ≡ any_of (passes (has_key key)) s.records
unfolding contains_key
contains_key-any_of s key h = elim (Bool-cases (any_of (passes (has_key key)) s.records)) [
  | inr e ↦
      let f = h.built.last_keys key ∙ last_where-none (has_key key) s.records 0 none e in
      rw e (rw (f, contains_key) refl)
  | inl e ↦
      let (j, g, l) = last_where-live (has_key key) s.records 0 none e in
      let z : 0 + j ≡ j = omega arith in
      let f = h.built.last_keys key ∙ g ∙ ap some z in rw e (rw (f, contains_key) l)
]
