-- ===== src/Ioc/Index/Slots.antt =====
-- The slots of the active records that pass a test, and what one more record adds to each map of
-- `IndicatorIndex` of src/ioc/ioc.cpp.
use packet_guard.Base.{
  ℕ, zero, suc, sym, ap, ◌∙◌, ◌==◌, get_elem?, set, ◌+◌, ◌<◌, ◌≡◌, refl, arith, Bool, false, ◌&&◌,
  List, [], ◌∷◌, ◌++◌, Option, some, none, if◌then◌else◌, Text, text_eq, text_eq_iff, length,
  Bool-cases, inl, inr,
}
use mathlib.Core.Option.{some-injective}
use packet_guard.Base.Maps.{indices_at, indices_at-push_index}
use packet_guard.Core.Ip.{CidrRange}
use packet_guard.Core.IpText.Bounds.{Fits}
use packet_guard.Ioc.Index.{
  domain_key, hash_key, indicator_range, push_key, insert_range_key, index_domain, index_hash,
  index_cidr,
}
use packet_guard.Ioc.Trie.{TrieNode, with_root, trie_insert, range_path}
use packet_guard.Ioc.Trie.Walks.{IsTrie, slots_at}
use packet_guard.Ioc.Trie.Push.{same_path, trie_insert-slots}
use packet_guard.Ioc.Types.{Indicator, IndexedIndicator, indicator_key}

-- The slots, from `i` on, of the active records that pass a test, and the last of them.
abbrev pub slots_where : (Indicator → Bool) → ℕ → List IndexedIndicator → List ℕ
slots_where p i [] = []
slots_where p i (rec ∷ rest) =
    let others = slots_where p (suc i) rest in
    if rec.active && p rec.indicator then i ∷ others else others

abbrev pub last_where : (Indicator → Bool) → ℕ → List IndexedIndicator → Option ℕ → Option ℕ
last_where p i [] best = best
last_where p i (rec ∷ rest) best =
    last_where p (suc i) rest (if rec.active && p rec.indicator then some i else best)

pub slots_where-append :
    (p : Indicator → Bool) (recs : List IndexedIndicator) (rec : IndexedIndicator) (i : ℕ)
    → slots_where p i (recs ++ rec ∷ []) ≡ (
        if rec.active && p rec.indicator
        then slots_where p i recs ++ (i + length recs) ∷ []
        else slots_where p i recs)
slots_where-append p [] rec i = let e : i + 0 ≡ i = omega arith in rw e refl
slots_where-append p (r ∷ recs) rec i =
    let e : i + suc (length recs) ≡ suc i + length recs = omega arith in
    rw (e, slots_where-append p recs rec (suc i))
      (elim (Bool-cases (rec.active && p rec.indicator)) [
        | inl f ↦ rw f (elim (Bool-cases (r.active && p r.indicator)) [
          | inl g ↦ rw g refl
          | inr g ↦ rw g refl
        ])
        | inr f ↦ rw f refl
      ])

pub last_where-append :
    (p : Indicator → Bool) (recs : List IndexedIndicator) (rec : IndexedIndicator) (i : ℕ)
    (best : Option ℕ)
    → last_where p i (recs ++ rec ∷ []) best
      ≡ (if rec.active && p rec.indicator then some (i + length recs) else last_where p i recs best)
last_where-append p [] rec i best = let e : i + 0 ≡ i = omega arith in rw e refl
last_where-append p (r ∷ recs) rec i best =
    let e : i + suc (length recs) ≡ suc i + length recs = omega arith in
    rw e (last_where-append p recs rec (suc i) (if r.active && p r.indicator then some i else best))

-- The slot, from `i` on, of the last record with an id, active or not.
abbrev pub last_id : ℕ → ℕ → List IndexedIndicator → Option ℕ → Option ℕ
last_id id i [] best = best
last_id id i (rec ∷ rest) best = last_id id (suc i) rest (if rec.id == id then some i else best)

pub last_id-append :
    (recs : List IndexedIndicator) (rec : IndexedIndicator) (id i : ℕ) (best : Option ℕ)
    → last_id id i (recs ++ rec ∷ []) best
      ≡ (if rec.id == id then some (i + length recs) else last_id id i recs best)
last_id-append [] rec id i best = let e : i + 0 ≡ i = omega arith in rw e refl
last_id-append (r ∷ recs) rec id i best =
    let e : i + suc (length recs) ≡ suc i + length recs = omega arith in
    rw e (last_id-append recs rec id (suc i) (if r.id == id then some i else best))

-- A record changed without its id.
pub last_id-set :
    (recs : List IndexedIndicator) (at : ℕ) (old rec : IndexedIndicator) (id i : ℕ)
    (best : Option ℕ)
    → get_elem? recs at ≡ some old
    → rec.id ≡ old.id
    → last_id id i (set recs at rec) best ≡ last_id id i recs best
last_id-set [] at old rec id i best g e = refl
last_id-set (r ∷ recs) zero old rec id i best g e =
    ap (λ n. last_id id (suc i) recs (if n == id then some i else best))
      (e ∙ ap (λ x. x.id) (sym (some-injective r old g)))
last_id-set (r ∷ recs) (suc at) old rec id i best g e =
    last_id-set recs at old rec id (suc i) (if r.id == id then some i else best) g e

-- The tests: the key of a map, or the path of the range.
abbrev pub is_key : Option Text → Text → Bool
is_key none key = false
is_key (some k) key = text_eq k key

abbrev pub has_domain : Text → Indicator → Bool
has_domain key i = is_key (domain_key i.type i.normalized) key

abbrev pub has_hash : Text → Indicator → Bool
has_hash key i = is_key (hash_key i.type i.normalized) key

abbrev pub has_key : Text → Indicator → Bool
has_key key i = text_eq (indicator_key i) key

abbrev pub is_path : Option CidrRange → List Bool → Bool
is_path none q = false
is_path (some r) q = same_path (range_path r) q

abbrev pub has_path : List Bool → Indicator → Bool
has_path q i = is_path (indicator_range i) q

-- The range of an indicator, if it has one, fits 32 bits.
abbrev pub RangeFits : Option CidrRange → Type 0
RangeFits none = Unit
RangeFits (some r) = Fits r

abbrev pub HasRange : Indicator → Type 0
HasRange i = RangeFits (indicator_range i)

indices_at-push_key :
    (o : Option Text) (slot : ℕ) (key : Text) (m : List (Text × List ℕ))
    → indices_at text_eq key (push_key o slot m)
      ≡ (if is_key o key then indices_at text_eq key m ++ slot ∷ [] else indices_at text_eq key m)
indices_at-push_key none slot key m = refl
indices_at-push_key (some k) slot key m = indices_at-push_index text_eq text_eq_iff key k slot m

pub indices_at-index_domain :
    (slot : ℕ) (i : Indicator) (key : Text) (m : List (Text × List ℕ))
    → indices_at text_eq key (index_domain slot i m) ≡ (
        if has_domain key i
        then indices_at text_eq key m ++ slot ∷ []
        else indices_at text_eq key m)
unfolding index_domain
indices_at-index_domain slot i key m =
    indices_at-push_key (domain_key i.type i.normalized) slot key m

pub indices_at-index_hash :
    (slot : ℕ) (i : Indicator) (key : Text) (m : List (Text × List ℕ))
    → indices_at text_eq key (index_hash slot i m)
      ≡ (if has_hash key i then indices_at text_eq key m ++ slot ∷ [] else indices_at text_eq key m)
unfolding index_hash
indices_at-index_hash slot i key m = indices_at-push_key (hash_key i.type i.normalized) slot key m

with_root_same : (t : List TrieNode) → 0 < length t → with_root t ≡ t
with_root_same [] h = absurd (omega arith)
with_root_same (n ∷ t) h = refl

-- A trie with a slot more.
abbrev pub Pushed : (List Bool → Bool) → ℕ → List TrieNode → List TrieNode → Type 0
Pushed p slot t t' =
    IsTrie (with_root t')
    × ((q : List Bool)
        → slots_at (with_root t') 0 q
          ≡ (if p q then slots_at (with_root t) 0 q ++ slot ∷ [] else slots_at (with_root t) 0 q))

insert_range_key-Pushed :
    (o : Option CidrRange) (slot : ℕ) (t : List TrieNode)
    → IsTrie (with_root t)
    → Pushed (is_path o) slot t (insert_range_key o slot t)
insert_range_key-Pushed none slot t w = (w, λ q. refl)
insert_range_key-Pushed (some r) slot t w =
    let (w', f) = trie_insert-slots t (range_path r) slot w in
    rw (with_root_same (trie_insert t (range_path r) slot) w'.rooted) (w', f)

pub index_cidr-Pushed :
    (slot : ℕ) (i : Indicator) (t : List TrieNode)
    → IsTrie (with_root t)
    → Pushed (λ q. has_path q i) slot t (index_cidr slot i t)
unfolding index_cidr
index_cidr-Pushed slot i t w = insert_range_key-Pushed (indicator_range i) slot t w
