-- ===== src/Ioc/Index/Ranges.antt =====
-- The search for an address of `IndicatorIndex` of src/ioc/ioc.cpp finds the ranges that contain it.
use mathlib.Core.Path.{fun_ext}
use packet_guard.Base.{
  ℕ, zero, suc, ◌^◌, ◌<◌, ◌≤◌, ◌≡◌, refl, sym, ap, ap₂, ◌∙◌, arith, Bool, true, false, ◌&&◌,
  &&-eq-true, List, [], ◌∷◌, ◌++◌, map, Option, some, none, if◌then◌else◌, Text, codes, length,
  take, is_empty, All, All-imp, ◌==◌, ==_iff,
}
use packet_guard.Core.Ip.{IPv4Address, CidrRange, contains}
use packet_guard.Core.Ip.Cidr.{contains_iff}
use packet_guard.Core.IpText.{ipv4_to_string}
use packet_guard.Ioc.Index.{IndicatorIndex, indicator_range}
use packet_guard.Ioc.Index.Rebuild.{IsIndexed}
use packet_guard.Ioc.Index.Slots.{has_path, is_path, RangeFits, HasRange}
use packet_guard.Ioc.Lookup.{live_at, ip_slots, lookup_ip}
use packet_guard.Ioc.Matching.{match_of}
use packet_guard.Ioc.Trie.{TrieNode, with_root, walk_slots, path_bits, range_path}
use packet_guard.Ioc.Trie.Bits.{length-path_bits, path_bits_iff, take-path_bits}
use packet_guard.Ioc.Trie.Push.{
  same_path, same_path_iff, walk_slots-along, slots_at-empty_node, along_nothing,
}
use packet_guard.Ioc.Trie.Walks.{slots_at, along}
use packet_guard.Ioc.Types.{Indicator, IndexedIndicator}
use packet_guard.Ioc.Index.Searches.{indicators_where, live_at-slots_where, live_at-along}

-- The concatenation of what stands at 0 to `n`.
abbrev pub up_to : {A : Type 0} → (ℕ → List A) → ℕ → List A
up_to f zero = f 0
up_to f (suc n) = f 0 ++ up_to (λ k. f (suc k)) n

along-up_to :
    {A : Type 0} (q : List Bool) (f : List Bool → List A)
    → along f q ≡ up_to (λ k. f (take k q)) (length q)
along-up_to [] f = refl
along-up_to (b ∷ q) f = ap (λ l. f [] ++ l) (along-up_to q (λ r. f (b ∷ r)))

pub up_to_cong :
    {A : Type 0} (n : ℕ) (f g : ℕ → List A) → ((k : ℕ) → k ≤ n → f k ≡ g k) → up_to f n ≡ up_to g n
up_to_cong zero f g h = h 0 (omega arith)
up_to_cong (suc n) f g h =
    ap₂ (λ l m. l ++ m) (h 0 (omega arith))
      (up_to_cong n (λ k. f (suc k)) (λ k. g (suc k)) (λ k l. h (suc k) (omega (arith, l))))

-- Whether an indicator's range has a prefix of `k` bits and contains the address.
abbrev range_covers : ℕ → IPv4Address → Option CidrRange → Bool
range_covers k a none = false
range_covers k a (some r) = r.prefix == k && contains r a

abbrev pub covers_at : ℕ → IPv4Address → Indicator → Bool
covers_at k a i = range_covers k a (indicator_range i)

abbrev pub HasFit : IndexedIndicator → Type 0
HasFit rec = HasRange rec.indicator

same_Bool : (b c : Bool) → (b ≡ true → c ≡ true) → (c ≡ true → b ≡ true) → b ≡ c
same_Bool true c h k = sym (h refl)
same_Bool false true h k = k refl
same_Bool false false h k = refl

-- A range stands at a prefix of the address's path exactly when it contains the address.
has_path-covers :
    (o : Option CidrRange) (a : IPv4Address) (k : ℕ)
    → RangeFits o
    → a.value < 2 ^ 32
    → k ≤ 32
    → is_path o (path_bits a.value 0 k) ≡ range_covers k a o
has_path-covers none a k f h l = refl
has_path-covers (some r) a k f h l =
    same_Bool (same_path (range_path r) (path_bits a.value 0 k)) (r.prefix == k && contains r a)
      (λ e.
        let same = (same_path_iff (range_path r) (path_bits a.value 0 k)).0 e in
        let long : r.prefix ≡ k =
          sym (length-path_bits r.network.value r.prefix 0)
          ∙ ap length same
          ∙ length-path_bits a.value k 0 in
        let paths : path_bits r.network.value 0 r.prefix ≡ path_bits a.value 0 r.prefix =
          same ∙ ap (λ n. path_bits a.value 0 n) (sym long) in
        let within =
          (contains_iff r a f.0 f.1 h).1
            (sym ((path_bits_iff r.network.value a.value r.prefix f.0 f.1 h).0 paths)) in
        rw ((==_iff r.prefix k).1 long) within)
      (λ e.
        let both = &&-eq-true (r.prefix == k) (contains r a) e in
        let long = (==_iff r.prefix k).0 both.0 in
        let paths =
          (path_bits_iff r.network.value a.value r.prefix f.0 f.1 h).1
            (sym ((contains_iff r a f.0 f.1 h).0 both.1)) in
        (same_path_iff (range_path r) (path_bits a.value 0 k)).1
          (paths ∙ ap (λ n. path_bits a.value 0 n) long))

indicators_where_cong :
    (p q : Indicator → Bool) (recs : List IndexedIndicator)
    → All (λ rec. p rec.indicator ≡ q rec.indicator) recs
    → indicators_where p recs ≡ indicators_where q recs
indicators_where_cong p q [] h = refl
indicators_where_cong p q (rec ∷ rest) h = rw (indicators_where_cong p q rest h.1) (
    ap
      (λ b.
        if rec.active && b
        then rec.indicator ∷ indicators_where q rest
        else indicators_where q rest)
      h.0)

trie_slots :
    (t : List TrieNode) (q : List Bool)
    → (if is_empty t then [] else walk_slots t 0 q) ≡ along (slots_at (with_root t) 0) q
trie_slots [] q = sym (ap (λ f. along f q) (fun_ext slots_at-empty_node) ∙ along_nothing q)
trie_slots (n ∷ t) q = walk_slots-along (n ∷ t) q 0

-- The indicators along the bits of an address.
along_records :
    (s : IndicatorIndex) (a : IPv4Address)
    → IsIndexed s
    → live_at s.records (ip_slots s a)
      ≡ along (λ q. indicators_where (has_path q) s.records) (path_bits a.value 0 32)
unfolding ip_slots
along_records s a h =
    let bits = path_bits a.value 0 32 in
    let here = λ (q : List Bool).
      ap (live_at s.records) (h.built.path_slots q) ∙ live_at-slots_where (has_path q) s.records in
    ap (live_at s.records) (trie_slots s.cidr_trie bits)
    ∙ live_at-along s.records bits (slots_at (with_root s.cidr_trie) 0)
    ∙ ap (λ f. along f bits) (fun_ext here)

-- In an index whose trie agrees with its records, the search for an address finds the active records
-- whose range contains it, those of shorter prefixes first and by slot within a prefix, and no others,
-- when the ranges have a prefix of at most 32 bits and a network of 32 bits, and the address has 32.
pub lookup_ip-up_to :
    (s : IndicatorIndex) (a : IPv4Address) (field : Text)
    → IsIndexed s
    → All HasFit s.records
    → a.value < 2 ^ 32
    → lookup_ip s a field
      ≡ map
          (λ i. match_of i field (ipv4_to_string a) (codes "stateful IOC index CIDR match"))
          (up_to (λ k. indicators_where (covers_at k a) s.records) 32)
unfolding lookup_ip
lookup_ip-up_to s a field h f l =
    let bits = path_bits a.value 0 32 in
    let at_prefix = λ (k : ℕ) (b : k ≤ 32).
      ap (λ q. indicators_where (has_path q) s.records) (take-path_bits a.value 32 k 0 b)
      ∙ indicators_where_cong (has_path (path_bits a.value 0 k)) (covers_at k a) s.records (
          All-imp HasFit
            (λ rec. has_path (path_bits a.value 0 k) rec.indicator ≡ covers_at k a rec.indicator)
            s.records (λ rec g. has_path-covers (indicator_range rec.indicator) a k g l b) f) in
    ap
      (λ is.
        map (λ i. match_of i field (ipv4_to_string a) (codes "stateful IOC index CIDR match")) is)
      (along_records s a h
        ∙ along-up_to bits (λ q. indicators_where (has_path q) s.records)
        ∙ ap (λ n. up_to (λ k. indicators_where (has_path (take k bits)) s.records) n)
            (length-path_bits a.value 32 0)
        ∙ up_to_cong 32 (λ k. indicators_where (has_path (take k bits)) s.records)
            (λ k. indicators_where (covers_at k a) s.records) at_prefix)
