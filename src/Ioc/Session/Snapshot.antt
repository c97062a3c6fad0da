-- ===== src/Ioc/Session/Snapshot.antt =====
-- A session of src/ioc/ioc.cpp after a snapshot: the text, the set, the index and the search together.
use packet_guard.Base.{
  ℕ, ◌+◌, ◌%◌, ◌^◌, ◌<◌, ◌≡◌, refl, sym, ap, ◌∙◌, Bool, ◌&&◌, List, [], ◌∷◌, ◌++◌, map,
  append_assoc, append-nil, Option, if◌then◌else◌, Text, codes, text_eq, length, is_empty, keep,
  All, All-append, Bool-cases, inl, inr, subst, ◌==◌,
}
use packet_guard.Base.Maps.{assign}
use packet_guard.Core.Ip.{IPv4Address}
use packet_guard.Core.IpText.{ipv4_to_string}
use packet_guard.Ioc.Index.{
  IndicatorIndex, empty_index, new_record, normalized_indicator, normal_form, add, add_all, add_set,
  indicator_range,
}
use packet_guard.Ioc.Index.Changes.{empty_index-IsIndexed, add-IsIndexed}
use packet_guard.Ioc.Index.Live.{get_elem?-last}
use packet_guard.Ioc.Index.Ranges.{up_to, up_to_cong, covers_at, HasFit, lookup_ip-up_to}
use packet_guard.Ioc.Index.Rebuild.{IsIndexed, index_record-active}
use packet_guard.Ioc.Index.Searches.{indicators_where}
use packet_guard.Ioc.Index.Slots.{HasRange, RangeFits}
use packet_guard.Ioc.Matching.{match_of}
use packet_guard.Ioc.Parse.{parse_indicator_text}
use packet_guard.Ioc.Parse.Sets.{parse_indicator_text-keys}
use packet_guard.Ioc.Session.{IndicatorRefreshSession, ingest_snapshot, match_cached_cidr}
use packet_guard.Ioc.Types.{Indicator, IndexedIndicator, indicator_key}

-- The new record stands behind the others.
add-records :
    (s : IndicatorIndex) (i : Indicator) → (add s i).1.records ≡ s.records ++ new_record s i ∷ []
unfolding add new_record
add-records s i =
    let rec = new_record s i in
    let slot = length s.records in
    let s1 : IndicatorIndex = record s {
      next_id = (s.next_id + 1) % 2 ^ 64;
      generation = (s.generation + 1) % 2 ^ 32;
      records = s.records ++ rec ∷ [];
      id_to_slot = assign ◌==◌ rec.id slot s.id_to_slot;
      key_to_slot = assign text_eq (indicator_key rec.indicator) slot s.key_to_slot;
    } in
    ap (λ x. x.records) (index_record-active s1 slot rec (get_elem?-last s.records rec []) refl)

indicators_where-append :
    (p : Indicator → Bool) (recs more : List IndexedIndicator)
    → indicators_where p (recs ++ more) ≡ indicators_where p recs ++ indicators_where p more
indicators_where-append p [] more = refl
indicators_where-append p (rec ∷ rest) more = elim (Bool-cases (rec.active && p rec.indicator)) [
  | inl e ↦ rw (e, indicators_where-append p rest more) refl
  | inr e ↦ rw (e, indicators_where-append p rest more) refl
]

new_indicator :
    (p : Indicator → Bool) (s : IndicatorIndex) (i : Indicator)
    → indicators_where p (new_record s i ∷ []) ≡ keep p (normalized_indicator i ∷ [])
unfolding new_record
new_indicator p s i = refl

keep-append :
    {A : Type 0} (p : A → Bool) (x : A) (xs : List A)
    → keep p (x ∷ []) ++ keep p xs ≡ keep p (x ∷ xs)
keep-append p x xs = elim (Bool-cases (p x)) [ inl e ↦ rw e refl | inr e ↦ rw e refl ]

add_all-indicators :
    (is : List Indicator) (s : IndicatorIndex) (p : Indicator → Bool)
    → indicators_where p (add_all s is).records
      ≡ indicators_where p s.records ++ keep p (map normalized_indicator is)
unfolding add_all
add_all-indicators [] s p = sym (append-nil (indicators_where p s.records))
add_all-indicators (i ∷ is) s p =
    let n = normalized_indicator i in
    let others = keep p (map normalized_indicator is) in
    add_all-indicators is (add s i).1 p
    ∙ ap (λ l. indicators_where p l ++ others) (add-records s i)
    ∙ ap (λ l. l ++ others) (indicators_where-append p s.records (new_record s i ∷ []))
    ∙ append_assoc (indicators_where p s.records) (indicators_where p (new_record s i ∷ [])) others
    ∙ ap (λ l. indicators_where p s.records ++ l)
        (ap (λ l. l ++ others) (new_indicator p s i)
          ∙ keep-append p n (map normalized_indicator is))

-- The normal form is no part of the range.
normalized-range : (i : Indicator) → indicator_range (normalized_indicator i) ≡ indicator_range i
unfolding normalized_indicator
normalized-range i = elim (Bool-cases (is_empty i.normalized)) [
  | inl e ↦ ap (λ b. indicator_range (if b then filled else i)) e
  | inr e ↦ ap (λ b. indicator_range (if b then filled else i)) e
]
  where
    filled : Indicator
    filled = record i { normalized = normal_form i.type i.raw }

pub add_all-HasFit :
    (is : List Indicator) (s : IndicatorIndex)
    → All HasRange is
    → All HasFit s.records
    → All HasFit (add_all s is).records
unfolding add_all new_record
add_all-HasFit [] s r h = h
add_all-HasFit (i ∷ is) s r h =
    let here : HasFit (new_record s i) = subst RangeFits (sym (normalized-range i)) r.0 in
    add_all-HasFit is (add s i).1 r.1 (
      subst (All HasFit) (sym (add-records s i))
        (All-append HasFit s.records (new_record s i ∷ []) h (here, tt)))

pub add_all-IsIndexed :
    (is : List Indicator) (s : IndicatorIndex) → IsIndexed s → IsIndexed (add_all s is)
unfolding add_all
add_all-IsIndexed [] s h = h
add_all-IsIndexed (i ∷ is) s h = add_all-IsIndexed is (add s i).1 (add-IsIndexed s i h)

-- After a snapshot of any text, the search for an address of 32 bits finds the indicators of the
-- current set whose range contains it, as `add` normalises them, those of shorter prefixes first and
-- in the order of the set within a prefix, and no others, whatever the session held before.
pub match_cached_cidr-keep :
    (read_confidence : Text → Option ℕ) (session : IndicatorRefreshSession) (text source : Text)
    (a : IPv4Address) (field : Text)
    → a.value < 2 ^ 32
    → let next = (ingest_snapshot read_confidence session text source).1 in
      match_cached_cidr next a field
      ≡ map
          (λ i. match_of i field (ipv4_to_string a) (codes "stateful IOC index CIDR match"))
          (up_to
            (λ k. keep (covers_at k a) (map normalized_indicator next.current_set.indicators))
            32)
unfolding match_cached_cidr ingest_snapshot add_set
match_cached_cidr-keep read_confidence session text source a field l =
    let is = (parse_indicator_text read_confidence text source).indicators in
    let (d, r) = parse_indicator_text-keys read_confidence text source in
    let index = add_all empty_index is in
    lookup_ip-up_to index a field (add_all-IsIndexed is empty_index empty_index-IsIndexed)
      (add_all-HasFit is empty_index r tt) l
    ∙ ap
        (λ is.
          map (λ i. match_of i field (ipv4_to_string a) (codes "stateful IOC index CIDR match")) is)
        (up_to_cong 32 (λ k. indicators_where (covers_at k a) index.records)
          (λ k. keep (covers_at k a) (map normalized_indicator is))
          (λ k b. add_all-indicators is empty_index (covers_at k a)))
