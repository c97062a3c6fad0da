-- ===== src/Ioc/Index/Changes.antt =====
-- Every operation of `IndicatorIndex` of src/ioc/ioc.cpp keeps the invariant.
use packet_guard.Base.{
  if◌then◌else◌, ℕ, suc, ◌+◌, ◌%◌, ◌^◌, ◌≡◌, refl, sym, ap, ◌∙◌, arith, true, false, List, [], ◌∷◌,
  ◌++◌, append_assoc, append-nil, some, none, Text, text_eq, length, length-append, get_elem?, set,
  keep, All-imp, Bool-cases, Option-cases, inl, inr, subst, ◌==◌, ==_iff,
}
use mathlib.Core.Option.{some-injective, none-ne-some}
use packet_guard.Base.Maps.{find_at, assign, find_at-assign, All-assign}
use packet_guard.Ioc.Index.{
  IndicatorIndex, empty_index, rebuild_indexes, new_record, add, change_record, record_of,
  remove_id, remove_key, reactivate_id, update_role, index_ids, rebuild, compact,
}
use packet_guard.Ioc.Index.Invariant.{IsIndexOf, active-IsIndexOf}
use packet_guard.Ioc.Index.Live.{has_id-append, has_id-last, has_id-set, get_elem?-last}
use packet_guard.Ioc.Index.Rebuild.{
  IsIndexed, IdsLead, rebuild_indexes-IsBuilt, index_record-active,
}
use packet_guard.Ioc.Index.Slots.{last_id, last_id-append, last_id-set}
use packet_guard.Ioc.Lookup.{has_id}
use packet_guard.Ioc.Trie.Push.{empty_node-IsTrie, slots_at-empty_node}
use packet_guard.Ioc.Types.{Indicator, ListRole, IndexedIndicator, indicator_key}

pub empty_index-IsIndexed : IsIndexed empty_index
empty_index-IsIndexed = record {
  built = record {
    last_keys = λ key. refl;
    live_keys = tt;
    domain_slots = λ key. refl;
    hash_slots = λ key. refl;
    trie = empty_node-IsTrie;
    path_slots = slots_at-empty_node;
    live_nodes = tt;
  };
  ids = record { entries = tt; last_ids = λ id. refl };
}

pub rebuilt-IsIndexed :
    (s : IndicatorIndex) → IdsLead s.records s.id_to_slot → IsIndexed (rebuild_indexes s)
rebuilt-IsIndexed s h =
    let (b, f) = rebuild_indexes-IsBuilt s in
    let s' = rebuild_indexes s in
    record {
      built =
          subst (λ l. IsIndexOf l s'.key_to_slot s'.domains s'.hashes s'.cidr_trie) (sym f.records)
            b;
      ids =
          subst (λ l. IdsLead l s'.id_to_slot) (sym f.records)
            (subst (λ m. IdsLead s.records m) (sym f.ids) h);
    }

-- The new entry leads to the new record.
ids-added :
    (recs : List IndexedIndicator) (rec : IndexedIndicator) (ids : List (ℕ × ℕ))
    → IdsLead recs ids
    → IdsLead (recs ++ rec ∷ []) (assign ◌==◌ rec.id (length recs) ids)
ids-added recs rec ids h = record {
  entries =
      All-assign ◌==◌ ==_iff (λ e. has_id (recs ++ rec ∷ []) e.0 e.1 ≡ true) rec.id (length recs)
        ids
        (λ k s.
          subst (λ m. has_id (recs ++ rec ∷ []) m (length recs) ≡ true) ((==_iff rec.id k).0 s)
            (has_id-last recs rec []))
        (All-imp (λ e. has_id recs e.0 e.1 ≡ true) (λ e. has_id (recs ++ rec ∷ []) e.0 e.1 ≡ true)
          ids (λ e. has_id-append recs (rec ∷ []) e.0 e.1) h.entries);
  last_ids = λ id.
      find_at-assign ◌==◌ ==_iff id rec.id (length recs) ids
      ∙ ap (λ o. if rec.id == id then some (length recs) else o) (h.last_ids id)
      ∙ sym (
          last_id-append recs rec id 0 none
          ∙ ap (λ n. if rec.id == id then some n else last_id id 0 recs none) (first recs));
}
  where
    first : (xs : List IndexedIndicator) → 0 + length xs ≡ length xs
    first xs = omega arith

ids-set :
    (recs : List IndexedIndicator) (slot : ℕ) (old rec : IndexedIndicator) (ids : List (ℕ × ℕ))
    → get_elem? recs slot ≡ some old
    → rec.id ≡ old.id
    → IdsLead recs ids
    → IdsLead (set recs slot rec) ids
ids-set recs slot old rec ids g e h = record {
  entries =
      All-imp (λ x. has_id recs x.0 x.1 ≡ true) (λ x. has_id (set recs slot rec) x.0 x.1 ≡ true) ids
        (λ x. has_id-set recs slot old rec x.0 x.1 g e) h.entries;
  last_ids = λ id. h.last_ids id ∙ sym (last_id-set recs slot old rec id 0 none g e);
}

pub add-IsIndexed : (s : IndicatorIndex) (i : Indicator) → IsIndexed s → IsIndexed (add s i).1
unfolding add new_record
add-IsIndexed s i h =
    let rec = new_record s i in
    let slot = length s.records in
    let s1 : IndicatorIndex = record s {
      next_id = (s.next_id + 1) % 2 ^ 64;
      generation = (s.generation + 1) % 2 ^ 32;
      records = s.records ++ rec ∷ [];
      id_to_slot = assign ◌==◌ rec.id slot s.id_to_slot;
      key_to_slot = assign text_eq (indicator_key rec.indicator) slot s.key_to_slot;
    } in
    subst IsIndexed (sym (index_record-active s1 slot rec (get_elem?-last s.records rec []) refl))
      (record {
        built =
            active-IsIndexOf s.records rec s.key_to_slot s.domains s.hashes s.cidr_trie h.built
              refl;
        ids = ids-added s.records rec s.id_to_slot h.ids;
      })

change_record-IsIndexed :
    (s : IndicatorIndex) (slot : ℕ) (old rec : IndexedIndicator)
    → get_elem? s.records slot ≡ some old
    → rec.id ≡ old.id
    → IsIndexed s
    → IsIndexed (change_record s slot rec)
unfolding change_record
change_record-IsIndexed s slot old rec g e h =
    let changed : IndexedIndicator = record rec { generation = s.generation } in
    rebuilt-IsIndexed
      (record s { records = set s.records slot changed; generation = (s.generation + 1) % 2 ^ 32 })
      (ids-set s.records slot old changed s.id_to_slot g e h.ids)

record_of-get_elem? :
    (s : IndicatorIndex) (id slot : ℕ) (rec : IndexedIndicator)
    → record_of s id ≡ some (slot, rec)
    → get_elem? s.records slot ≡ some rec
unfolding record_of
record_of-get_elem? s id slot rec h = elim (Option-cases (find_at ◌==◌ id s.id_to_slot)) [
  | inl e ↦
      let f : none ≡ some (slot, rec) = rw (e, record_of) at h in
      absurd (none-ne-some (slot, rec) f)
  | inr (at, e) ↦ elim (Option-cases (get_elem? s.records at)) [
    | inl g ↦
        let f : none ≡ some (slot, rec) = rw (e, g, record_of) at h in
        absurd (none-ne-some (slot, rec) f)
    | inr (r, g) ↦
        let f : some (at, r) ≡ some (slot, rec) = rw (e, g, record_of) at h in
        let same = some-injective (at, r) (slot, rec) f in
        ap (λ n. get_elem? s.records n) (sym (ap (λ x. x.0) same)) ∙ g ∙ ap (λ x. some x.1) same
  ]
]

pub remove_id-IsIndexed : (s : IndicatorIndex) (id : ℕ) → IsIndexed s → IsIndexed (remove_id s id).1
unfolding remove_id
remove_id-IsIndexed s id h = elim (Option-cases (record_of s id)) [
  | inl e ↦ rw (e, remove_id) h
  | inr ((slot, rec), e) ↦
      rw (e, remove_id)
        (elim (Bool-cases rec.active) [
          | inr a ↦ simp a h
          | inl a ↦ simp a (
              change_record-IsIndexed s slot rec (record rec { active = false })
                (record_of-get_elem? s id slot rec e) refl h)
        ])
]

pub reactivate_id-IsIndexed :
    (s : IndicatorIndex) (id : ℕ) → IsIndexed s → IsIndexed (reactivate_id s id).1
unfolding reactivate_id
reactivate_id-IsIndexed s id h = elim (Option-cases (record_of s id)) [
  | inl e ↦ rw (e, reactivate_id) h
  | inr ((slot, rec), e) ↦
      rw (e, reactivate_id)
        (elim (Bool-cases rec.active) [
          | inl a ↦ simp a h
          | inr a ↦ simp a (
              change_record-IsIndexed s slot rec (record rec { active = true })
                (record_of-get_elem? s id slot rec e) refl h)
        ])
]

pub update_role-IsIndexed :
    (s : IndicatorIndex) (id : ℕ) (role : ListRole)
    → IsIndexed s
    → IsIndexed (update_role s id role).1
unfolding update_role
update_role-IsIndexed s id role h = elim (Option-cases (record_of s id)) [
  | inl e ↦ rw (e, update_role) h
  | inr ((slot, rec), e) ↦
      rw (e, update_role)
        (change_record-IsIndexed s slot rec
          (record rec { indicator = record rec.indicator { role = role } })
          (record_of-get_elem? s id slot rec e) refl h)
]

pub remove_key-IsIndexed :
    (s : IndicatorIndex) (key : Text) → IsIndexed s → IsIndexed (remove_key s key).1
unfolding remove_key
remove_key-IsIndexed s key h = elim (Option-cases (find_at text_eq key s.key_to_slot)) [
  | inl e ↦ rw (e, remove_key) h
  | inr (slot, e) ↦ elim (Option-cases (get_elem? s.records slot)) [
    | inl g ↦ rw (e, g, remove_key) h
    | inr (rec, g) ↦ rw (e, g, remove_key) (remove_id-IsIndexed s rec.id h)
  ]
]

index_ids-IdsLead :
    (rest done : List IndexedIndicator) (i : ℕ) (ids : List (ℕ × ℕ))
    → i ≡ length done
    → IdsLead done ids
    → IdsLead (done ++ rest) (index_ids i rest ids)
unfolding index_ids
index_ids-IdsLead [] done i ids k h = rw append-nil h
index_ids-IdsLead (rec ∷ rest) done i ids k h =
    subst (λ l. IdsLead l (index_ids (suc i) rest (assign ◌==◌ rec.id i ids)))
      (append_assoc done (rec ∷ []) rest)
      (index_ids-IdsLead rest (done ++ rec ∷ []) (suc i) (assign ◌==◌ rec.id i ids)
        (omega (arith, k, length-append done (rec ∷ [])))
        (subst (λ n. IdsLead (done ++ rec ∷ []) (assign ◌==◌ rec.id n ids)) (sym k)
          (ids-added done rec ids h)))

-- `rebuild` needs no invariant: it makes all maps anew.
pub rebuild-IsIndexed : (s : IndicatorIndex) → IsIndexed (rebuild s)
unfolding rebuild
rebuild-IsIndexed s =
    let h =
      rebuilt-IsIndexed (record s { id_to_slot = index_ids 0 s.records [] })
        (index_ids-IdsLead s.records [] 0 [] refl
          (record { entries = tt; last_ids = λ id. refl })) in
    record { built = h.built; ids = h.ids }

pub compact-IsIndexed : (s : IndicatorIndex) → IsIndexed (compact s)
unfolding compact
compact-IsIndexed s = rebuild-IsIndexed (record s { records = keep (λ rec. rec.active) s.records })
