-- ===== src/Ioc/Index/Rebuild.antt =====
-- `rebuild_indexes` of `IndicatorIndex` of src/ioc/ioc.cpp makes the indexes of its records.
use packet_guard.Base.{
  ◌==◌, none, ℕ, suc, ◌≡◌, refl, sym, ap, ◌∙◌, arith, true, not, List, [], ◌∷◌, ◌++◌, append-nil,
  append_assoc, some, if◌then◌else◌, text_eq, length, length-append, get_elem?, All, Bool-cases,
  inl, inr, subst,
}
use packet_guard.Base.Maps.{assign, find_at}
use packet_guard.Ioc.Index.{
  IndicatorIndex, index_domain, index_hash, index_cidr, index_record, reindex, rebuild_indexes,
}
use packet_guard.Ioc.Index.Invariant.{
  IsIndexOf, active-IsIndexOf, inactive-IsIndexOf, empty-IsIndexOf,
}
use packet_guard.Ioc.Index.Live.{get_elem?-last}
use packet_guard.Ioc.Index.Slots.{last_id}
use packet_guard.Ioc.Lookup.{has_id}
use packet_guard.Ioc.Trie.{empty_node}
use packet_guard.Ioc.Types.{IndexedIndicator, indicator_key}

abbrev pub IsBuilt : List IndexedIndicator → IndicatorIndex → Type 0
IsBuilt recs s = IsIndexOf recs s.key_to_slot s.domains s.hashes s.cidr_trie

-- What an indexing leaves alone.
pub record Same (s s' : IndicatorIndex) : Type 0 where
  pub records : s'.records ≡ s.records
  pub ids : s'.id_to_slot ≡ s.id_to_slot

pub index_record-active :
    (s : IndicatorIndex) (slot : ℕ) (rec : IndexedIndicator)
    → get_elem? s.records slot ≡ some rec
    → rec.active ≡ true
    → index_record s slot ≡ record s {
      domains = index_domain slot rec.indicator s.domains;
      hashes = index_hash slot rec.indicator s.hashes;
      cidr_trie = index_cidr slot rec.indicator s.cidr_trie;
    }
unfolding index_record
index_record-active s slot rec g a = rw (g, index_record) (rw a refl)

-- One turn of the loop of `rebuild_indexes`.
abbrev reindex_one : ℕ → IndexedIndicator → IndicatorIndex → IndicatorIndex
reindex_one i rec s =
    if not rec.active
    then s
    else index_record
        (record s { key_to_slot = assign text_eq (indicator_key rec.indicator) i s.key_to_slot }) i

reindex_one-IsBuilt :
    (done rest : List IndexedIndicator) (rec : IndexedIndicator) (s : IndicatorIndex)
    → s.records ≡ done ++ rec ∷ rest
    → IsBuilt done s
    → IsBuilt (done ++ rec ∷ []) (reindex_one (length done) rec s)
      × Same s (reindex_one (length done) rec s)
reindex_one-IsBuilt done rest rec s e h = elim (Bool-cases rec.active) [
  | inr a ↦
      let e : reindex_one (length done) rec s ≡ s =
        ap
          (λ b.
            if not b
            then s
            else index_record
                (record s {
                  key_to_slot =
                      assign text_eq (indicator_key rec.indicator) (length done) s.key_to_slot;
                })
                (length done))
          a in
      subst (λ x. IsBuilt (done ++ rec ∷ []) x × Same s x) (sym e)
        (
          inactive-IsIndexOf done rec s.key_to_slot s.domains s.hashes s.cidr_trie h a,
          record { records = refl; ids = refl },
        )
  | inl a ↦
      let slot = length done in
      let s1 : IndicatorIndex = record s {
        key_to_slot = assign text_eq (indicator_key rec.indicator) slot s.key_to_slot;
      } in
      let g : get_elem? s1.records slot ≡ some rec =
        ap (λ l. get_elem? l slot) e ∙ get_elem?-last done rec rest in
      let e : reindex_one slot rec s ≡ record s1 {
        domains = index_domain slot rec.indicator s.domains;
        hashes = index_hash slot rec.indicator s.hashes;
        cidr_trie = index_cidr slot rec.indicator s.cidr_trie;
      } =
        ap (λ b. if not b then s else index_record s1 slot) a
        ∙ index_record-active s1 slot rec g a in
      subst (λ x. IsBuilt (done ++ rec ∷ []) x × Same s x) (sym e)
        (
          active-IsIndexOf done rec s.key_to_slot s.domains s.hashes s.cidr_trie h a,
          record { records = refl; ids = refl },
        )
]

reindex-IsBuilt :
    (rest done : List IndexedIndicator) (i : ℕ) (s : IndicatorIndex)
    → i ≡ length done
    → s.records ≡ done ++ rest
    → IsBuilt done s
    → IsBuilt (done ++ rest) (reindex i rest s) × Same s (reindex i rest s)
unfolding reindex
reindex-IsBuilt [] done i s k e h = (rw append-nil h, record { records = refl; ids = refl })
reindex-IsBuilt (rec ∷ rest) done i s k e h =
    let (b, f) =
      subst (λ j. IsBuilt (done ++ rec ∷ []) (reindex_one j rec s) × Same s (reindex_one j rec s))
        (sym k) (reindex_one-IsBuilt done rest rec s e h) in
    let s1 = reindex_one i rec s in
    let (b', f') =
      reindex-IsBuilt rest (done ++ rec ∷ []) (suc i) s1
        (omega (arith, k, length-append done (rec ∷ [])))
        (f.records ∙ e ∙ sym (append_assoc done (rec ∷ []) rest)) b in
    (
      subst (λ l. IsBuilt l (reindex (suc i) rest s1)) (append_assoc done (rec ∷ []) rest) b',
      record { records = f'.records ∙ f.records; ids = f'.ids ∙ f.ids },
    )

pub rebuild_indexes-IsBuilt :
    (s : IndicatorIndex) → IsBuilt s.records (rebuild_indexes s) × Same s (rebuild_indexes s)
unfolding rebuild_indexes
rebuild_indexes-IsBuilt s =
    let (b, f) =
      reindex-IsBuilt s.records [] 0
        (record s { key_to_slot = []; domains = []; hashes = []; cidr_trie = empty_node ∷ [] }) refl
        refl empty-IsIndexOf in
    (b, record { records = f.records; ids = f.ids })

-- An entry leads to a record with its id, and an id that a record has leads to the last such record.
pub record IdsLead (recs : List IndexedIndicator) (ids : List (ℕ × ℕ)) : Type 0 where
  pub entries : All (λ e. has_id recs e.0 e.1 ≡ true) ids
  pub last_ids : (id : ℕ) → find_at ◌==◌ id ids ≡ last_id id 0 recs none

-- The maps and the trie hold the slots of the active records, and each id leads to its record.
pub record IsIndexed (s : IndicatorIndex) : Type 0 where
  pub built : IsIndexOf s.records s.key_to_slot s.domains s.hashes s.cidr_trie
  pub ids : IdsLead s.records s.id_to_slot
