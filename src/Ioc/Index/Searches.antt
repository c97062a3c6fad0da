-- ===== src/Ioc/Index/Searches.antt =====
-- The searches of `IndicatorIndex` of src/ioc/ioc.cpp find what a walk through all records finds.
use packet_guard.Base.{
  ℕ, suc, ◌≡◌, refl, sym, ap, ◌∙◌, arith, Bool, true, false, &&-eq-true, List, [], ◌∷◌, ◌++◌, map,
  append_assoc, some, none, if◌then◌else◌, Text, codes, length, length-append, get_elem?,
  Bool-cases, Option-cases, inl, inr, subst,
}
use packet_guard.Ioc.Index.{IndicatorIndex}
use packet_guard.Ioc.Index.Integrity.{passes}
use packet_guard.Ioc.Index.Live.{get_elem?-last}
use packet_guard.Ioc.Index.Rebuild.{IsIndexed}
use packet_guard.Ioc.Index.Slots.{slots_where, has_hash}
use packet_guard.Ioc.Lookup.{live_at, lookup_hash}
use packet_guard.Ioc.Matching.{match_of}
use packet_guard.Ioc.Normalize.{normalize_hash}
use packet_guard.Ioc.Trie.Walks.{along}
use packet_guard.Ioc.Types.{Indicator, IndexedIndicator}

-- The indicators of the active records that pass a test, in order.
abbrev pub indicators_where : (Indicator → Bool) → List IndexedIndicator → List Indicator
indicators_where p [] = []
indicators_where p (rec ∷ rest) =
    let others = indicators_where p rest in if passes p rec then rec.indicator ∷ others else others

live_at-found :
    (recs : List IndexedIndicator) (slot : ℕ) (rest : List ℕ) (rec : IndexedIndicator)
    → get_elem? recs slot ≡ some rec
    → live_at recs (slot ∷ rest)
      ≡ (if rec.active then rec.indicator ∷ live_at recs rest else live_at recs rest)
unfolding live_at
live_at-found recs slot rest rec e = rw (e, live_at) refl

live_at-missing :
    (recs : List IndexedIndicator) (slot : ℕ) (rest : List ℕ)
    → get_elem? recs slot ≡ none
    → live_at recs (slot ∷ rest) ≡ live_at recs rest
unfolding live_at
live_at-missing recs slot rest e = rw (e, live_at) refl

live_at-slots_where_from :
    (p : Indicator → Bool) (rest done : List IndexedIndicator) (i : ℕ)
    → i ≡ length done
    → live_at (done ++ rest) (slots_where p i rest) ≡ indicators_where p rest
unfolding live_at
live_at-slots_where_from p [] done i k = refl
live_at-slots_where_from p (rec ∷ rest) done i k =
    let ih : live_at (done ++ rec ∷ rest) (slots_where p (suc i) rest) ≡ indicators_where p rest =
      subst (λ l. live_at l (slots_where p (suc i) rest) ≡ indicators_where p rest)
        (append_assoc done (rec ∷ []) rest)
        (live_at-slots_where_from p rest (done ++ rec ∷ []) (suc i)
          (omega (arith, k, length-append done (rec ∷ [])))) in
    let here : get_elem? (done ++ rec ∷ rest) i ≡ some rec = rw k (get_elem?-last done rec rest) in
    elim (Bool-cases (passes p rec)) [
      | inr e ↦ rw e ih
      | inl e ↦
          let others = slots_where p (suc i) rest in
          let active = (&&-eq-true rec.active (p rec.indicator) e).0 in
          let found = live_at-found (done ++ rec ∷ rest) i others rec here in
          rw e (
            found
            ∙ ap
                (λ b.
                  if b
                  then rec.indicator ∷ live_at (done ++ rec ∷ rest) others
                  else live_at (done ++ rec ∷ rest) others)
                active
            ∙ ap (λ l. rec.indicator ∷ l) ih)
    ]

pub live_at-slots_where :
    (p : Indicator → Bool) (recs : List IndexedIndicator)
    → live_at recs (slots_where p 0 recs) ≡ indicators_where p recs
live_at-slots_where p recs = live_at-slots_where_from p recs [] 0 refl

-- In an index whose maps agree with its records, the search for a hash finds, in the order of the
-- records, the active ones with this hash and no others.
pub lookup_hash-indicators_where :
    (s : IndicatorIndex) (value field : Text)
    → IsIndexed s
    → lookup_hash s value field
      ≡ map
          (λ i. match_of i field (normalize_hash value) (codes "stateful IOC index hash match"))
          (indicators_where (has_hash (normalize_hash value)) s.records)
unfolding lookup_hash
lookup_hash-indicators_where s value field h =
    let n = normalize_hash value in
    ap (λ l. map (λ i. match_of i field n (codes "stateful IOC index hash match")) l)
      (ap (live_at s.records) (h.built.hash_slots n) ∙ live_at-slots_where (has_hash n) s.records)

if_append :
    {A : Type 0} (b : Bool) (x : A) (xs ys : List A)
    → (if b then x ∷ (xs ++ ys) else xs ++ ys) ≡ (if b then x ∷ xs else xs) ++ ys
if_append true x xs ys = refl
if_append false x xs ys = refl

live_at-append :
    (recs : List IndexedIndicator) (xs ys : List ℕ)
    → live_at recs (xs ++ ys) ≡ live_at recs xs ++ live_at recs ys
unfolding live_at
live_at-append recs [] ys = refl
live_at-append recs (x ∷ xs) ys = elim (Option-cases (get_elem? recs x)) [
  | inl e ↦
      live_at-missing recs x (xs ++ ys) e
      ∙ live_at-append recs xs ys
      ∙ ap (λ l. l ++ live_at recs ys) (sym (live_at-missing recs x xs e))
  | inr (rec, e) ↦
      live_at-found recs x (xs ++ ys) rec e
      ∙ rw (live_at-append recs xs ys)
          (if_append rec.active rec.indicator (live_at recs xs) (live_at recs ys))
      ∙ ap (λ l. l ++ live_at recs ys) (sym (live_at-found recs x xs rec e))
]

pub live_at-along :
    (recs : List IndexedIndicator) (q : List Bool) (f : List Bool → List ℕ)
    → live_at recs (along f q) ≡ along (λ r. live_at recs (f r)) q
live_at-along recs [] f = refl
live_at-along recs (b ∷ q) f =
    live_at-append recs (f []) (along (λ r. f (b ∷ r)) q)
    ∙ ap (λ l. live_at recs (f []) ++ l) (live_at-along recs q (λ r. f (b ∷ r)))
