-- ===== src/Ioc/Matching/Keys.antt =====
-- The keys of the indicators in a set: `merge_indicator_sets` and `parse_indicator_text` of
-- src/ioc/ioc.cpp keep one indicator of each.
use packet_guard.Base.{
  ℕ, ◌+◌, ◌≡◌, refl, sym, ap, ◌∙◌, arith, Bool, true, false, not, ◌&&◌, ◌||◌, &&-eq-true, List, [],
  ◌∷◌, ◌++◌, Text, text_eq, text_eq_iff, length, length-append, any_of, any_of-append, Bool-cases,
  inl, inr,
}
use packet_guard.Base.Maps.{same_sym}
use packet_guard.Ioc.Matching.{
  seen_in, merge_one, merge_indicators, merge_set, merge_sets, no_indicators, merge_indicator_sets,
}
use packet_guard.Ioc.Types.{Indicator, IndicatorSet, indicator_key}

-- Whether an indicator with this key stands in a list, and whether no key stands there twice.
abbrev pub holds_key : List Indicator → Text → Bool
holds_key is key = any_of (λ i. text_eq (indicator_key i) key) is

abbrev pub has_distinct_keys : List Indicator → Bool
has_distinct_keys [] = true
has_distinct_keys (i ∷ rest) = not (holds_key rest (indicator_key i)) && has_distinct_keys rest

-- The keys seen are those of the indicators kept.
pub record IsTracked (seen : List Text) (is : List Indicator) : Type 0 where
  pub known : (key : Text) → seen_in seen key ≡ holds_key is key
  pub distinct : has_distinct_keys is ≡ true

pub nothing-IsTracked : IsTracked [] []
nothing-IsTracked = record { known = λ key. refl; distinct = refl }

key_swap : (a b : Text) → text_eq a b ≡ text_eq b a
key_swap a b = same_sym text_eq text_eq_iff a b

holds_key-append :
    (is : List Indicator) (i : Indicator) (key : Text)
    → holds_key (is ++ i ∷ []) key ≡ (text_eq key (indicator_key i) || holds_key is key)
holds_key-append is i key =
    let e = any_of-append (λ (j : Indicator). text_eq (indicator_key j) key) is (i ∷ []) in
    let f = key_swap key (indicator_key i) in ground (arith, e, f)

-- A new key at the end.
distinct_more :
    (is : List Indicator) (i : Indicator)
    → has_distinct_keys is ≡ true
    → holds_key is (indicator_key i) ≡ false
    → has_distinct_keys (is ++ i ∷ []) ≡ true
distinct_more [] i h k = refl
distinct_more (j ∷ is) i h k =
    let e = &&-eq-true (not (holds_key is (indicator_key j))) _ h in
    let f = holds_key-append is i (indicator_key j) in
    let rest : holds_key is (indicator_key i) ≡ false = ground (arith, k) in
    let here : text_eq (indicator_key j) (indicator_key i) ≡ false = ground (arith, k) in
    let ih = distinct_more is i e.1 rest in rw (f, here, ih) (ground (arith, e.0))

pub new_key-IsTracked :
    (seen : List Text) (is : List Indicator) (i : Indicator)
    → seen_in seen (indicator_key i) ≡ false
    → IsTracked seen is
    → IsTracked (indicator_key i ∷ seen) (is ++ i ∷ [])
new_key-IsTracked seen is i h t = record {
  known = λ key.
      ap (λ b. text_eq key (indicator_key i) || b) (t.known key) ∙ sym (holds_key-append is i key);
  distinct = distinct_more is i t.distinct (sym (t.known (indicator_key i)) ∙ h);
}

-- What a loop over indicators does to the set: it keeps one of each key and loses none.
record IsMerged (set : IndicatorSet) (is : List Indicator) (r : List Text × IndicatorSet)
    : Type 0 where
  tracked : IsTracked r.0 r.1.indicators
  keys :
      (key : Text)
      → holds_key r.1.indicators key ≡ (holds_key set.indicators key || holds_key is key)
  count :
      length r.1.indicators + length r.1.duplicates
      ≡ length set.indicators + length set.duplicates + length is

or_false : (b : Bool) → b ≡ (b || false)
or_false true = refl
or_false false = refl

-- A key that is held already.
again :
    (is : List Indicator) (i : Indicator) (key : Text)
    → holds_key is (indicator_key i) ≡ true
    → holds_key is key ≡ (holds_key is key || (text_eq (indicator_key i) key || false))
again is i key h = elim (Bool-cases (text_eq (indicator_key i) key)) [
  | inr e ↦ rw e (or_false (holds_key is key))
  | inl e ↦
      let same = (text_eq_iff (indicator_key i) key).0 e in
      let held : holds_key is key ≡ true = ap (holds_key is) (sym same) ∙ h in rw (e, held) refl
]

merge_one-IsMerged :
    (i : Indicator) (seen : List Text) (set : IndicatorSet)
    → IsTracked seen set.indicators
    → IsMerged set (i ∷ []) (merge_one i seen set)
unfolding merge_one
merge_one-IsMerged i seen set t = elim (Bool-cases (seen_in seen (indicator_key i))) [
  | inl e ↦
      let held = sym (t.known (indicator_key i)) ∙ e in
      rw e (record {
        tracked = t;
        keys = λ key. again set.indicators i key held;
        count = omega (arith, length-append set.duplicates (i ∷ []));
      })
  | inr e ↦ rw e (record {
    tracked = new_key-IsTracked seen set.indicators i e t;
    keys = λ key.
        any_of-append (λ (j : Indicator). text_eq (indicator_key j) key) set.indicators (i ∷ []);
    count = omega (arith, length-append set.indicators (i ∷ []));
  })
]

merge_indicators-IsMerged :
    (is : List Indicator) (seen : List Text) (set : IndicatorSet)
    → IsTracked seen set.indicators
    → IsMerged set is (merge_indicators is seen set)
unfolding merge_indicators
merge_indicators-IsMerged [] seen set t = record {
  tracked = t;
  keys = λ key. or_false (holds_key set.indicators key);
  count = omega arith;
}
merge_indicators-IsMerged (i ∷ is) seen set t =
    let one = merge_one-IsMerged i seen set t in
    let (seen', set') = merge_one i seen set in
    let more = merge_indicators-IsMerged is seen' set' one.tracked in
    record {
      tracked = more.tracked;
      keys = λ key. let e = one.keys key in let f = more.keys key in ground (arith, e, f);
      count = omega (arith, one.count, more.count);
    }

abbrev pub total : List IndicatorSet → ℕ
total [] = 0
total (set ∷ rest) = length set.indicators + total rest

merge_sets_lem :
    (sets : List IndicatorSet) (seen : List Text) (merged : IndicatorSet)
    → IsTracked seen merged.indicators
    → (has_distinct_keys (merge_sets sets seen merged).indicators ≡ true)
      × ((key : Text)
          → holds_key (merge_sets sets seen merged).indicators key ≡ (
              holds_key merged.indicators key || any_of (λ set. holds_key set.indicators key) sets))
      × (length (merge_sets sets seen merged).indicators
            + length (merge_sets sets seen merged).duplicates
          ≡ length merged.indicators + length merged.duplicates + total sets)
unfolding merge_sets merge_set
merge_sets_lem [] seen merged t =
    (t.distinct, λ key. or_false (holds_key merged.indicators key), omega arith)
merge_sets_lem (set ∷ sets) seen merged t =
    let start : IndicatorSet = record merged {
      diagnostics = record { entries = merged.diagnostics.entries ++ set.diagnostics.entries };
    } in
    let one = merge_indicators-IsMerged set.indicators seen start t in
    let (seen', merged') = merge_indicators set.indicators seen start in
    let (d, k, c) = merge_sets_lem sets seen' merged' one.tracked in
    (
      d,
      λ key. let e = one.keys key in let f = k key in ground (arith, e, f),
      omega (arith, one.count, c),
    )

-- The union of sets has each key once, a key exactly when one of the sets has it, and every indicator
-- of the sets is either kept or counted as a duplicate.
pub merge_indicator_sets-keys :
    (sets : List IndicatorSet)
    → let merged = merge_indicator_sets sets in
      (has_distinct_keys merged.indicators ≡ true)
      × ((key : Text)
          → holds_key merged.indicators key ≡ any_of (λ set. holds_key set.indicators key) sets)
      × (length merged.indicators + length merged.duplicates ≡ total sets)
unfolding merge_indicator_sets
merge_indicator_sets-keys sets =
    let (d, k, c) = merge_sets_lem sets [] no_indicators nothing-IsTracked in
    (d, k, omega (arith, c))
