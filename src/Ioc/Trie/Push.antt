-- ===== src/Ioc/Trie/Push.antt =====
-- An insertion into the trie adds the slot at its path and changes no other path.
use packet_guard.Base.{
  ℕ, zero, suc, ◌<◌, ◌≡◌, refl, sym, ap, ◌∙◌, arith, Bool, true, false, ◌&&◌, &&-eq-true, List, [],
  ◌∷◌, ◌++◌, append-nil, append_assoc, Option, some, none, ◌==◌, ==_iff, if◌then◌else◌, length,
  length-set, Bool-cases, Option-cases, inl, inr, ◌↔◌, subst,
}
use mathlib.Core.List.{head-eq_of_cons-eq, tail-eq_of_cons-eq}
use mathlib.Core.Option.{some-injective, none-ne-some}
use packet_guard.Ioc.Trie.{
  TrieNode, empty_node, child, node_at, insert_path, push_slot, with_root, trie_insert, walk_slots,
}
use packet_guard.Ioc.Trie.Insert.{insert_path-Inserted}
use packet_guard.Ioc.Trie.Walks.{
  at_child, reach, slots_at, along, IsTrie, node_at-push_slot, same_bit, same_bit_lem,
  same_bit_refl,
}

pub along_nothing : (q : List Bool) → along {A = ℕ} (λ q. []) q ≡ []
along_nothing [] = refl
along_nothing (b ∷ q) = along_nothing q

reach-label :
    (t : List TrieNode) (w : IsTrie t) (q : List Bool) (n k : ℕ)
    → reach t n q ≡ some k
    → w.label k ≡ w.label n ++ q
reach-label t w [] n k h = ap w.label (sym (some-injective n k h)) ∙ sym (append-nil (w.label n))
reach-label t w (b ∷ q) n k h = elim (Option-cases (child b (node_at t n))) [
  | inl e ↦ let f : none ≡ some k = rw e at h in absurd (none-ne-some k f)
  | inr (j, e) ↦
      let f : reach t j q ≡ some k = rw e at h in
      reach-label t w q j k f
      ∙ ap (λ l. l ++ q) (w.children n j b e).1
      ∙ append_assoc (w.label n) (b ∷ []) q
]

abbrev pushed : ℕ → TrieNode → TrieNode
pushed slot x = record x { slots = x.slots ++ slot ∷ [] }

pushed_here :
    (t : List TrieNode) (n i slot : ℕ)
    → n < length t
    → (i == n) ≡ true
    → node_at (push_slot t n slot) i ≡ pushed slot (node_at t i)
pushed_here t n i slot h e = node_at-push_slot t n i slot h ∙ rw (e, (==_iff i n).0 e) refl

pushed_elsewhere :
    (t : List TrieNode) (n i slot : ℕ)
    → n < length t
    → (i == n) ≡ false
    → node_at (push_slot t n slot) i ≡ node_at t i
pushed_elsewhere t n i slot h e = node_at-push_slot t n i slot h ∙ rw e refl

child-pushed : (c : Bool) (slot : ℕ) (x : TrieNode) → child c (pushed slot x) ≡ child c x
child-pushed true slot x = refl
child-pushed false slot x = refl

child-push_slot :
    (t : List TrieNode) (n i slot : ℕ) (c : Bool)
    → n < length t
    → child c (node_at (push_slot t n slot) i) ≡ child c (node_at t i)
child-push_slot t n i slot c h = elim (Bool-cases (i == n)) [
  | inl e ↦ ap (child c) (pushed_here t n i slot h e) ∙ child-pushed c slot (node_at t i)
  | inr e ↦ ap (child c) (pushed_elsewhere t n i slot h e)
]

length-push_slot : (t : List TrieNode) (n slot : ℕ) → length (push_slot t n slot) ≡ length t
unfolding push_slot
length-push_slot t n slot = length-set t n _

push_slot-IsTrie :
    (t : List TrieNode) (w : IsTrie t) (n slot : ℕ) → n < length t → IsTrie (push_slot t n slot)
push_slot-IsTrie t w n slot h = record {
  label = w.label;
  root = w.root;
  rooted = omega (arith, length-push_slot t n slot, w.rooted);
  children = λ i j c g.
      let (l, f) = w.children i j c (sym (child-push_slot t n i slot c h) ∙ g) in
      (omega (arith, length-push_slot t n slot, l), f);
}

-- Whether a walk has ended at the node `n`.
abbrev ends_at : ℕ → Option ℕ → Bool
ends_at n none = false
ends_at n (some k) = k == n

slots_at-push_slot :
    (t : List TrieNode) (n slot : ℕ)
    → n < length t
    → (q : List Bool) (m : ℕ)
    → slots_at (push_slot t n slot) m q
      ≡ (if ends_at n (reach t m q) then slots_at t m q ++ slot ∷ [] else slots_at t m q)
slots_at-push_slot t n slot h [] m = elim (Bool-cases (m == n)) [
  | inl e ↦ rw e (ap (λ x. x.slots) (pushed_here t n m slot h e))
  | inr e ↦ rw e (ap (λ x. x.slots) (pushed_elsewhere t n m slot h e))
]
slots_at-push_slot t n slot h (c ∷ q) m =
    let u = push_slot t n slot in
    ap (λ o. at_child [] o (λ j. slots_at u j q)) (child-push_slot t n m slot c h)
    ∙ elim (Option-cases (child c (node_at t m))) [
      | inl e ↦ rw e refl
      | inr (j, e) ↦ rw e (slots_at-push_slot t n slot h q j)
    ]

abbrev pub same_path : List Bool → List Bool → Bool
same_path [] [] = true
same_path [] (c ∷ q) = false
same_path (b ∷ p) [] = false
same_path (b ∷ p) (c ∷ q) = same_bit b c && same_path p q

pub same_path_iff : (p q : List Bool) → (same_path p q ≡ true) ↔ (p ≡ q)
same_path_iff [] [] = (λ h. refl, λ h. refl)
same_path_iff [] (c ∷ q) = (λ h. cc, λ h. cc)
same_path_iff (b ∷ p) [] = (λ h. cc, λ h. cc)
same_path_iff (b ∷ p) (c ∷ q) = (
  λ h.
      let e = &&-eq-true (same_bit b c) (same_path p q) h in
      rw (same_bit_lem b c e.0, (same_path_iff p q).0 e.1) refl,
  λ h.
      rw
        (
          subst (λ d. same_bit b d ≡ true) (head-eq_of_cons-eq h) (same_bit_refl b),
          (same_path_iff p q).1 (tail-eq_of_cons-eq h),
        )
        refl,
)

ends_at-reach :
    (t : List TrieNode) (w : IsTrie t) (p q : List Bool) (k : ℕ)
    → reach t 0 p ≡ some k
    → ends_at k (reach t 0 q) ≡ same_path p q
ends_at-reach t w p q k h = elim (Bool-cases (same_path p q)) [
  | inl e ↦
      let f : reach t 0 q ≡ some k = rw (sym ((same_path_iff p q).0 e)) h in
      rw (e, f) ((==_iff k k).1 refl)
  | inr e ↦ rw e (elim (Option-cases (reach t 0 q)) [
    | inl f ↦ rw f refl
    | inr (j, f) ↦ rw f (elim (Bool-cases (j == k)) [
      | inr g ↦ g
      | inl g ↦
          let along_p = reach-label t w p 0 k h in
          let along_q = reach-label t w q 0 j f in
          let same : p ≡ q =
            ap (λ l. l ++ p) (sym w.root)
            ∙ sym along_p
            ∙ ap w.label (sym ((==_iff j k).0 g))
            ∙ along_q
            ∙ ap (λ l. l ++ q) w.root in
          let clash = (same_path_iff p q).1 same in cc
    ])
  ])
]

-- An insertion below the root adds the slot at the path of its range, behind those that stand there,
-- and changes no other path.
pub trie_insert-slots :
    (t : List TrieNode) (p : List Bool) (slot : ℕ)
    → IsTrie (with_root t)
    → IsTrie (trie_insert t p slot)
      × ((q : List Bool)
          → slots_at (trie_insert t p slot) 0 q ≡ (
              if same_path p q
              then slots_at (with_root t) 0 q ++ slot ∷ []
              else slots_at (with_root t) 0 q))
unfolding trie_insert
trie_insert-slots t p slot w =
    let (w', g, r, l) = insert_path-Inserted p (with_root t) w 0 w.rooted in
    let (u, k) = insert_path (with_root t) 0 p in
    (
      push_slot-IsTrie u w' k slot l,
      λ q.
          slots_at-push_slot u k slot l q 0
          ∙ rw (ends_at-reach u w' p q k r, g.walks q 0 w.rooted) refl,
    )

pub empty_node-IsTrie : IsTrie (empty_node ∷ [])
empty_node-IsTrie = record {
  label = λ i. [];
  root = refl;
  rooted = omega arith;
  children = λ i j b h. absurd (none-ne-some j (sym (no_child b i) ∙ h));
}
  where
    no_child : (b : Bool) (i : ℕ) → child b (node_at (empty_node ∷ []) i) ≡ none
    no_child true zero = refl
    no_child false zero = refl
    no_child true (suc i) = refl
    no_child false (suc i) = refl

pub slots_at-empty_node : (q : List Bool) → slots_at (empty_node ∷ []) 0 q ≡ []
slots_at-empty_node [] = refl
slots_at-empty_node (true ∷ q) = refl
slots_at-empty_node (false ∷ q) = refl

-- A walk collects the slots along its path.
pub walk_slots-along :
    (t : List TrieNode) (q : List Bool) (n : ℕ) → walk_slots t n q ≡ along (slots_at t n) q
unfolding walk_slots
walk_slots-along t [] n = refl
walk_slots-along t (b ∷ q) n = elim (Option-cases (child b (node_at t n))) [
  | inl e ↦ rw (e, walk_slots) (ap (λ l. (node_at t n).slots ++ l) (sym (along_nothing q)))
  | inr (j, e) ↦ rw (e, walk_slots) (ap (λ l. (node_at t n).slots ++ l) (walk_slots-along t q j))
]
