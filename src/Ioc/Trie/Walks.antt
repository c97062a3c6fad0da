-- ===== src/Ioc/Trie/Walks.antt =====
-- Walks in the trie: what a path leads to, and what an insertion changes.
use packet_guard.Base.{
  ℕ, zero, suc, ◌≤◌, ◌<◌, ◌≡◌, refl, sym, ap, ◌∙◌, arith, Bool, true, false, List, [], ◌∷◌, ◌++◌,
  Option, some, none, ◌==◌, ==_iff, ◌&&◌, &&-eq-true, if◌then◌else◌, length, length-append,
  length-set, get_or-set, get_or-append_default, set, Bool-cases, inl, inr,
}
use mathlib.Core.Option.{none-ne-some}
use native.Mathlib.Decide.{dec_lt}
use packet_guard.Ioc.Trie.{TrieNode, empty_node, child, with_child, node_at, grow, push_slot}

-- What stands below a child, if there is one.
abbrev pub at_child {ℓ} : {A : Type ℓ} → A → Option ℕ → (ℕ → A) → A
at_child d none f = d
at_child d (some j) f = f j

-- The node that a path leads to, from the node `n` on, and its slots.
abbrev pub reach : List TrieNode → ℕ → List Bool → Option ℕ
reach t n [] = some n
reach t n (b ∷ bs) = at_child none (child b (node_at t n)) (λ j. reach t j bs)

abbrev pub slots_at : List TrieNode → ℕ → List Bool → List ℕ
slots_at t n [] = (node_at t n).slots
slots_at t n (b ∷ bs) = at_child [] (child b (node_at t n)) (λ j. slots_at t j bs)

-- What a walk collects of the slots at each path.
abbrev pub along : {A : Type 0} → (List Bool → List A) → List Bool → List A
along f [] = f []
along f (b ∷ bs) = f [] ++ along (λ q. f (b ∷ q)) bs

-- Each node has the path that leads to it as a label, so that no two paths meet.
pub record IsTrie (t : List TrieNode) : Type 0 where
  pub label : ℕ → List Bool
  pub root : label 0 ≡ []
  pub rooted : 0 < length t
  pub children :
      (i j : ℕ) (b : Bool)
      → child b (node_at t i) ≡ some j
      → (j < length t) × (label j ≡ label i ++ b ∷ [])

-- What a growing trie keeps.
pub record IsGrown (t t' : List TrieNode) : Type 0 where
  pub longer : length t ≤ length t'
  pub children :
      (i j : ℕ) (b : Bool) → child b (node_at t i) ≡ some j → child b (node_at t' i) ≡ some j
  pub walks : (q : List Bool) (m : ℕ) → m < length t → slots_at t' m q ≡ slots_at t m q

pub node_at-grow :
    (t : List TrieNode) (n i : ℕ) (b : Bool)
    → n < length t
    → node_at (grow t n b) i
      ≡ (if i == n then with_child b (length t) (node_at t n) else node_at t i)
unfolding grow
node_at-grow t n i b h =
    rw (get_or-append_default (set t n (with_child b (length t) (node_at t n))) i empty_node)
      (get_or-set t n i (with_child b (length t) (node_at t n)) empty_node h)

pub length-grow : (t : List TrieNode) (n : ℕ) (b : Bool) → length (grow t n b) ≡ suc (length t)
unfolding grow
length-grow t n b =
    let v = with_child b (length t) (node_at t n) in
    omega (arith, length-append (set t n v) (empty_node ∷ []), length-set t n v)

pub node_at-push_slot :
    (t : List TrieNode) (n i slot : ℕ)
    → n < length t
    → node_at (push_slot t n slot) i ≡ (
        if i == n
        then record (node_at t n) { slots = (node_at t n).slots ++ slot ∷ [] }
        else node_at t i)
unfolding push_slot
node_at-push_slot t n i slot h = get_or-set t n i _ empty_node h

abbrev pub same_bit : Bool → Bool → Bool
same_bit true c = c
same_bit false true = false
same_bit false false = true

pub same_bit_lem : (b c : Bool) → same_bit b c ≡ true → c ≡ b
same_bit_lem true c h = h
same_bit_lem false true h = cc
same_bit_lem false false h = refl

pub same_bit_refl : (b : Bool) → same_bit b b ≡ true
same_bit_refl true = refl
same_bit_refl false = refl

child-with_child :
    (b c : Bool) (j : ℕ) (n : TrieNode)
    → child c (with_child b j n) ≡ (if same_bit b c then some j else child c n)
child-with_child true true j n = refl
child-with_child true false j n = refl
child-with_child false true j n = refl
child-with_child false false j n = refl

slots-with_child : (b : Bool) (j : ℕ) (n : TrieNode) → (with_child b j n).slots ≡ n.slots
slots-with_child true j n = refl
slots-with_child false j n = refl

pub child-grow :
    (t : List TrieNode) (n i : ℕ) (b c : Bool)
    → n < length t
    → child c (node_at (grow t n b) i)
      ≡ (if i == n && same_bit b c then some (length t) else child c (node_at t i))
child-grow t n i b c h = elim (Bool-cases (i == n)) [
  | inl e ↦
      let f = (==_iff i n).0 e in
      let g : node_at (grow t n b) i ≡ with_child b (length t) (node_at t n) =
        node_at-grow t n i b h ∙ rw e refl in
      ap (child c) g ∙ child-with_child b c (length t) (node_at t n) ∙ rw (e, f) refl
  | inr e ↦
      let g : node_at (grow t n b) i ≡ node_at t i = node_at-grow t n i b h ∙ rw e refl in
      ap (child c) g ∙ rw e refl
]

slots-grow :
    (t : List TrieNode) (n i : ℕ) (b : Bool)
    → n < length t
    → (node_at (grow t n b) i).slots ≡ (node_at t i).slots
slots-grow t n i b h = elim (Bool-cases (i == n)) [
  | inl e ↦
      let f = (==_iff i n).0 e in
      let g : node_at (grow t n b) i ≡ with_child b (length t) (node_at t n) =
        node_at-grow t n i b h ∙ rw e refl in
      ap (λ x. x.slots) g ∙ slots-with_child b (length t) (node_at t n) ∙ rw f refl
  | inr e ↦
      let g : node_at (grow t n b) i ≡ node_at t i = node_at-grow t n i b h ∙ rw e refl in
      ap (λ x. x.slots) g
]

node_at-out : (t : List TrieNode) (i : ℕ) → length t ≤ i → node_at t i ≡ empty_node
node_at-out [] i h = refl
node_at-out (x ∷ t) zero h = absurd (omega arith)
node_at-out (x ∷ t) (suc i) h = node_at-out t i (omega arith)

child-empty : (b : Bool) → child b empty_node ≡ none
child-empty true = refl
child-empty false = refl

pub ne_test : (i n : ℕ) → n < i → (i == n) ≡ false
ne_test i n h = ground arith

-- Only nodes of the trie have children.
pub parent_lt :
    (t : List TrieNode) (i j : ℕ) (b : Bool) → child b (node_at t i) ≡ some j → i < length t
parent_lt t i j b h = elim (dec_lt i (length t)) [
  | yes p ↦ p
  | no p ↦ absurd (
      none-ne-some j
        (sym (child-empty b) ∙ ap (child b) (sym (node_at-out t i (omega (arith, p)))) ∙ h))
]

pub at_child_cong :
    {A : Type 0} (d : A) (o : Option ℕ) (f g : ℕ → A)
    → ((j : ℕ) → o ≡ some j → f j ≡ g j)
    → at_child d o f ≡ at_child d o g
at_child_cong d none f g h = refl
at_child_cong d (some j) f g h = h j refl

slots_at-fresh :
    (t : List TrieNode) (n : ℕ) (q : List Bool) → node_at t n ≡ empty_node → slots_at t n q ≡ []
slots_at-fresh t n [] h = ap (λ x. x.slots) h
slots_at-fresh t n (b ∷ q) h =
    ap (λ o. at_child [] o (λ j. slots_at t j q)) (ap (child b) h ∙ child-empty b)

-- The new node has no slots, so that no path leads to others than before.
slots_at-grow :
    (t : List TrieNode) (w : IsTrie t) (n : ℕ) (b : Bool)
    → n < length t
    → child b (node_at t n) ≡ none
    → (q : List Bool) (m : ℕ) → m < length t
    → slots_at (grow t n b) m q ≡ slots_at t m q
slots_at-grow t w n b h k [] m l = slots-grow t n m b h
slots_at-grow t w n b h k (c ∷ q) m l = elim (Bool-cases (m == n && same_bit b c)) [
  | inl e ↦
      let both = &&-eq-true (m == n) (same_bit b c) e in
      let missing : child c (node_at t m) ≡ none =
        rw ((==_iff m n).0 both.0, same_bit_lem b c both.1) k in
      let grown : child c (node_at (grow t n b) m) ≡ some (length t) =
        child-grow t n m b c h ∙ rw e refl in
      let blank : node_at (grow t n b) (length t) ≡ empty_node =
        node_at-grow t n (length t) b h
        ∙ rw (ne_test (length t) n (omega (arith, h))) (node_at-out t (length t) (omega arith)) in
      ap (λ o. at_child [] o (λ j. slots_at (grow t n b) j q)) grown
      ∙ slots_at-fresh (grow t n b) (length t) q blank
      ∙ sym (ap (λ o. at_child [] o (λ j. slots_at t j q)) missing)
  | inr e ↦
      let same : child c (node_at (grow t n b) m) ≡ child c (node_at t m) =
        child-grow t n m b c h ∙ rw e refl in
      ap (λ o. at_child [] o (λ j. slots_at (grow t n b) j q)) same
      ∙ at_child_cong [] (child c (node_at t m)) _ _
          (λ j g. slots_at-grow t w n b h k q j (w.children m j c g).0)
]

pub grow-IsGrown :
    (t : List TrieNode) (w : IsTrie t) (n : ℕ) (b : Bool)
    → n < length t
    → child b (node_at t n) ≡ none
    → IsGrown t (grow t n b)
grow-IsGrown t w n b h k = record {
  longer = omega (arith, length-grow t n b);
  children = λ i j c g. elim (Bool-cases (i == n && same_bit b c)) [
    | inl e ↦
        let both = &&-eq-true (i == n) (same_bit b c) e in
        let missing : child c (node_at t i) ≡ none =
          rw ((==_iff i n).0 both.0, same_bit_lem b c both.1) k in
        absurd (none-ne-some j (sym missing ∙ g))
    | inr e ↦ child-grow t n i b c h ∙ rw e g
  ];
  walks = slots_at-grow t w n b h k;
}
