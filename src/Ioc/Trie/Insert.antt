-- ===== src/Ioc/Trie/Insert.antt =====
-- The way to the node of a path, whose missing nodes an insertion adds.
use packet_guard.Base.{
  ℕ, ◌<◌, ◌≡◌, refl, sym, ap, ◌∙◌, arith, Bool, false, ◌&&◌, &&-eq-true, List, [], ◌∷◌, ◌++◌, some,
  none, ◌==◌, ==_iff, if◌then◌else◌, length, Bool-cases, Option-cases, inl, inr, subst,
}
use mathlib.Core.Option.{some-injective}
use packet_guard.Ioc.Trie.{TrieNode, child, node_at, grow, insert_path}
use packet_guard.Ioc.Trie.Walks.{
  at_child, reach, IsTrie, IsGrown, length-grow, child-grow, grow-IsGrown, same_bit, same_bit_lem,
  same_bit_refl, parent_lt,
}

abbrev grown_label : List TrieNode → (ℕ → List Bool) → ℕ → Bool → ℕ → List Bool
grown_label t label n b i = if i == length t then label n ++ b ∷ [] else label i

old_label :
    (t : List TrieNode) (label : ℕ → List Bool) (n : ℕ) (b : Bool) (i : ℕ)
    → i < length t
    → grown_label t label n b i ≡ label i
old_label t label n b i h = let e : (i == length t) ≡ false = ground arith in rw e refl

grow-IsTrie :
    (t : List TrieNode) (w : IsTrie t) (n : ℕ) (b : Bool) → n < length t → IsTrie (grow t n b)
grow-IsTrie t w n b h = record {
  label = grown_label t w.label n b;
  root = old_label t w.label n b 0 w.rooted ∙ w.root;
  rooted = omega (arith, length-grow t n b);
  children = λ i j c g. elim (Bool-cases (i == n && same_bit b c)) [
    | inl e ↦
        let both = &&-eq-true (i == n) (same_bit b c) e in
        let at : j ≡ length t =
          some-injective j (length t) (sym g ∙ child-grow t n i b c h ∙ rw e refl) in
        (
          omega (arith, length-grow t n b, at),
          rw
              (
                at,
                (==_iff i n).0 both.0,
                same_bit_lem b c both.1,
                old_label t w.label n b n h,
                (==_iff (length t) (length t)).1 refl,
              )
              refl,
        )
    | inr e ↦
        let old : child c (node_at t i) ≡ some j = sym (child-grow t n i b c h ∙ rw e refl) ∙ g in
        let (l, f) = w.children i j c old in
        (
          omega (arith, length-grow t n b, l),
          old_label t w.label n b j l
              ∙ f
              ∙ ap (λ q. q ++ c ∷ []) (sym (old_label t w.label n b i (parent_lt t i j c old))),
        )
  ];
}

IsGrown-trans : (t u v : List TrieNode) → IsGrown t u → IsGrown u v → IsGrown t v
IsGrown-trans t u v a b = record {
  longer = omega (arith, a.longer, b.longer);
  children = λ i j c g. b.children i j c (a.children i j c g);
  walks = λ q m l. b.walks q m (omega (arith, a.longer, l)) ∙ a.walks q m l;
}

-- What the loop over the bits leaves: a larger trie, in which the path leads to the node returned.
abbrev pub Inserted : List TrieNode → ℕ → List Bool → List TrieNode → ℕ → Type 0
Inserted t n p t' k = IsTrie t' × IsGrown t t' × (reach t' n p ≡ some k) × (k < length t')

pub insert_path-found :
    (t : List TrieNode) (n j : ℕ) (b : Bool) (p : List Bool)
    → child b (node_at t n) ≡ some j
    → insert_path t n (b ∷ p) ≡ insert_path t j p
unfolding insert_path
insert_path-found t n j b p e = rw (e, insert_path) refl

pub insert_path-missing :
    (t : List TrieNode) (n : ℕ) (b : Bool) (p : List Bool)
    → child b (node_at t n) ≡ none
    → insert_path t n (b ∷ p) ≡ insert_path (grow t n b) (length t) p
unfolding insert_path
insert_path-missing t n b p e = rw (e, insert_path) refl

pub insert_path-nil : (t : List TrieNode) (n : ℕ) → insert_path t n [] ≡ (t, n)
unfolding insert_path
insert_path-nil t n = refl

pub insert_path-Inserted :
    (p : List Bool) (t : List TrieNode) (w : IsTrie t) (n : ℕ)
    → n < length t
    → Inserted t n p (insert_path t n p).0 (insert_path t n p).1
insert_path-Inserted [] t w n h =
    subst (λ r. Inserted t n [] r.0 r.1) (sym (insert_path-nil t n))
      (w, record { longer = omega arith; children = λ i j c g. g; walks = λ q m l. refl }, refl, h)
insert_path-Inserted (b ∷ p) t w n h = elim (Option-cases (child b (node_at t n))) [
  | inr (j, e) ↦
      let (w', g, r, l) = insert_path-Inserted p t w j (w.children n j b e).0 in
      subst (λ r. Inserted t n (b ∷ p) r.0 r.1) (sym (insert_path-found t n j b p e))
        (
          w',
          g,
          ap (λ o. at_child none o (λ i. reach (insert_path t j p).0 i p)) (g.children n j b e) ∙ r,
          l,
        )
  | inl e ↦
      let u = grow t n b in
      let (w', g, r, l) =
        insert_path-Inserted p u (grow-IsTrie t w n b h) (length t)
          (omega (arith, length-grow t n b)) in
      let linked : child b (node_at u n) ≡ some (length t) =
        child-grow t n n b b h ∙ rw ((==_iff n n).1 refl, same_bit_refl b) refl in
      subst (λ r. Inserted t n (b ∷ p) r.0 r.1) (sym (insert_path-missing t n b p e))
        (
          w',
          IsGrown-trans t u (insert_path u (length t) p).0 (grow-IsGrown t w n b h e) g,
          ap (λ o. at_child none o (λ i. reach (insert_path u (length t) p).0 i p))
                (g.children n (length t) b linked)
              ∙ r,
          l,
        )
]
