-- ===== src/Base/Maps.antt =====
-- A `std::map` as an association list, by a test of its keys. The order of the keys matters only to a
-- loop over the whole map, which sorts them.
use mathlib.Core.Bool.{Bool, true, false}
use mathlib.Core.List.{List, [], ◌∷◌, ◌++◌}
use mathlib.Core.Logic.{◌↔◌, inl, inr}
use mathlib.Core.Option.{Option, none, some}
use mathlib.Core.Path.{◌≡◌, refl, sym, ap, ◌∙◌}
use Prim.Native.Nat.{ℕ}
use packet_guard.Base.Tests.{if◌then◌else◌, Bool-cases}
use packet_guard.Base.Lists.{All}

module _ {K A : Type 0} (same : K → K → Bool) where
  -- `m.find(key)`
  abbrev pub find_at : K → List (K × A) → Option A
  find_at key [] = none
  find_at key ((k, v) ∷ rest) =
      let others = find_at key rest in if same key k then some v else others

  -- `m[key] = v`
  abbrev pub assign : K → A → List (K × A) → List (K × A)
  assign key v [] = (key, v) ∷ []
  assign key v ((k, w) ∷ rest) =
      let others = assign key v rest in if same key k then (k, v) ∷ rest else (k, w) ∷ others

-- The entries of a map in the order of their keys.
module _ {K A : Type 0} (before : K → K → Bool) where
  abbrev insert_entry : K × A → List (K × A) → List (K × A)
  insert_entry e [] = e ∷ []
  insert_entry e (m ∷ rest) =
      let others = insert_entry e rest in if before m.0 e.0 then m ∷ others else e ∷ m ∷ rest

  abbrev pub in_order : List (K × A) → List (K × A)
  in_order [] = []
  in_order (e ∷ rest) = insert_entry e (in_order rest)

  All-insert_entry :
      (P : K × A → Type 0) (e : K × A) (m : List (K × A)) → P e → All P m → All P (insert_entry e m)
  All-insert_entry P e [] h a = (h, tt)
  All-insert_entry P e (x ∷ rest) h a = elim (Bool-cases (before x.0 e.0)) [
    | inl f ↦ rw f (a.0, All-insert_entry P e rest h a.1)
    | inr f ↦ rw f (h, a)
  ]

  pub All-in_order : (P : K × A → Type 0) (m : List (K × A)) → All P m → All P (in_order m)
  All-in_order P [] a = tt
  All-in_order P (e ∷ rest) a = All-insert_entry P e (in_order rest) a.0 (All-in_order P rest a.1)

module _ {K : Type 0} (same : K → K → Bool) where
  -- `m[key].push_back(i)`, and the indices at a key, none where the key is missing.
  abbrev pub push_index : K → ℕ → List (K × List ℕ) → List (K × List ℕ)
  push_index key i [] = (key, i ∷ []) ∷ []
  push_index key i ((k, is) ∷ rest) =
      let others = push_index key i rest in
      if same key k then (k, is ++ i ∷ []) ∷ rest else (k, is) ∷ others

  abbrev pub indices_at : K → List (K × List ℕ) → List ℕ
  indices_at key [] = []
  indices_at key ((k, is) ∷ rest) =
      let others = indices_at key rest in if same key k then is else others

module _ {K : Type 0} (same : K → K → Bool)
    (same_iff : (a b : K) → (same a b ≡ true) ↔ (a ≡ b)) where
  same_swap : (a b : K) → same a b ≡ true → same b a ≡ true
  same_swap a b h = (same_iff b a).1 (sym ((same_iff a b).0 h))

  pub same_sym : (a b : K) → same a b ≡ same b a
  same_sym a b = elim (Bool-cases (same a b)) [
    | inl e ↦ e ∙ sym (same_swap a b e)
    | inr e ↦ elim (Bool-cases (same b a)) [ inl f ↦ same_swap b a f ∙ sym f | inr f ↦ e ∙ sym f ]
  ]

  pub indices_at-push_index :
      (key added : K) (i : ℕ) (index : List (K × List ℕ))
      → indices_at same key (push_index same added i index) ≡ (
          if same added key then indices_at same key index ++ i ∷ [] else indices_at same key index)
  indices_at-push_index key added i [] = rw (same_sym key added) refl
  indices_at-push_index key added i ((k, is) ∷ rest) = elim (Bool-cases (same added k)) [
    | inl e ↦
        let f : same added key ≡ same key k =
          ap (λ t. same t key) ((same_iff added k).0 e) ∙ same_sym k key in
        rw (e, f) (elim (Bool-cases (same key k)) [ inl g ↦ rw g refl | inr g ↦ rw g refl ])
    | inr e ↦ rw e (elim (Bool-cases (same key k)) [
      | inl g ↦
          let f : same added key ≡ false = ap (λ t. same added t) ((same_iff key k).0 g) ∙ e in
          rw (g, f) refl
      | inr g ↦ rw g (indices_at-push_index key added i rest)
    ])
  ]

  pub find_at-assign :
      {A : Type 0} (key added : K) (v : A) (m : List (K × A))
      → find_at same key (assign same added v m)
        ≡ (if same added key then some v else find_at same key m)
  find_at-assign key added v [] = rw (same_sym key added) refl
  find_at-assign key added v ((k, w) ∷ rest) = elim (Bool-cases (same added k)) [
    | inl e ↦
        let f : same added key ≡ same key k =
          ap (λ t. same t key) ((same_iff added k).0 e) ∙ same_sym k key in
        rw (e, f) (elim (Bool-cases (same key k)) [ inl g ↦ rw g refl | inr g ↦ rw g refl ])
    | inr e ↦ rw e (elim (Bool-cases (same key k)) [
      | inl g ↦
          let f : same added key ≡ false = ap (λ t. same added t) ((same_iff key k).0 g) ∙ e in
          rw (g, f) refl
      | inr g ↦ rw g (find_at-assign key added v rest)
    ])
  ]

  -- A property of all entries is kept by an assignment that has it.
  pub All-assign :
      {A : Type 0} (P : K × A → Type 0) (key : K) (v : A) (m : List (K × A))
      → ((k : K) → same key k ≡ true → P (k, v))
      → All P m
      → All P (assign same key v m)
  All-assign P key v [] h a = (h key ((same_iff key key).1 refl), tt)
  All-assign P key v ((k, w) ∷ rest) h a = elim (Bool-cases (same key k)) [
    | inl e ↦ rw e (h k e, a.1)
    | inr e ↦ rw e (a.0, All-assign P key v rest h a.1)
  ]
