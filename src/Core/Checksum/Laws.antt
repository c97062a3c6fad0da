-- ===== src/Core/Checksum/Laws.antt =====
-- The checksum is the complement of the one's complement sum of the 16-bit words.
use packet_guard.Base.{
  ℕ, suc, ◌+◌, ◌-◌, ◌*◌, ◌/◌, ◌%◌, ◌^◌, ◌≤◌, ◌<◌, bit_and, bit_or, List, [], ◌∷◌, ◌==◌,
  if◌then◌else◌, ◌≡◌, refl, ◌≢◌, ◌↔◌, ◌++◌, arith, All-append, length-append, All, length,
  Bool-cases, inl, inr, ==_iff,
}
use packet_guard.Base.Bits.{bit_or_sum, bit_and_ones}
use packet_guard.Core.ByteView.{ByteView, size, IsView}
use packet_guard.Core.Checksum.{sum_words, fold_loop, internet_checksum}

abbrev pub view_of : ℕ → List ℕ → ByteView
view_of address bytes = record { address = address; bytes = bytes }

-- The sum of the big-endian words, the last one padded with a zero byte.
abbrev pub word_total : List ℕ → ℕ
word_total [] = 0
word_total (b ∷ []) = b * 256
word_total (a ∷ b ∷ rest) = a * 256 + b + word_total rest

word_total-le : (bs : List ℕ) → All (λ b. b < 256) bs → word_total bs ≤ 32768 * length bs + 32768
word_total-le [] h = omega arith
word_total-le (b ∷ []) h = omega arith
word_total-le (a ∷ b ∷ rest) h = omega (arith, word_total-le rest h.1.1)

-- No word is lost where the sum fits 32 bits.
sum_words-total :
    (bs : List ℕ) (sum : ℕ)
    → All (λ b. b < 256) bs
    → sum + word_total bs < 2 ^ 32
    → sum_words sum bs ≡ sum + word_total bs
unfolding sum_words
sum_words-total [] sum h k = omega arith
sum_words-total (b ∷ []) sum h k = omega arith
sum_words-total (a ∷ b ∷ rest) sum h k =
    let e : (sum + bit_or (a * 2 ^ 8) b % 2 ^ 16) % 2 ^ 32 ≡ sum + (a * 256 + b) =
      rw (bit_or_sum 8 a b h.1.0) (omega arith) in
    rw e (omega (arith, sum_words-total rest (sum + (a * 256 + b)) h.1.1 (omega arith)))

fold_step :
    (sum : ℕ)
    → sum < 2 ^ 32
    → (bit_and sum 0xffff + sum / 2 ^ 16) % 2 ^ 32 ≡ sum % 65536 + sum / 65536
fold_step sum h = rw (bit_and_ones 16 sum) (omega arith)

fold_loop_round :
    (fuel sum : ℕ)
    → sum < 2 ^ 32
    → fold_loop (suc fuel) sum
      ≡ (if sum / 65536 == 0 then sum else fold_loop fuel (sum % 65536 + sum / 65536))
unfolding fold_loop
fold_loop_round fuel sum h = rw (fold_step sum h)

-- The end-around carry leaves 16 bits, keeps the value modulo 65535, and gives 0 for 0 alone.
record IsFold (sum folded : ℕ) : Type 0 where
  small : folded < 65536
  same_rest : folded % 65535 ≡ sum % 65535
  zero_only : folded ≡ 0 → sum ≡ 0
  zero_kept : sum ≡ 0 → folded ≡ 0

IsFold-round : (sum folded : ℕ) → IsFold (sum % 65536 + sum / 65536) folded → IsFold sum folded
IsFold-round sum folded f = record {
  small = f.small;
  same_rest = omega (arith, f.same_rest);
  zero_only = λ e. omega (arith, f.zero_only e);
  zero_kept = λ e. f.zero_kept (omega arith);
}

IsFold-done : (sum : ℕ) → sum / 65536 ≡ 0 → IsFold sum sum
IsFold-done sum h = record {
  small = omega arith;
  same_rest = refl;
  zero_only = λ e. e;
  zero_kept = λ e. e;
}

fold_loop-IsFold :
    (fuel sum : ℕ)
    → sum < 2 ^ 32
    → IsFold (sum % 65536 + sum / 65536) (fold_loop fuel (sum % 65536 + sum / 65536))
    → IsFold sum (fold_loop (suc fuel) sum)
fold_loop-IsFold fuel sum h next =
    rw (fold_loop_round fuel sum h) (elim (Bool-cases (sum / 65536 == 0)) [
      | inl e ↦ rw e (IsFold-done sum (ground arith))
      | inr e ↦ rw e (IsFold-round sum _ next)
    ])

fold_loop_three : (sum : ℕ) → sum < 2 ^ 32 → IsFold sum (fold_loop 3 sum)
fold_loop_three sum h =
    let s₁ = sum % 65536 + sum / 65536 in
    let s₂ = s₁ % 65536 + s₁ / 65536 in
    let e : s₂ / 65536 ≡ 0 = omega arith in
    fold_loop-IsFold 2 sum h (
      fold_loop-IsFold 1 s₁ (omega arith)
        (rw (fold_loop_round 0 s₂ (omega arith), (==_iff (s₂ / 65536) 0).1 e) (IsFold-done s₂ e)))

checksum_of_IsFold :
    (v : ByteView) (initial : ℕ)
    → IsView v
    → initial < 2 ^ 31
    → size v < 2 ^ 16
    → (folded : ℕ) × IsFold (initial + word_total v.bytes) folded
      × (internet_checksum v initial ≡ 65535 - folded)
unfolding internet_checksum
checksum_of_IsFold v initial w h k =
    let fits : initial + word_total v.bytes < 2 ^ 32 =
      omega (arith, word_total-le v.bytes w.octets) in
    let f = fold_loop_three (initial + word_total v.bytes) fits in
    (
      fold_loop 3 (initial + word_total v.bytes),
      f,
      rw (sum_words-total v.bytes initial w.octets fits) (omega (arith, f.small)),
    )

complement_zero :
    (sum folded : ℕ) → IsFold sum folded → (65535 - folded ≡ 0) ↔ ((sum % 65535 ≡ 0) × (sum ≢ 0))
complement_zero sum folded f = (
  λ z. (omega (arith, f.small, f.same_rest), λ n. omega (arith, f.zero_kept n)),
  λ c. elim (Bool-cases (folded == 0)) [
    | inl e ↦ absurd (c.1 (f.zero_only ((==_iff folded 0).0 e)))
    | inr e ↦ let ne : folded ≢ 0 = ground arith in omega (arith, f.small, f.same_rest, c.0, ne)
  ],
)

-- Over a view of fewer than 65536 bytes the checksum is 0 exactly when the sum of the words and
-- the initial value, below 2 ^ 31, is a multiple of 65535 other than 0.
pub internet_checksum-eq-zero_iff :
    (v : ByteView) (initial : ℕ)
    → IsView v
    → initial < 2 ^ 31
    → size v < 2 ^ 16
    → (internet_checksum v initial ≡ 0)
      ↔ (((initial + word_total v.bytes) % 65535 ≡ 0) × (initial + word_total v.bytes ≢ 0))
internet_checksum-eq-zero_iff v initial w h k =
    let (folded, f, e) = checksum_of_IsFold v initial w h k in rw e (complement_zero _ folded f)

word_total-append_even :
    (front back : List ℕ)
    → length front % 2 ≡ 0
    → word_total (front ++ back) ≡ word_total front + word_total back
word_total-append_even [] back h = omega arith
word_total-append_even (a ∷ []) back h = absurd (omega arith)
word_total-append_even (a ∷ b ∷ front) back h =
    omega (arith, word_total-append_even front back (omega arith))

-- In a view with an address, of fewer than 65536 bytes in all, each below 256: a checksum field that
-- was 0 and is then set to the checksum, at an even place, makes the checksum of the whole 0, as the
-- receiver of a header tests.
pub internet_checksum_verifies :
    (address : ℕ) (front back : List ℕ) (sum : ℕ)
    → address ≢ 0
    → length front % 2 ≡ 0
    → length front + length back + 2 < 2 ^ 16
    → All (λ b. b < 256) front
    → All (λ b. b < 256) back
    → internet_checksum (view_of address (front ++ (0 ∷ 0 ∷ back))) 0 ≡ sum
    → internet_checksum (view_of address (front ++ ((sum / 256) ∷ (sum % 256) ∷ back))) 0 ≡ 0
internet_checksum_verifies address front back sum placed even fits hf hb e =
    let before =
      checksum_of_IsFold (view_of address (front ++ (0 ∷ 0 ∷ back))) 0
        (is_view 0 0 (omega arith) (omega arith)) (omega arith) (short 0 0) in
    let (folded, f, c) = before in
    let t = word_total-append_even front (0 ∷ 0 ∷ back) even in
    let t' = word_total-append_even front ((sum / 256) ∷ (sum % 256) ∷ back) even in
    let small : sum ≤ 65535 = omega (arith, c, e) in
    (internet_checksum-eq-zero_iff (view_of address (front ++ ((sum / 256) ∷ (sum % 256) ∷ back))) 0
        (is_view (sum / 256) (sum % 256) (omega arith) (omega arith)) (omega arith) (short _ _)).1
      (
        omega (arith, c, e, t, t', f.small, f.same_rest),
        λ z. omega (arith, c, e, t, t', f.zero_kept (omega (arith, t, t'))),
      )
  where
    is_view : (x y : ℕ) → x < 256 → y < 256 → IsView (view_of address (front ++ (x ∷ y ∷ back)))
    is_view x y p q = record {
      placed = λ z. absurd (placed z);
      octets = All-append (λ b. b < 256) front (x ∷ y ∷ back) hf (p, (q, hb));
    }

    short : (x y : ℕ) → length (front ++ (x ∷ y ∷ back)) < 2 ^ 16
    short x y = omega (arith, length-append front (x ∷ y ∷ back))
