-- ===== src/Ioc/Trie/Bits.antt =====
-- The path of a range, by arithmetic: two paths are equal when the addresses agree on their first bits.
use native.Mathlib.Nat.{div-div-eq-div-mul}
use packet_guard.Base.{
  ℕ, zero, suc, ◌+◌, ◌-◌, ◌/◌, ◌%◌, ◌^◌, ◌≤◌, ◌<◌, ◌≡◌, refl, sym, ap, ap₂, ◌∙◌, arith, Bool, not,
  ◌∷◌, ◌==◌, length, take, ◌↔◌, subst,
}
use packet_guard.Base.Bits.{bit_and_ones, pow-add}
use packet_guard.Ioc.Trie.{bit_of, path_bits}
use mathlib.Core.List.{head-eq_of_cons-eq, tail-eq_of_cons-eq}

pub length-path_bits : (v n bit : ℕ) → length (path_bits v bit n) ≡ n
length-path_bits v zero bit = refl
length-path_bits v (suc n) bit = ap suc (length-path_bits v n (suc bit))

odd : ℕ → Bool
odd n = not (n % 2 == 0)

bit_of-odd : (v bit : ℕ) → bit_of v bit ≡ odd (v / 2 ^ (31 - bit))
unfolding odd
bit_of-odd v bit = rw (bit_and_ones 1 (v / 2 ^ (31 - bit))) refl

halves : (m n : ℕ) → m / 2 ≡ n / 2 → odd m ≡ odd n → m ≡ n
unfolding odd
halves m n h k = ground arith

-- A shift by more bits is a shift of a shift.
shift_more : (v e d : ℕ) → v / 2 ^ (e + d) ≡ v / 2 ^ e / 2 ^ d
shift_more v e d = rw (pow-add e d) (sym (div-div-eq-div-mul v (2 ^ e) (2 ^ d)))

same_shift : (a b e f : ℕ) → e ≤ f → a / 2 ^ e ≡ b / 2 ^ e → a / 2 ^ f ≡ b / 2 ^ f
same_shift a b e f h k =
    let split : f ≡ e + (f - e) = omega (arith, h) in
    rw (split, shift_more a e (f - e), shift_more b e (f - e), k) refl

same_bits :
    (a b n bit : ℕ)
    → bit + n ≤ 32
    → a / 2 ^ (32 - bit) ≡ b / 2 ^ (32 - bit)
    → path_bits a bit n ≡ path_bits b bit n
    → a / 2 ^ (32 - (bit + n)) ≡ b / 2 ^ (32 - (bit + n))
same_bits a b zero bit h k e = let whole : bit + 0 ≡ bit = omega arith in rw whole k
same_bits a b (suc n) bit h k e =
    let next : bit + suc n ≡ suc bit + n = omega arith in
    let wider : 32 - bit ≡ (31 - bit) + 1 = omega (arith, h) in
    let left : 32 - suc bit ≡ 31 - bit = omega arith in
    let halved : a / 2 ^ (31 - bit) / 2 ≡ b / 2 ^ (31 - bit) / 2 =
      sym (shift_more a (31 - bit) 1) ∙ (rw (← wider) k) ∙ shift_more b (31 - bit) 1 in
    let lows : odd (a / 2 ^ (31 - bit)) ≡ odd (b / 2 ^ (31 - bit)) =
      sym (bit_of-odd a bit) ∙ head-eq_of_cons-eq e ∙ bit_of-odd b bit in
    rw next (
      same_bits a b n (suc bit) (omega (arith, h)) (rw left (halves _ _ halved lows))
        (tail-eq_of_cons-eq e))

bits_same :
    (a b n bit : ℕ)
    → bit + n ≤ 32
    → a / 2 ^ (32 - (bit + n)) ≡ b / 2 ^ (32 - (bit + n))
    → path_bits a bit n ≡ path_bits b bit n
bits_same a b zero bit h k = refl
bits_same a b (suc n) bit h k =
    let next : bit + suc n ≡ suc bit + n = omega arith in
    let here : a / 2 ^ (31 - bit) ≡ b / 2 ^ (31 - bit) =
      same_shift a b (32 - (bit + suc n)) (31 - bit) (omega (arith, h)) k in
    let rest : a / 2 ^ (32 - (suc bit + n)) ≡ b / 2 ^ (32 - (suc bit + n)) = rw (← next) k in
    let first : bit_of a bit ≡ bit_of b bit =
      bit_of-odd a bit ∙ ap odd here ∙ sym (bit_of-odd b bit) in
    ap₂ (λ c q. c ∷ q) first (bits_same a b n (suc bit) (omega (arith, h)) rest)

word_shifted : (a : ℕ) → a < 2 ^ 32 → a / 2 ^ 32 ≡ 0
word_shifted a h = omega (arith, h)

-- Two addresses have a path of `n` bits in common when they agree without the other bits.
pub path_bits_iff :
    (a b n : ℕ)
    → n ≤ 32
    → a < 2 ^ 32
    → b < 2 ^ 32
    → (path_bits a 0 n ≡ path_bits b 0 n) ↔ (a / 2 ^ (32 - n) ≡ b / 2 ^ (32 - n))
path_bits_iff a b n h k l =
    let start : 0 + n ≡ n = omega arith in
    let agree = λ (m : ℕ). a / 2 ^ (32 - m) ≡ b / 2 ^ (32 - m) in
    (
      λ e.
          subst agree start
            (same_bits a b n 0 (omega (arith, h)) (word_shifted a k ∙ sym (word_shifted b l)) e),
      λ e. bits_same a b n 0 (omega (arith, h)) (subst agree (sym start) e),
    )

pub take-path_bits : (v n k bit : ℕ) → k ≤ n → take k (path_bits v bit n) ≡ path_bits v bit k
take-path_bits v n zero bit h = refl
take-path_bits v zero (suc k) bit h = absurd (omega arith)
take-path_bits v (suc n) (suc k) bit h =
    ap (λ q. bit_of v bit ∷ q) (take-path_bits v n k (suc bit) (omega (arith, h)))
