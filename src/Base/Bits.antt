-- ===== src/Base/Bits.antt =====
-- Laws of `&` and `|` at variables, for the shifts and masks of the sources, at every width.
use Prim.Native.Nat.{
  ℕ, zero, suc, ◌+◌, ◌-◌, ◌*◌, ◌/◌, ◌%◌, ◌^◌, ◌≤◌, ◌<◌, min, max, bit_and, bit_or, digits, bitwise,
  bit_and-bitwise, bit_or-bitwise,
}
use mathlib.Core.Bool.{Bool, true, ◌&&◌}
use mathlib.Core.Path.{◌≡◌, refl, ap, ◌∙◌}
use native.Mathlib.Nat.{
  pow-suc, one-le-pow, add-zero, add-suc, mul-one, mul_comm, div-div-eq-div-mul,
}
use native.Mathlib.Omega.{arith}

-- Over a small range, check every value by evaluation.
abbrev pub all_below : ℕ → (ℕ → Bool) → Bool
all_below zero p = true
all_below (suc n) p = p n && all_below n p

pub all_below_sound : (n : ℕ) (p : ℕ → Bool) (x : ℕ) → all_below n p ≡ true → x < n → p x ≡ true
all_below_sound zero p x h lt = absurd (omega arith)
all_below_sound (suc n) p x h lt = ground (arith, all_below_sound n p x)

-- One binary digit at a time: the recursion that the native operations stand for, without its fuel.
module _ (base : ℕ → ℕ) (digit : ℕ → ℕ → ℕ) where
  enough_fuel : (k n a b : ℕ) → a ≤ k → a ≤ n → digits base digit k a b ≡ digits base digit n a b
  enough_fuel zero zero zero b p q = refl
  enough_fuel zero (suc n) zero b p q = refl
  enough_fuel (suc k) zero zero b p q = refl
  enough_fuel (suc k) (suc n) zero b p q = refl
  enough_fuel zero n (suc a) b p q = absurd (omega arith)
  enough_fuel (suc k) zero (suc a) b p q = absurd (omega arith)
  enough_fuel (suc k) (suc n) (suc a) b p q =
      rw (enough_fuel k n (suc a / 2) (b / 2) (omega arith) (omega arith))

  lowest_digit :
      (a b : ℕ)
      → bitwise base digit (suc a) b
        ≡ bitwise base digit (suc a / 2) (b / 2) * 2 + digit (suc a % 2) (b % 2)
  lowest_digit a b =
      omega (arith, enough_fuel a (suc a / 2) (suc a / 2) (b / 2) (omega arith) (omega arith))

bit_or-zero_left : (b : ℕ) → bit_or 0 b ≡ b
bit_or-zero_left b = bit_or-bitwise 0 b

bit_and-zero_left : (b : ℕ) → bit_and 0 b ≡ 0
bit_and-zero_left b = bit_and-bitwise 0 b

pub bit_or_digit : (a b : ℕ) → bit_or a b ≡ bit_or (a / 2) (b / 2) * 2 + max (a % 2) (b % 2)
bit_or_digit zero b = omega (arith, bit_or-zero_left b, bit_or-zero_left (b / 2))
bit_or_digit (suc a) b = omega (
  arith,
  bit_or-bitwise (suc a) b,
  bit_or-bitwise (suc a / 2) (b / 2),
  lowest_digit (λ y. y) max a b,
)

pub bit_and_digit : (a b : ℕ) → bit_and a b ≡ bit_and (a / 2) (b / 2) * 2 + min (a % 2) (b % 2)
bit_and_digit zero b = omega (arith, bit_and-zero_left b, bit_and-zero_left (b / 2))
bit_and_digit (suc a) b = omega (
  arith,
  bit_and-bitwise (suc a) b,
  bit_and-bitwise (suc a / 2) (b / 2),
  lowest_digit (λ y. zero) min a b,
)

-- Halving `n` times reaches 0 when `n` is at least the number.
bit_or-zero_below : (n a : ℕ) → a ≤ n → bit_or a 0 ≡ a
bit_or-zero_below n zero h = refl
bit_or-zero_below zero (suc a) h = absurd (omega arith)
bit_or-zero_below (suc n) (suc a) h =
    omega (arith, bit_or_digit (suc a) 0, bit_or-zero_below n (suc a / 2) (omega arith))

bit_and-zero_below : (n a : ℕ) → a ≤ n → bit_and a 0 ≡ 0
bit_and-zero_below n zero h = refl
bit_and-zero_below zero (suc a) h = absurd (omega arith)
bit_and-zero_below (suc n) (suc a) h =
    omega (arith, bit_and_digit (suc a) 0, bit_and-zero_below n (suc a / 2) (omega arith))

pub bit_and-zero : (a : ℕ) → bit_and a 0 ≡ 0
bit_and-zero a = bit_and-zero_below a a (omega arith)

double_power : (q k : ℕ) → q * 2 ^ suc k ≡ 2 * (q * 2 ^ k)
double_power q k = omega (arith, ap (λ (t : ℕ). q * t) (pow-suc 2 k))

pub pow-add : (m n : ℕ) → 2 ^ (m + n) ≡ 2 ^ m * 2 ^ n
pow-add m zero = rw (add-zero m) (omega arith)
pow-add m (suc n) =
    rw (add-suc m n) (omega (arith, pow-suc 2 (m + n), pow-add m n, double_power (2 ^ m) n))

-- `(q << k) | r` is a sum when `r` has `k` bits.
pub bit_or_sum : (k q r : ℕ) → r < 2 ^ k → bit_or (q * 2 ^ k) r ≡ q * 2 ^ k + r
bit_or_sum zero q zero h = ground (arith, bit_or-zero_below q q)
bit_or_sum zero q (suc r) h = absurd (omega arith)
bit_or_sum (suc k) q r h = ground (
  arith,
  double_power q k,
  bit_or_digit (q * 2 ^ suc k) r,
  bit_or_sum k q (r / 2) (omega (arith, pow-suc 2 k)),
)

half_power : (a k : ℕ) → a / 2 ^ suc k ≡ a / 2 / 2 ^ k
half_power a k = rw (pow-suc 2 k, mul_comm (2 ^ k) 2) (rw (div-div-eq-div-mul a 2 (2 ^ k)))

-- `a & (m << k)` keeps what `m` keeps of the bits from `k` on.
pub bit_and_shifted : (k a m : ℕ) → bit_and a (m * 2 ^ k) ≡ bit_and (a / 2 ^ k) m * 2 ^ k
bit_and_shifted zero a m = let e : a / 1 ≡ a = omega arith in rw e (simp mul-one)
bit_and_shifted (suc k) a m = ground (
  arith,
  double_power m k,
  double_power (bit_and (a / 2 ^ suc k) m) k,
  bit_and_digit a (m * 2 ^ suc k),
  bit_and_shifted k (a / 2) m,
  half_power a k,
)

-- A mask of `k` ones keeps the last `k` digits.
low_digits : (k q r : ℕ) → r < 2 ^ k → bit_and (q * 2 ^ k + r) (2 ^ k - 1) ≡ r
low_digits zero q r h = rw bit_and-zero (omega arith)
low_digits (suc k) q r h = ground (
  arith,
  bit_and_digit (q * 2 ^ suc k + r) (2 ^ suc k - 1),
  low_digits k q (r / 2),
  double_power q k,
  pow-suc 2 k,
)

pub bit_and_ones : (k a : ℕ) → bit_and a (2 ^ k - 1) ≡ a % 2 ^ k
bit_and_ones k a = ground (arith, low_digits k (a / 2 ^ k) (a % 2 ^ k), one-le-pow k 2)

bit_or_comm_below : (n a b : ℕ) → a ≤ n → b ≤ n → bit_or a b ≡ bit_or b a
bit_or_comm_below zero zero zero h k = refl
bit_or_comm_below zero (suc a) b h k = absurd (omega arith)
bit_or_comm_below zero zero (suc b) h k = absurd (omega arith)
bit_or_comm_below (suc n) a b h k = omega (
  arith,
  bit_or_digit a b,
  bit_or_digit b a,
  bit_or_comm_below n (a / 2) (b / 2) (omega arith) (omega arith),
)

-- `r | (q << k)`, the low bits first.
pub bit_or_sum_right : (k q r : ℕ) → r < 2 ^ k → bit_or r (q * 2 ^ k) ≡ q * 2 ^ k + r
bit_or_sum_right k q r h =
    bit_or_comm_below (r + q * 2 ^ k) r (q * 2 ^ k) (omega arith) (omega arith) ∙ bit_or_sum k q r h
