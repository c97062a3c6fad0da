-- ===== src/Core/Time/Laws.antt =====
-- A normalised timestamp stands for the same time and has fewer than a billion nanoseconds.
use packet_guard.Base.{
  ℕ, zero, suc, ◌+◌, ◌*◌, ◌/◌, ◌^◌, ◌<◌, ◌≤◌, ◌≡◌, false, leb, ltb, arith, inl, inr, Bool-cases,
}
use packet_guard.Base.Int.{ℤ, pos, negsuc, pos_part, neg_part, ◌+ℤ◌, +ℤ_parts}
use packet_guard.Core.Time.{billion, carry_loop, borrow_loop, normalize_timestamp}

-- Two pairs of seconds and nanoseconds stand for the same time.
abbrev pub SameTime : ℤ × ℤ → ℤ × ℤ → Type 0
SameTime (s, n) (s', n') =
    pos_part s * billion + pos_part n + neg_part s' * billion + neg_part n'
    ≡ pos_part s' * billion + pos_part n' + neg_part s * billion + neg_part n

abbrev pub IsNano : ℤ × ℤ → Type 0
IsNano (s, n) = pos_part n < billion

-- The nanoseconds after one round of each loop.
carried :
    (n : ℤ)
    → billion ≤ pos_part n
    → (pos_part (n +ℤ negsuc 999999999) + billion ≡ pos_part n)
      × (neg_part (n +ℤ negsuc 999999999) ≡ 0)
      × (neg_part n ≡ 0)
unfolding ◌+ℤ◌
carried (pos k) h = ground arith
carried (negsuc k) h = absurd (omega arith)

borrowed :
    (n : ℤ)
    → 0 < neg_part n
    → (pos_part n ≡ 0)
      × (pos_part (n +ℤ pos billion) + neg_part n ≡ neg_part (n +ℤ pos billion) + billion)
      × (pos_part (n +ℤ pos billion) < billion)
      × ((0 < neg_part (n +ℤ pos billion)) → pos_part (n +ℤ pos billion) ≡ 0)
unfolding ◌+ℤ◌
borrowed (pos k) h = absurd (omega arith)
borrowed (negsuc k) h = ground arith

carry_loop_lem :
    (fuel : ℕ) (s n : ℤ)
    → pos_part n < fuel * billion
    → SameTime (s, n) (carry_loop fuel s n) × (pos_part (carry_loop fuel s n).1 < billion)
unfolding carry_loop
carry_loop_lem zero s n h = absurd (omega arith)
carry_loop_lem (suc fuel) s n h = elim (Bool-cases (leb billion (pos_part n))) [
  | inl e ↦
      let c = carried n (ground arith) in
      let (same, small) =
        carry_loop_lem fuel (s +ℤ pos 1) (n +ℤ negsuc 999999999) (omega (arith, c)) in
      rw e (omega (arith, same, c, +ℤ_parts s (pos 1)), small)
  | inr e ↦ rw e (omega arith, ground arith)
]

borrow_loop_lem :
    (fuel : ℕ) (s n : ℤ)
    → pos_part n < billion
    → neg_part n ≤ fuel * billion
    → SameTime (s, n) (borrow_loop (suc fuel) s n)
      × (pos_part (borrow_loop (suc fuel) s n).1 < billion)
      × (neg_part (borrow_loop (suc fuel) s n).1 ≡ 0)
unfolding borrow_loop
borrow_loop_lem zero s n small h =
    let e : ltb 0 (neg_part n) ≡ false = ground arith in rw e (omega arith, small, omega arith)
borrow_loop_lem (suc fuel) s n small h = elim (Bool-cases (ltb 0 (neg_part n))) [
  | inr e ↦ rw e (omega arith, small, ground arith)
  | inl e ↦
      let b = borrowed n (ground arith) in
      let (same, small', whole) =
        borrow_loop_lem fuel (s +ℤ negsuc 0) (n +ℤ pos billion) (b.2) (bound b) in
      rw e (omega (arith, same, b.0, b.1, +ℤ_parts s (negsuc 0)), small', whole)
]
  where
    bound :
        (pos_part n ≡ 0)
          × (pos_part (n +ℤ pos billion) + neg_part n ≡ neg_part (n +ℤ pos billion) + billion)
          × (pos_part (n +ℤ pos billion) < billion)
          × ((0 < neg_part (n +ℤ pos billion)) → pos_part (n +ℤ pos billion) ≡ 0)
        → neg_part (n +ℤ pos billion) ≤ fuel * billion
    bound b = grind (arith, h, b.1, b.3)

normalized :
    (s n : ℤ)
    → let t = normalize_timestamp s n in
      (t.nanos < billion)
      × (pos_part s * billion + pos_part n + neg_part t.seconds * billion
          ≡ pos_part t.seconds * billion + t.nanos + neg_part s * billion + neg_part n)
unfolding normalize_timestamp
normalized s n =
    let (same, small) = carry_loop_lem (pos_part n / billion + 1) s n (omega arith) in
    let c = carry_loop (pos_part n / billion + 1) s n in
    let e : neg_part c.1 / billion + 2 ≡ suc (neg_part c.1 / billion + 1) = omega arith in
    let (same', small', whole) =
      borrow_loop_lem (neg_part c.1 / billion + 1) c.0 c.1 small (omega arith) in
    rw e (small', omega (arith, same, same', whole))

-- A count of `room` off the ends of a 64-bit signed integer.
abbrev pub IsInt64 : ℕ → ℤ → Type 0
IsInt64 room z = (pos_part z + room < 2 ^ 63) × (neg_part z + room ≤ 2 ^ 63)

-- The distance that the nanoseconds can move the seconds is less than 2 ^ 34.
moved-IsInt64 :
    (s n z : ℤ) (nanos : ℕ)
    → IsInt64 (2 ^ 34) s
    → IsInt64 0 n
    → nanos < billion
    → pos_part s * billion + pos_part n + neg_part z * billion
      ≡ pos_part z * billion + nanos + neg_part s * billion + neg_part n
    → IsInt64 0 z
moved-IsInt64 s n (pos k) nanos hs hn small e = (omega arith, omega arith)
moved-IsInt64 s n (negsuc k) nanos hs hn small e = (omega arith, omega arith)

-- For 64-bit signed counts, with the seconds 2 ^ 34 or more off the ends of their range: the
-- nanoseconds end in the range of a second, the time stays the same, and the seconds stay in the
-- range of 64 bits.
pub normalize_timestamp_lem :
    (s n : ℤ)
    → IsInt64 (2 ^ 34) s
    → IsInt64 0 n
    → let t = normalize_timestamp s n in
      (t.nanos < billion)
      × (pos_part s * billion + pos_part n + neg_part t.seconds * billion
          ≡ pos_part t.seconds * billion + t.nanos + neg_part s * billion + neg_part n)
      × IsInt64 0 t.seconds
normalize_timestamp_lem s n hs hn =
    let (small, same) = normalized s n in
    let t = normalize_timestamp s n in
    (small, same, moved-IsInt64 s n t.seconds t.nanos hs hn small same)
