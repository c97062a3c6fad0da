-- ===== src/Core/Time.antt =====
-- include/core/time.hpp and `normalize_timestamp` of src/core/time.cpp. The 64-bit counts are
-- integers: an overflow is undefined in C++, and the theorem asks for counts that do not come near it.
pub mod Laws
use packet_guard.Base.{ℕ, zero, suc, ◌+◌, ◌/◌, Bool, leb, ltb, if◌then◌else◌}
use packet_guard.Base.Int.{ℤ, pos, negsuc, pos_part, neg_part, ◌+ℤ◌}

pub record Timestamp : Type 0 where
  pub seconds : ℤ
  pub nanos : ℕ

abbrev pub billion : ℕ
billion = 1000000000

-- The two loops, on the seconds and the nanoseconds. A round takes a billion off the distance to
-- the range, so the quotient and one more rounds are enough.
unfoldable pub carry_loop : ℕ → ℤ → ℤ → ℤ × ℤ
unfolding ◌+ℤ◌
carry_loop zero s n = (s, n)
carry_loop (suc fuel) s n =
    let rest = carry_loop fuel (s +ℤ pos 1) (n +ℤ negsuc 999999999) in
    if leb billion (pos_part n) then rest else (s, n)

unfoldable pub borrow_loop : ℕ → ℤ → ℤ → ℤ × ℤ
unfolding ◌+ℤ◌
borrow_loop zero s n = (s, n)
borrow_loop (suc fuel) s n =
    let rest = borrow_loop fuel (s +ℤ negsuc 0) (n +ℤ pos billion) in
    if ltb 0 (neg_part n) then rest else (s, n)

unfoldable pub normalize_timestamp : ℤ → ℤ → Timestamp
unfolding carry_loop borrow_loop
normalize_timestamp seconds fractional_nanos =
    let (s, n) = carry_loop (pos_part fractional_nanos / billion + 1) seconds fractional_nanos in
    let (s', n') = borrow_loop (neg_part n / billion + 2) s n in
    record { seconds = s'; nanos = pos_part n' }
