-- ===== src/Core/ByteReader.antt =====
-- The class `ByteReader` of include/core/byte_view.hpp and src/core/byte_view.cpp. A call returns
-- its result and the reader that it leaves.
pub mod Laws
use packet_guard.Base.{ℕ, ◌+◌, ◌-◌, ◌%◌, ◌^◌, min, Bool, leb, if◌then◌else◌}
use packet_guard.Core.ByteView.{
  ByteView, size, load, slice, read_be16, read_be32, read_le16, read_le32,
}
use packet_guard.Core.Result.{Result, fail, is_ok}

pub record ByteReader : Type 0 where
  pub view : ByteView
  pub offset : ℕ

abbrev pub reader : ByteView → ByteReader
reader v = record { view = v; offset = 0 }

unfoldable pub remaining : ByteReader → ℕ
remaining r = if leb r.offset (size r.view) then size r.view - r.offset else 0

unfoldable pub can_read : ByteReader → ℕ → Bool
unfolding remaining
can_read r count = leb count (remaining r)

abbrev move : ByteReader → ℕ → ByteReader
move r n = record r { offset = r.offset + n }

unfoldable pub read_u8 : ByteReader → Result ℕ × ByteReader
unfolding can_read load
read_u8 r = if can_read r 1 then (load r.view r.offset, move r 1) else (fail "short read for u8", r)

unfoldable pub next_be16 : ByteReader → Result ℕ × ByteReader
unfolding can_read read_be16
next_be16 r =
    if can_read r 2 then (read_be16 r.view r.offset, move r 2) else (fail "short read for be16", r)

unfoldable pub next_be32 : ByteReader → Result ℕ × ByteReader
unfolding can_read read_be32
next_be32 r =
    if can_read r 4 then (read_be32 r.view r.offset, move r 4) else (fail "short read for be32", r)

unfoldable pub next_le16 : ByteReader → Result ℕ × ByteReader
unfolding can_read read_le16
next_le16 r =
    if can_read r 2 then (read_le16 r.view r.offset, move r 2) else (fail "short read for le16", r)

unfoldable pub next_le32 : ByteReader → Result ℕ × ByteReader
unfolding can_read read_le32
next_le32 r =
    if can_read r 4 then (read_le32 r.view r.offset, move r 4) else (fail "short read for le32", r)

unfoldable pub peek_bytes : ByteReader → ℕ → Result ByteView
unfolding can_read slice
peek_bytes r count =
    if can_read r count then slice r.view r.offset count else fail "short peek for byte span"

unfoldable pub read_bytes : ByteReader → ℕ → Result ByteView × ByteReader
unfolding can_read slice
read_bytes r count =
    if can_read r count
    then (let res = slice r.view r.offset count in (res, if is_ok res then move r count else r))
    else (fail "short read for byte span", r)

-- The sum is a `std::size_t`, so a huge count moves back.
unfoldable pub advance : ByteReader → ℕ → ByteReader
advance r count = record r { offset = min (size r.view) ((r.offset + count) % 2 ^ 64) }
