-- ===== src/Core/ByteView.antt =====
-- include/core/byte_view.hpp, include/core/endian.hpp and src/core/byte_view.cpp. A view is its
-- address and the bytes behind it; the address 0 is the null pointer.
pub mod Reads
use packet_guard.Base.{
  ℕ, ◌+◌, ◌-◌, ◌*◌, ◌%◌, ◌^◌, ◌<◌, bit_or, Bool, not, ◌&&◌, ◌||◌, ◌≡◌, List, [], map, none, some,
  Text, ltb, leb, ◌==◌, if◌then◌else◌, length, get_elem?, take, drop, All,
}
use packet_guard.Core.Result.{Result, ok, fail, overrun, ◌>>=◌}

pub record ByteView : Type 0 where
  pub address : ℕ
  pub bytes : List ℕ

-- `ByteView()`
abbrev pub null_view : ByteView
null_view = record { address = 0; bytes = [] }

-- `size()`
abbrev pub size : ByteView → ℕ
size v = length v.bytes

-- `!data_ && size_ != 0`
abbrev pub is_invalid : ByteView → Bool
is_invalid v = v.address == 0 && not (size v == 0)

-- `data()[i]`
unfoldable pub load : ByteView → ℕ → Result ℕ
load v i =
    if v.address == 0
    then overrun
    else elim (get_elem? v.bytes i) [ some b ↦ ok b | none ↦ overrun ]

unfoldable pub at : ByteView → ℕ → Result ℕ
at v offset =
    if is_invalid v
    then fail "invalid byte view"
    else if leb (size v) offset
    then fail "byte offset outside view"
    else load v offset

unfoldable pub slice : ByteView → ℕ → ℕ → Result ByteView
slice v offset len =
    if is_invalid v
    then fail "invalid byte view"
    else if ltb (size v) offset || ltb (size v - offset) len
    then fail "slice outside view"
    else if len == 0
    then ok (record { address = v.address; bytes = [] })
    else ok (record { address = v.address + offset; bytes = take len (drop offset v.bytes) })

unfoldable pub to_vector : ByteView → List ℕ
to_vector v = if v.address == 0 || size v == 0 then [] else v.bytes

unfoldable pub ascii_lossy : ByteView → Text
ascii_lossy v =
    if is_invalid v then [] else map (λ c. if leb 32 c && leb c 126 then c else b'.') v.bytes

-- endian.hpp; the pointer is a view with an offset.
unfoldable pub read_be16 : ByteView → ℕ → Result ℕ
unfolding load
read_be16 v p = do b0 ← load v p; b1 ← load v (p + 1); ok (bit_or (b0 * 2 ^ 8) b1 % 2 ^ 16)

unfoldable pub read_be32 : ByteView → ℕ → Result ℕ
unfolding load
read_be32 v p = do
  b0 ← load v p
  b1 ← load v (p + 1)
  b2 ← load v (p + 2)
  b3 ← load v (p + 3)
  ok (
      bit_or (bit_or (bit_or (b0 * 2 ^ 24 % 2 ^ 32) (b1 * 2 ^ 16 % 2 ^ 32)) (b2 * 2 ^ 8 % 2 ^ 32))
        b3)

unfoldable pub read_le16 : ByteView → ℕ → Result ℕ
unfolding load
read_le16 v p = do b0 ← load v p; b1 ← load v (p + 1); ok (bit_or b0 (b1 * 2 ^ 8) % 2 ^ 16)

unfoldable pub read_le32 : ByteView → ℕ → Result ℕ
unfolding load
read_le32 v p = do
  b0 ← load v p
  b1 ← load v (p + 1)
  b2 ← load v (p + 2)
  b3 ← load v (p + 3)
  ok (
      bit_or (bit_or (bit_or b0 (b1 * 2 ^ 8 % 2 ^ 32)) (b2 * 2 ^ 16 % 2 ^ 32))
        (b3 * 2 ^ 24 % 2 ^ 32))

-- The bytes are bytes, and a null view is empty.
pub record IsView (v : ByteView) : Type 0 where
  pub placed : v.address ≡ 0 → size v ≡ 0
  pub octets : All (λ b. b < 256) v.bytes
