-- ===== src/Packet/DnsName.antt =====
-- `has_bytes` and `read_dns_name` of src/packet/packet.cpp. The offset that the source changes
-- through a reference is returned with the name.
pub mod Bounds
use packet_guard.Base.{
  ℕ, zero, suc, ◌+◌, ◌-◌, ◌*◌, ◌/◌, ◌%◌, ◌^◌, bit_and, bit_or, Bool, true, false, not, ◌&&◌, ◌||◌,
  List, [], ◌∷◌, ◌++◌, map, Text, is_empty, length, Option, some, none, ltb, leb, ◌==◌,
  if◌then◌else◌,
}
use packet_guard.Core.ByteView.{ByteView, size, load, slice, read_be16, read_be32}
use packet_guard.Core.Result.{Result, ok, fail, stuck, ◌>>=◌}
use packet_guard.Core.Strings.{lower_char}
use packet_guard.Packet.Fields.{copy_bytes}

abbrev pub has_bytes : ByteView → ℕ → ℕ → Bool
has_bytes v offset len = leb offset (size v) && leb len (size v - offset)

-- A byte of a label as it stands in the name.
unfoldable pub label_char : ℕ → ℕ
unfolding lower_char
label_char c = if leb 33 c && leb c 126 then lower_char c else b'?'

-- `if (!name.empty()) name.push_back('.')`, before a part that may be empty.
abbrev dotted : Text → Bool → Text
dotted name more = if not (is_empty name) && more then name ++ b'.' ∷ [] else name

-- A compression pointer, whose second byte is at `offset`; `deeper` reads at the next depth.
unfoldable pub read_pointer : (ℕ → Result (Text × ℕ)) → ByteView → ℕ → ℕ → Text → Result (Text × ℕ)
read_pointer deeper v len offset name =
    if leb (size v) offset then fail "dns compression pointer truncated" else do
      low ← load v offset
      suffix ← deeper (bit_or (bit_and len 0x3f * 2 ^ 8) low % 2 ^ 16)
      ok (dotted name (not (is_empty suffix.0)) ++ suffix.0, offset + 1)

-- A label of `len` bytes from `offset` on; `next` goes on with the loop.
unfoldable pub read_label :
    (ℕ → Text → Result (Text × ℕ)) → ByteView → ℕ → ℕ → Text → Result (Text × ℕ)
read_label next v len offset name =
    if not (bit_and len 0xc0 == 0)
    then fail "invalid dns label marker"
    else if not (has_bytes v offset len)
    then fail "dns label outside message"
    else do
      label ← copy_bytes v offset len
      let name' = dotted name true ++ map label_char label
      if ltb 255 (length name') then fail "dns name too long" else next (offset + len) name'

-- One round of the loop.
unfoldable pub name_round :
    (ℕ → Result (Text × ℕ))
    → (ℕ → Text → Result (Text × ℕ))
    → ByteView
    → ℕ
    → Text
    → Result (Text × ℕ)
name_round deeper next v offset name =
    if leb (size v) offset then fail "dns name outside message" else do
      len ← load v offset
      if len == 0
          then ok (name, offset + 1)
          else (if bit_and len 0xc0 == 0xc0
              then read_pointer deeper v len (offset + 1) name
              else read_label next v len (offset + 1) name)

unfoldable pub name_loop : (ℕ → Result (Text × ℕ)) → ByteView → ℕ → ℕ → Text → Result (Text × ℕ)
name_loop deeper v zero offset name = stuck
name_loop deeper v (suc fuel) offset name =
    name_round deeper (name_loop deeper v fuel) v offset name

-- `levels` is 13 - depth; each round of a loop moves forward in the message, so as many rounds as
-- it has bytes and one more are enough.
unfoldable pub name_at : ℕ → ByteView → ℕ → Result (Text × ℕ)
name_at zero v offset = fail "dns name compression loop"
name_at (suc levels) v offset = name_loop (name_at levels v) v (suc (size v)) offset []

unfoldable pub read_dns_name : ByteView → ℕ → Result (Text × ℕ)
unfolding name_at name_loop name_round read_label read_pointer label_char copy_bytes load
read_dns_name v offset = name_at 13 v offset
