-- ===== src/Core/Checksum.antt =====
-- include/core/checksum.hpp and src/core/checksum.cpp. The loops run over the bytes of a view.
pub mod Laws
use packet_guard.Base.{
  ℕ, zero, suc, ◌+◌, ◌-◌, ◌*◌, ◌/◌, ◌%◌, ◌^◌, bit_and, bit_or, bit_xor, Bool, true, false, List, [],
  ◌∷◌, ◌==◌, if◌then◌else◌,
}
use packet_guard.Core.ByteView.{ByteView, size}
use packet_guard.Core.Ip.{IPv4Address}

-- The loop over pairs, and the odd byte behind it, on a `std::uint32_t`.
unfoldable pub sum_words : ℕ → List ℕ → ℕ
sum_words sum [] = sum
sum_words sum (b ∷ []) = (sum + b * 2 ^ 8 % 2 ^ 16) % 2 ^ 32
sum_words sum (a ∷ b ∷ rest) = sum_words ((sum + bit_or (a * 2 ^ 8) b % 2 ^ 16) % 2 ^ 32) rest

-- `while (sum >> 16)`; three rounds are enough for 32 bits.
unfoldable pub fold_loop : ℕ → ℕ → ℕ
fold_loop zero sum = sum
fold_loop (suc fuel) sum =
    let rest = fold_loop fuel ((bit_and sum 0xffff + sum / 2 ^ 16) % 2 ^ 32) in
    if sum / 2 ^ 16 == 0 then sum else rest

-- `static_cast<std::uint16_t>(~sum)`
unfoldable pub internet_checksum : ByteView → ℕ → ℕ
unfolding sum_words fold_loop
internet_checksum v initial = (0xffffffff - fold_loop 3 (sum_words initial v.bytes)) % 2 ^ 16

unfoldable pub ipv4_header_checksum : ByteView → ℕ
unfolding internet_checksum
ipv4_header_checksum header = internet_checksum header 0

-- `(crc >> 1) ^ (0xedb88320u & (0u - (crc & 1u)))`
unfoldable pub crc_bit : ℕ → ℕ
crc_bit crc = bit_xor (crc / 2) (bit_and 0xedb88320 ((2 ^ 32 - bit_and crc 1) % 2 ^ 32))

unfoldable pub crc_bits : ℕ → ℕ → ℕ
unfolding crc_bit
crc_bits zero crc = crc
crc_bits (suc left) crc = crc_bits left (crc_bit crc)

unfoldable pub crc_bytes : ℕ → List ℕ → ℕ
unfolding crc_bits
crc_bytes crc [] = crc
crc_bytes crc (b ∷ rest) = crc_bytes (crc_bits 8 (bit_xor crc b)) rest

unfoldable pub crc32 : ByteView → ℕ
unfolding crc_bytes
crc32 v = 0xffffffff - crc_bytes 0xffffffff v.bytes

unfoldable pub tcp_udp_checksum : IPv4Address → IPv4Address → ℕ → ByteView → ℕ
unfolding internet_checksum
tcp_udp_checksum src dst protocol segment = internet_checksum segment (
    (bit_and (src.value / 2 ^ 16) 0xffff
      + bit_and src.value 0xffff
      + bit_and (dst.value / 2 ^ 16) 0xffff
      + bit_and dst.value 0xffff
      + protocol
      + size segment % 2 ^ 32)
    % 2 ^ 32)
