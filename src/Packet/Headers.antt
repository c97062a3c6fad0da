-- ===== src/Packet/Headers.antt =====
-- `parse_ethernet`, `parse_ipv4_packet`, `parse_tcp_segment` and `parse_udp_datagram` of
-- src/packet/packet.cpp: their tests and diagnostics, around the reads of Packet/Fields.
pub mod Bounds
use packet_guard.Base.{
  ℕ, zero, suc, ◌+◌, ◌-◌, ◌*◌, ◌/◌, ◌%◌, ◌^◌, bit_and, bit_or, Bool, true, false, not, ◌&&◌, ◌||◌,
  List, [], ◌∷◌, Option, some, none, ltb, leb, ◌==◌, if◌then◌else◌,
}
use packet_guard.Core.ByteView.{ByteView, size, load, slice, read_be16, read_be32}
use packet_guard.Core.Diagnostics.{Parser, lift, warn_if, info_if, ◌>>=◌, ◌>>◌}
use packet_guard.Core.Result.{Result, ok, fail}
use packet_guard.Packet.Fields.{copy_bytes, untagged_frame, ipv4_fields, tcp_fields, udp_fields}
use packet_guard.Packet.Types.{MacAddress, EthernetFrame, IPv4Packet, TcpSegment, UdpDatagram}

-- `if (frame.ether_type == 0x8100 || frame.ether_type == 0x88a8)`
unfoldable pub parse_tag : ByteView → EthernetFrame → Parser EthernetFrame
parse_tag bytes frame =
    if ltb (size bytes) 18 then lift (fail "tagged ethernet frame too short") else do
      inner ← lift (read_be16 bytes 16)
      info_if true "ethernet.vlan" "VLAN tagged frame" 12
      lift (ok (record frame { ether_type = inner; header_length = 18 }))

abbrev is_tagged : EthernetFrame → Bool
is_tagged frame = frame.ether_type == 0x8100 || frame.ether_type == 0x88a8

unfoldable pub parse_ethernet : ByteView → Parser EthernetFrame
parse_ethernet bytes = if ltb (size bytes) 14 then lift (fail "ethernet frame too short") else do
  frame ← lift (untagged_frame bytes)
  if is_tagged frame then parse_tag bytes frame else lift (ok frame)

-- The test of the total length, with its diagnostic; it returns the length that is kept.
unfoldable pub ipv4_length : ByteView → ℕ → ℕ → Parser ℕ
ipv4_length bytes header_length total_length = do
  warn_if (ltb total_length header_length || ltb (size bytes) total_length) "ipv4.length"
      "IPv4 total length differs from captured bytes" 2
  lift (
      if ltb total_length header_length
      then fail "invalid ipv4 total length"
      else ok (if ltb (size bytes) total_length then size bytes % 2 ^ 16 else total_length))

-- The two warnings about a packet that is read.
unfoldable pub ipv4_warnings : IPv4Packet → Parser IPv4Packet
ipv4_warnings ip = do
  warn_if (ip.ttl == 0) "ipv4.ttl" "IPv4 TTL is zero" 8
  warn_if (not ip.checksum_valid) "ipv4.checksum" "IPv4 header checksum did not validate" 10
  lift (ok ip)

-- The part behind the test of the header length.
unfoldable pub ipv4_body : ByteView → ℕ → ℕ → Parser IPv4Packet
ipv4_body bytes version ihl = do
  declared ← lift (read_be16 bytes 2)
  total_length ← ipv4_length bytes (ihl * 4) declared
  ip ← lift (ipv4_fields bytes version ihl total_length)
  ipv4_warnings ip

unfoldable pub parse_ipv4_packet : ByteView → Parser IPv4Packet
parse_ipv4_packet bytes = if ltb (size bytes) 20 then lift (fail "ipv4 packet too short") else do
  b0 ← lift (load bytes 0)
  let version = b0 / 2 ^ 4
  let ihl = bit_and b0 0x0f
  if not (version == 4)
      then lift (fail "not an ipv4 packet")
      else (if ltb ihl 5 || ltb (size bytes) (ihl * 4)
          then lift (fail "invalid ipv4 header length")
          else ipv4_body bytes version ihl)

-- The part behind the test of the data offset.
unfoldable pub tcp_body : ByteView → ℕ → Parser TcpSegment
tcp_body bytes data_offset = do
  tcp ← lift (tcp_fields bytes data_offset)
  warn_if (bit_and tcp.flags 0x006 == 0x006) "tcp.flags" "TCP SYN and RST both set" 13
  lift (ok tcp)

unfoldable pub parse_tcp_segment : ByteView → Parser TcpSegment
parse_tcp_segment bytes = if ltb (size bytes) 20 then lift (fail "tcp segment too short") else do
  b12 ← lift (load bytes 12)
  let data_offset = b12 / 2 ^ 4
  if ltb data_offset 5 || ltb (size bytes) (data_offset * 4)
      then lift (fail "invalid tcp data offset")
      else tcp_body bytes data_offset

-- The part behind the test of the length field.
unfoldable pub udp_body : ByteView → UdpDatagram → Parser UdpDatagram
udp_body bytes udp = do
  warn_if (ltb (size bytes) udp.length) "udp.length" "UDP length exceeds captured payload" 4
  let len = if ltb (size bytes) udp.length then size bytes % 2 ^ 16 else udp.length
  lift (ok (record udp { length = len; payload_length = len - 8 }))

unfoldable pub parse_udp_datagram : ByteView → Parser UdpDatagram
parse_udp_datagram bytes = if ltb (size bytes) 8 then lift (fail "udp datagram too short") else do
  udp ← lift (udp_fields bytes)
  if ltb udp.length 8 then lift (fail "invalid udp length") else udp_body bytes udp
