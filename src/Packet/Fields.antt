-- ===== src/Packet/Fields.antt =====
-- The reads of the header parsers of src/packet/packet.cpp, without their tests and diagnostics.
use packet_guard.Base.{
  ℕ, zero, suc, ◌+◌, ◌-◌, ◌*◌, ◌%◌, ◌^◌, bit_and, bit_or, Bool, false, not, ◌||◌, List, [], ◌∷◌,
  ◌==◌,
}
use packet_guard.Core.ByteView.{ByteView, size, load, slice, read_be16, read_be32}
use packet_guard.Core.Checksum.{internet_checksum}
use packet_guard.Core.Result.{Result, ok, failed, overrun, stuck, ◌>>=◌}
use packet_guard.Packet.Types.{EthernetFrame, IPv4Packet, TcpSegment, UdpDatagram}

-- `std::copy(bytes.data() + p, bytes.data() + p + n, ...)`
unfoldable pub copy_bytes : ByteView → ℕ → ℕ → Result (List ℕ)
copy_bytes v p zero = ok []
copy_bytes v p (suc n) = do b ← load v p; bs ← copy_bytes v (p + 1) n; ok (b ∷ bs)

unfoldable pub untagged_frame : ByteView → Result EthernetFrame
untagged_frame bytes = do
  destination ← copy_bytes bytes 0 6
  source ← copy_bytes bytes 6 6
  ether_type ← read_be16 bytes 12
  ok (record {
    destination = record { octets = destination };
    source = record { octets = source };
    ether_type = ether_type;
    header_length = 14;
  })

-- `auto hdr = bytes.slice(0, n); hdr && internet_checksum(hdr.value()) == 0`
unfoldable pub verified : Result ByteView → Result Bool
verified (ok header) = ok (internet_checksum header 0 == 0)
verified (failed s) = ok false
verified overrun = overrun
verified stuck = stuck

-- The fields behind the total length.
unfoldable pub ipv4_fields : ByteView → ℕ → ℕ → ℕ → Result IPv4Packet
ipv4_fields bytes version ihl total_length = do
  dscp_ecn ← load bytes 1
  identification ← read_be16 bytes 4
  flags_fragment ← read_be16 bytes 6
  ttl ← load bytes 8
  protocol ← load bytes 9
  header_checksum ← read_be16 bytes 10
  source ← read_be32 bytes 12
  destination ← read_be32 bytes 16
  checksum_valid ← verified (slice bytes 0 (ihl * 4))
  ok (record {
    version = version;
    ihl = ihl;
    dscp_ecn = dscp_ecn;
    total_length = total_length;
    identification = identification;
    flags_fragment = flags_fragment;
    ttl = ttl;
    protocol = protocol;
    header_checksum = header_checksum;
    source = record { value = source };
    destination = record { value = destination };
    checksum_valid = checksum_valid;
    fragmented =
        not (bit_and flags_fragment 0x3fff == 0) || not (bit_and flags_fragment 0x2000 == 0);
    header_length = ihl * 4;
    payload_length = total_length - ihl * 4;
  })

-- The fields of a TCP header of `offset` words.
unfoldable pub tcp_fields : ByteView → ℕ → Result TcpSegment
tcp_fields bytes data_offset = do
  source_port ← read_be16 bytes 0
  destination_port ← read_be16 bytes 2
  sequence ← read_be32 bytes 4
  acknowledgment ← read_be32 bytes 8
  b12 ← load bytes 12
  b13 ← load bytes 13
  window ← read_be16 bytes 14
  checksum ← read_be16 bytes 16
  urgent ← read_be16 bytes 18
  options ← copy_bytes bytes 20 (data_offset * 4 - 20)
  ok (record {
    source_port = source_port;
    destination_port = destination_port;
    sequence = sequence;
    acknowledgment = acknowledgment;
    data_offset = data_offset;
    flags = bit_or (bit_and b12 0x01 * 2 ^ 8) b13 % 2 ^ 16;
    window = window;
    checksum = checksum;
    urgent = urgent;
    payload_length = size bytes - data_offset * 4;
    options = options;
  })

unfoldable pub udp_fields : ByteView → Result UdpDatagram
udp_fields bytes = do
  source_port ← read_be16 bytes 0
  destination_port ← read_be16 bytes 2
  len ← read_be16 bytes 4
  checksum ← read_be16 bytes 6
  ok (record {
    source_port = source_port;
    destination_port = destination_port;
    length = len;
    checksum = checksum;
    payload_length = 0;
  })
