-- ===== src/Tests/Packets.antt =====
-- The parsers of src/packet/packet.cpp on a small capture.
use packet_guard.Base.{◌≡◌, refl, true, some, none, length, codes}
use packet_guard.Base.Int.{pos}
use packet_guard.Core.ByteView.{load, read_be16}
use packet_guard.Core.Diagnostics.{no_diagnostics, Delivers}
use packet_guard.Core.Result.{ok, is_ok, Ensures}
use packet_guard.Packet.Decode.{decode_packet_payload}
use packet_guard.Packet.Decode.Shapes.{IsDecoded}
use packet_guard.Packet.Decode.Layers.{decode_packet_payload_inside}
use packet_guard.Packet.Dns.{parse_dns_message}
use packet_guard.Packet.Dns.Bounds.{IsMessage, parse_dns_message_inside}
use packet_guard.Packet.DnsName.{read_dns_name}
use packet_guard.Packet.DnsName.Bounds.{IsName, read_dns_name_inside}
use packet_guard.Packet.Headers.{
  parse_ethernet, parse_ipv4_packet, parse_tcp_segment, parse_udp_datagram,
}
use packet_guard.Packet.Headers.Bounds.{
  IsFrame, IsPacket, IsSegment, IsDatagram, parse_ethernet_inside, parse_ipv4_packet_inside,
  parse_tcp_segment_inside, parse_udp_datagram_inside,
}
use packet_guard.Packet.Fields.{copy_bytes, untagged_frame}
use packet_guard.Packet.Pcap.{parse_pcap}
use packet_guard.Packet.Pcap.Records.{IsCapture, parse_pcap_inside}
use packet_guard.Tests.Samples.{
  placed, placed-IsView, dns_bytes, udp_bytes, ip_bytes, frame_bytes, tcp_bytes, capture_bytes,
}

-- The name of the answer is a pointer to the question's.
answer_name : read_dns_name (placed dns_bytes) 22 ≡ ok (codes "a.bc", 24)
unfolding read_dns_name
answer_name = refl

frame_is_ok : is_ok (parse_ethernet (placed frame_bytes) none).0 ≡ true
unfolding parse_ethernet untagged_frame copy_bytes load read_be16
frame_is_ok = refl

parse_pcap_example : Ensures (IsCapture (placed capture_bytes)) (parse_pcap (placed capture_bytes))
parse_pcap_example = parse_pcap_inside (placed capture_bytes) (placed-IsView capture_bytes refl)

parse_dns_message_example :
    Ensures
      (IsMessage (placed dns_bytes))
      (parse_dns_message (placed dns_bytes) (some no_diagnostics)).0
parse_dns_message_example =
    parse_dns_message_inside (placed dns_bytes) (placed-IsView dns_bytes refl) (some no_diagnostics)

decode_packet_payload_example :
    Delivers
      (IsDecoded
        (placed frame_bytes)
        (record { seconds = pos 5; nanos = 0 })
        (length frame_bytes)
        1)
      (decode_packet_payload
        (record { seconds = pos 5; nanos = 0 })
        (placed frame_bytes)
        (length frame_bytes)
        1
        none).0
decode_packet_payload_example =
    decode_packet_payload_inside (placed frame_bytes) (placed-IsView frame_bytes refl)
      (record { seconds = pos 5; nanos = 0 }) (length frame_bytes) 1 none

read_dns_name_example :
    Ensures (IsName (placed dns_bytes) 3328 22) (read_dns_name (placed dns_bytes) 22)
read_dns_name_example = read_dns_name_inside (placed dns_bytes) 22 (placed-IsView dns_bytes refl)

parse_ipv4_packet_example :
    Ensures (IsPacket (placed ip_bytes)) (parse_ipv4_packet (placed ip_bytes) none).0
parse_ipv4_packet_example =
    parse_ipv4_packet_inside (placed ip_bytes) (placed-IsView ip_bytes refl) none

parse_tcp_segment_example :
    Ensures (IsSegment (placed tcp_bytes)) (parse_tcp_segment (placed tcp_bytes) none).0
parse_tcp_segment_example =
    parse_tcp_segment_inside (placed tcp_bytes) (placed-IsView tcp_bytes refl) none

parse_udp_datagram_example :
    Ensures (IsDatagram (placed udp_bytes)) (parse_udp_datagram (placed udp_bytes) none).0
parse_udp_datagram_example =
    parse_udp_datagram_inside (placed udp_bytes) (placed-IsView udp_bytes refl) none

parse_ethernet_example :
    Ensures (IsFrame (placed frame_bytes)) (parse_ethernet (placed frame_bytes) none).0
parse_ethernet_example =
    parse_ethernet_inside (placed frame_bytes) (placed-IsView frame_bytes refl) none
