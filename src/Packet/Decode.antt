-- ===== src/Packet/Decode.antt =====
-- `decode_packet_payload` of src/packet/packet.cpp. It returns the metadata whatever the bytes are:
-- a layer that cannot be parsed leaves its field empty and, mostly, a note.
pub mod Shapes
pub mod Tails
pub mod Layers
use packet_guard.Base.{
  ℕ, ◌+◌, ◌-◌, Bool, not, ◌||◌, List, [], ◌∷◌, ◌++◌, Option, some, none, ◌==◌, if◌then◌else◌, Text,
  codes,
}
use packet_guard.Core.ByteView.{ByteView, size, slice}
use packet_guard.Core.Diagnostics.{Parser, lift, attempt}
use packet_guard.Core.Result.{Result, ok, Status}
use packet_guard.Core.Strings.{to_decimal}
use packet_guard.Core.Time.{Timestamp}
use packet_guard.Packet.Types.{
  EthernetFrame, IPv4Packet, TcpSegment, UdpDatagram, DnsMessage, PacketMetadata,
}
use packet_guard.Packet.Headers.{
  parse_ethernet, parse_ipv4_packet, parse_tcp_segment, parse_udp_datagram,
}
use packet_guard.Packet.Dns.{parse_dns_message}

-- `return md;`
abbrev pub done : PacketMetadata → Parser PacketMetadata
done md = lift (ok md)

-- `md.notes.push_back(status.message)`
abbrev pub noted : PacketMetadata → Text → PacketMetadata
noted md text = record md { notes = md.notes ++ text ∷ [] }

abbrev pub has_dns_port : UdpDatagram → Bool
has_dns_port u = u.source_port == 53 || u.destination_port == 53

unfoldable pub decode_dns : ByteView → UdpDatagram → PacketMetadata → Parser PacketMetadata
decode_dns transport u md =
    attempt (lift (slice transport 8 u.payload_length))
      (λ payload.
        attempt (parse_dns_message payload) (λ m. done (record md { dns = some m }))
          (λ s. done (noted md s.message)))
      (λ s. done md)

unfoldable pub decode_udp : ByteView → PacketMetadata → Parser PacketMetadata
decode_udp transport md =
    attempt (parse_udp_datagram transport)
      (λ u.
        if has_dns_port u
        then decode_dns transport u (record md { udp = some u })
        else done (record md { udp = some u }))
      (λ s. done (noted md s.message))

unfoldable pub decode_tcp : ByteView → PacketMetadata → Parser PacketMetadata
decode_tcp transport md =
    attempt (parse_tcp_segment transport) (λ t. done (record md { tcp = some t }))
      (λ s. done (noted md s.message))

unfoldable pub decode_transport : ByteView → IPv4Packet → PacketMetadata → Parser PacketMetadata
decode_transport transport ip md =
    if ip.protocol == 6
    then decode_tcp transport md
    else if ip.protocol == 17
    then decode_udp transport md
    else done md

unfoldable pub decode_ipv4 : ByteView → PacketMetadata → Parser PacketMetadata
decode_ipv4 ip_bytes md =
    attempt (parse_ipv4_packet ip_bytes)
      (λ ip.
        attempt (lift (slice ip_bytes ip.header_length ip.payload_length))
          (λ transport. decode_transport transport ip (record md { ipv4 = some ip }))
          (λ s. done (record md { ipv4 = some ip })))
      (λ s. done (noted md s.message))

-- A frame's header is never longer than the frame, so the subtraction does not wrap.
unfoldable pub decode_frame : ByteView → EthernetFrame → PacketMetadata → Parser PacketMetadata
decode_frame bytes frame md =
    if not (frame.ether_type == 0x0800)
    then done md
    else attempt (lift (slice bytes frame.header_length (size bytes - frame.header_length)))
        (λ ip_bytes. decode_ipv4 ip_bytes md) (λ s. done md)

-- The metadata before any layer is parsed.
unfoldable pub undecoded : Timestamp → ByteView → ℕ → PacketMetadata
undecoded timestamp bytes original_length = record {
  timestamp = timestamp;
  original_length = original_length;
  captured_length = size bytes;
  ethernet = none;
  ipv4 = none;
  tcp = none;
  udp = none;
  dns = none;
  notes = [];
}

unfoldable pub decode_packet_payload : Timestamp → ByteView → ℕ → ℕ → Parser PacketMetadata
unfolding undecoded
decode_packet_payload timestamp bytes original_length link_type =
    let md = undecoded timestamp bytes original_length in
    if not (link_type == 1)
    then done (noted md (codes "unsupported link type " ++ to_decimal link_type))
    else attempt (parse_ethernet bytes)
        (λ frame. decode_frame bytes frame (record md { ethernet = some frame }))
        (λ s. done (noted md s.message))
