-- ===== src/Packet/Decode/Shapes.antt =====
-- How the layers in the metadata of `decode_packet_payload` of src/packet/packet.cpp go with the bytes
-- and with one another.
use packet_guard.Base.{ℕ, ◌+◌, ◌-◌, ◌*◌, ◌≤◌, ◌≡◌, ◌≢◌, ◌⊎◌, Option, some, none}
use packet_guard.Core.ByteView.{ByteView, size}
use packet_guard.Core.ByteView.Reads.{IsPart}
use packet_guard.Core.Diagnostics.{Parser, Reads, Fails}
use packet_guard.Core.Time.{Timestamp}
use packet_guard.Packet.Types.{
  EthernetFrame, IPv4Packet, TcpSegment, UdpDatagram, DnsMessage, PacketMetadata,
}
use packet_guard.Packet.Headers.{
  parse_ethernet, parse_ipv4_packet, parse_tcp_segment, parse_udp_datagram,
}
use packet_guard.Packet.Dns.{parse_dns_message}

abbrev pub OnDnsPort : UdpDatagram → Type 0
OnDnsPort u = (u.source_port ≡ 53) ⊎ (u.destination_port ≡ 53)

-- The bytes `n` from `i` on, and what a parser does with them.
abbrev pub ReadAt : {A : Type 0} → (ByteView → Parser A) → ByteView → ℕ → ℕ → A → Type 0
ReadAt m v i n a = (x : ByteView) × IsPart v i n x × Reads (m x) a

abbrev pub FailsAt : {A : Type 0} → (ByteView → Parser A) → ByteView → ℕ → ℕ → Type 0
FailsAt m v i n = (x : ByteView) × IsPart v i n x × Fails (m x)

-- Why no transport layer of a payload is there.
abbrev pub Untransported : ByteView → IPv4Packet → Type 0
Untransported v ip =
    ((ip.protocol ≢ 6) × (ip.protocol ≢ 17))
    ⊎ (((ip.protocol ≡ 6) × Fails (parse_tcp_segment v))
        ⊎ ((ip.protocol ≡ 17) × Fails (parse_udp_datagram v)))

abbrev pub Datagram : ByteView → IPv4Packet → UdpDatagram → Type 0
Datagram v ip u =
    (ip.protocol ≡ 17) × (u.length ≤ ip.payload_length) × Reads (parse_udp_datagram v) u

-- The payload of an IPv4 packet: nothing that could be parsed, a TCP segment, or a UDP datagram, which
-- holds a DNS message exactly when it is on port 53 and the message can be parsed.
abbrev pub Transport :
    ByteView → IPv4Packet → Option TcpSegment → Option UdpDatagram → Option DnsMessage → Type 0
Transport v ip none none none = Untransported v ip
Transport v ip (some t) none none =
    (ip.protocol ≡ 6)
    × (t.data_offset * 4 + t.payload_length ≡ ip.payload_length)
    × Reads (parse_tcp_segment v) t
Transport v ip none (some u) none =
    Datagram v ip u × (¬ (OnDnsPort u) ⊎ FailsAt parse_dns_message v 8 u.payload_length)
Transport v ip none (some u) (some m) =
    Datagram v ip u × OnDnsPort u × ReadAt parse_dns_message v 8 u.payload_length m
Transport v ip _ _ _ = ⊥

-- The layers of a capture: no layer without the one around it, each inside that one and read by its
-- parser from what follows the header of that one, and none left out without a reason.
abbrev pub Layers :
    ℕ
    → ByteView
    → Option EthernetFrame
    → Option IPv4Packet
    → Option TcpSegment
    → Option UdpDatagram
    → Option DnsMessage
    → Type 0
Layers link_type v none none none none none = (link_type ≢ 1) ⊎ Fails (parse_ethernet v)
Layers link_type v (some f) none none none none =
    (f.header_length ≤ size v)
    × Reads (parse_ethernet v) f
    × ((f.ether_type ≢ 0x0800)
        ⊎ FailsAt parse_ipv4_packet v f.header_length (size v - f.header_length))
Layers link_type v (some f) (some ip) tcp udp dns =
    (f.ether_type ≡ 0x0800)
    × (f.header_length + ip.total_length ≤ size v)
    × Reads (parse_ethernet v) f
    × ((x : ByteView) × IsPart v f.header_length (size v - f.header_length) x
        × Reads (parse_ipv4_packet x) ip
        × ((t : ByteView) × IsPart x ip.header_length ip.payload_length t
            × Transport t ip tcp udp dns))
Layers link_type v _ _ _ _ _ = ⊥

pub record IsDecoded (v : ByteView) (timestamp : Timestamp) (original_length link_type : ℕ)
    (md : PacketMetadata) : Type 0 where
  pub captured : md.captured_length ≡ size v
  pub original : md.original_length ≡ original_length
  pub stamped : md.timestamp ≡ timestamp
  pub link : md.ethernet ≢ none → link_type ≡ 1
  pub layered : Layers link_type v md.ethernet md.ipv4 md.tcp md.udp md.dns
