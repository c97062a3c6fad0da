-- ===== src/Packet/Decode/Tails.antt =====
-- What `decode_transport` of Packet/Decode adds to the metadata, for `decode_packet_payload` of
-- src/packet/packet.cpp.
use packet_guard.Base.{
  ◌≡◌, refl, ◌∙◌, arith, true, false, ◌⊎◌, inl, inr, some, none, ◌==◌, ==_iff, Text,
}
use packet_guard.Core.ByteView.{ByteView, IsView, size}
use packet_guard.Core.ByteView.Reads.{slice_inside}
use packet_guard.Core.Diagnostics.{Reads, Surely, Surely-attempt, Surely-if}
use packet_guard.Packet.Types.{IPv4Packet, UdpDatagram, PacketMetadata}
use packet_guard.Packet.Headers.{parse_tcp_segment, parse_udp_datagram}
use packet_guard.Packet.Headers.Bounds.{
  IsSegment, IsDatagram, parse_tcp_segment_inside, parse_udp_datagram_inside,
}
use packet_guard.Packet.Dns.{parse_dns_message}
use packet_guard.Packet.Dns.Bounds.{IsMessage, parse_dns_message_inside}
use packet_guard.Packet.Decode.{
  noted, has_dns_port, decode_dns, decode_udp, decode_tcp, decode_transport,
}
use packet_guard.Packet.Decode.Shapes.{OnDnsPort, FailsAt, Untransported, Datagram, Transport}

-- No transport layer has been parsed yet.
abbrev pub IsBare : PacketMetadata → Type 0
IsBare md = (md.tcp ≡ none) × (md.udp ≡ none) × (md.dns ≡ none)

-- `r` is `md` with its transport layer, read from `v`.
pub record IsTail (v : ByteView) (ip : IPv4Packet) (md r : PacketMetadata) : Type 0 where
  pub captured : r.captured_length ≡ md.captured_length
  pub original : r.original_length ≡ md.original_length
  pub stamped : r.timestamp ≡ md.timestamp
  pub framed : r.ethernet ≡ md.ethernet
  pub packed : r.ipv4 ≡ md.ipv4
  pub transported : Transport v ip r.tcp r.udp r.dns

tail :
    (v : ByteView) (ip : IPv4Packet) (md r : PacketMetadata)
    → r.captured_length ≡ md.captured_length
    → r.original_length ≡ md.original_length
    → r.timestamp ≡ md.timestamp
    → r.ethernet ≡ md.ethernet
    → r.ipv4 ≡ md.ipv4
    → Transport v ip r.tcp r.udp r.dns
    → IsTail v ip md r
tail v ip md r c o s f p t = record {
  captured = c;
  original = o;
  stamped = s;
  framed = f;
  packed = p;
  transported = t;
}

bare-IsTail :
    (v : ByteView) (ip : IPv4Packet) (md : PacketMetadata)
    → IsBare md
    → Untransported v ip
    → IsTail v ip md md
bare-IsTail v ip md (a, b, c) h = tail v ip md md refl refl refl refl refl (rw (a, b, c) h)

noted-IsTail :
    (v : ByteView) (ip : IPv4Packet) (md : PacketMetadata) (text : Text)
    → IsBare md
    → Untransported v ip
    → IsTail v ip md (noted md text)
noted-IsTail v ip md text (a, b, c) h = tail v ip md _ refl refl refl refl refl (rw (a, b, c) h)

on_port : (u : UdpDatagram) → has_dns_port u ≡ true → OnDnsPort u
on_port u h = ground (arith, h)

off_port : (u : UdpDatagram) → has_dns_port u ≡ false → ¬ (OnDnsPort u)
off_port u h p = ground (arith, h, p)

module _ (ip : IPv4Packet) (md : PacketMetadata) (bare : IsBare md) (v : ByteView) (w : IsView v)
    (same : size v ≡ ip.payload_length) where
  decode_tcp_inside : ip.protocol ≡ 6 → Surely (IsTail v ip md) (decode_tcp v md)
  unfolding decode_tcp
  decode_tcp_inside six =
      Surely-attempt (IsSegment v) (IsTail v ip md) (parse_tcp_segment v) _ _
        (parse_tcp_segment_inside v w)
        (λ t p r d.
          tail v ip md _ refl refl refl refl refl (rw (bare.1, bare.2) (six, p.whole ∙ same, r)))
        (λ s f d. noted-IsTail v ip md s.message bare (inr (inl (six, f))))

  datagram :
      (u : UdpDatagram)
      → ip.protocol ≡ 17
      → IsDatagram v u
      → Reads (parse_udp_datagram v) u
      → Datagram v ip u
  datagram u seventeen q r = (seventeen, omega (arith, q.length_fits, same), r)

  udp_tail :
      (u : UdpDatagram) (r : PacketMetadata)
      → Datagram v ip u
      → ¬ (OnDnsPort u) ⊎ FailsAt parse_dns_message v 8 u.payload_length
      → r.tcp ≡ none
      → r.udp ≡ some u
      → r.dns ≡ none
      → Transport v ip r.tcp r.udp r.dns
  udp_tail u r q n a b c = rw (a, b, c) (q, n)

  decode_dns_inside :
      (u : UdpDatagram)
      → Datagram v ip u
      → IsDatagram v u
      → has_dns_port u ≡ true
      → Surely (IsTail v ip md) (decode_dns v u (record md { udp = some u }))
  unfolding decode_dns
  decode_dns_inside u g q port =
      let (payload, e, p) =
        slice_inside v 8 u.payload_length w (omega (arith, q.whole, q.length_fits))
          (omega (arith, q.whole, q.length_fits)) in
      rw e (
        Surely-attempt (IsMessage payload) (IsTail v ip md) (parse_dns_message payload) _ _
          (parse_dns_message_inside payload p.is_view)
          (λ m r f d.
            tail v ip md _ refl refl refl refl refl
              (rw (bare.0) (g, on_port u port, (payload, p, f))))
          (λ s f d.
            tail v ip md _ refl refl refl refl refl
              (udp_tail u (record md { udp = some u }) g (inr (payload, p, f)) bare.0 refl bare.2)))

  decode_udp_inside : ip.protocol ≡ 17 → Surely (IsTail v ip md) (decode_udp v md)
  unfolding decode_udp
  decode_udp_inside seventeen =
      Surely-attempt (IsDatagram v) (IsTail v ip md) (parse_udp_datagram v) _ _
        (parse_udp_datagram_inside v w)
        (λ u q r.
          Surely-if (IsTail v ip md) (has_dns_port u) _ _
            (decode_dns_inside u (datagram u seventeen q r) q)
            (λ e d. tail v ip md _ refl refl refl refl refl (
              udp_tail u (record md { udp = some u }) (datagram u seventeen q r)
                (inl (off_port u e)) bare.0 refl bare.2)))
        (λ s f d. noted-IsTail v ip md s.message bare (inr (inr (seventeen, f))))

  pub decode_transport_inside : Surely (IsTail v ip md) (decode_transport v ip md)
  unfolding decode_transport
  decode_transport_inside =
      Surely-if (IsTail v ip md) (ip.protocol == 6) _ _
        (λ e. decode_tcp_inside ((==_iff ip.protocol 6).0 e))
        (λ e.
          Surely-if (IsTail v ip md) (ip.protocol == 17) _ _
            (λ f. decode_udp_inside ((==_iff ip.protocol 17).0 f))
            (λ f d. bare-IsTail v ip md bare (inl (ground (arith, e), ground (arith, f)))))
