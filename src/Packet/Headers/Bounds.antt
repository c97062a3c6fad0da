-- ===== src/Packet/Headers/Bounds.antt =====
-- The header parsers read inside their view, and the lengths that they return fit it.
use packet_guard.Base.{
  ℕ, zero, suc, ◌+◌, ◌-◌, ◌*◌, ◌/◌, ◌%◌, ◌^◌, ◌<◌, ◌≤◌, ◌≡◌, ◌≢◌, true, false, refl, arith, bit_and,
  bit_or, Bool, not, ◌||◌, List, [], ◌∷◌, ltb, ◌==◌, Bool-cases, inl, inr, ◌⊎◌, length,
}
use packet_guard.Base.Bits.{bit_and_ones, bit_or_sum}
use packet_guard.Core.ByteView.{ByteView, IsView, size, slice}
use packet_guard.Core.ByteView.Reads.{
  byte, byte-lt, be16, be32, load_inside, read_be16_inside, read_be32_inside, slice_inside,
}
use packet_guard.Core.Checksum.{internet_checksum}
use packet_guard.Core.Diagnostics.{Sink, lift, Always, Always-bind, Always-if}
use packet_guard.Core.Result.{ok, Ensures}
use packet_guard.Packet.Fields.{
  copy_bytes, untagged_frame, ipv4_fields, tcp_fields, udp_fields, verified,
}
use packet_guard.Packet.Headers.{
  is_tagged, parse_tag, parse_ethernet, ipv4_length, ipv4_body, ipv4_warnings, parse_ipv4_packet,
  tcp_body, parse_tcp_segment, udp_body, parse_udp_datagram,
}
use packet_guard.Packet.Types.{EthernetFrame, IPv4Packet, TcpSegment, UdpDatagram}

-- The type field at `i`.
abbrev type_at : ByteView → ℕ → ℕ
type_at v i = be16 (byte v i) (byte v (i + 1))

-- The header and the type of a frame, with no tag or with one.
abbrev pub IsHeader : ByteView → ℕ → ℕ → Type 0
IsHeader v header_length ether_type =
    ((header_length ≡ 14)
      × (ether_type ≡ type_at v 12)
      × (type_at v 12 ≢ 0x8100)
      × (type_at v 12 ≢ 0x88a8))
    ⊎ ((header_length ≡ 18)
        × (ether_type ≡ type_at v 16)
        × ((type_at v 12 ≡ 0x8100) ⊎ (type_at v 12 ≡ 0x88a8)))

pub record IsFrame (v : ByteView) (f : EthernetFrame) : Type 0 where
  pub six_bytes : (length f.destination.octets ≡ 6) × (length f.source.octets ≡ 6)
  pub type_fits : f.ether_type < 2 ^ 16
  pub header_is : IsHeader v f.header_length f.ether_type
  pub header_fits : f.header_length ≤ size v

-- A packet whose header and payload lie one behind the other inside the view.
pub record IsPacket (v : ByteView) (ip : IPv4Packet) : Type 0 where
  pub version_four : ip.version ≡ 4
  pub header_words : ip.header_length ≡ ip.ihl * 4
  pub header_min : 20 ≤ ip.header_length
  pub total_is : ip.header_length + ip.payload_length ≡ ip.total_length
  pub total_fits : ip.total_length ≤ size v
  pub addresses : (ip.source.value < 2 ^ 32) × (ip.destination.value < 2 ^ 32)
  pub protocol_fits : ip.protocol < 256

pub record IsSegment (v : ByteView) (t : TcpSegment) : Type 0 where
  pub header_min : 5 ≤ t.data_offset
  pub whole : t.data_offset * 4 + t.payload_length ≡ size v
  pub options_are : length t.options + 20 ≡ t.data_offset * 4
  pub ports : (t.source_port < 2 ^ 16) × (t.destination_port < 2 ^ 16)
  pub flags_fit : t.flags < 512

pub record IsDatagram (v : ByteView) (u : UdpDatagram) : Type 0 where
  pub whole : 8 + u.payload_length ≡ u.length
  pub length_fits : u.length ≤ size v
  pub ports : (u.source_port < 2 ^ 16) × (u.destination_port < 2 ^ 16)

pub be16-lt : (v : ByteView) (p q : ℕ) → IsView v → be16 (byte v p) (byte v q) < 2 ^ 16
be16-lt v p q w = omega (arith, byte-lt v p w, byte-lt v q w)

pub be32-lt :
    (v : ByteView) (p q r s : ℕ)
    → IsView v
    → be32 (byte v p) (byte v q) (byte v r) (byte v s) < 2 ^ 32
be32-lt v p q r s w = omega (arith, byte-lt v p w, byte-lt v q w, byte-lt v r w, byte-lt v s w)

pub copy_bytes_inside :
    (v : ByteView) (p n : ℕ)
    → IsView v
    → p + n ≤ size v
    → (bs : List ℕ) × (copy_bytes v p n ≡ ok bs) × (length bs ≡ n)
unfolding copy_bytes
copy_bytes_inside v p zero w h = ([], refl, refl)
copy_bytes_inside v p (suc n) w h =
    let (bs, e, l) = copy_bytes_inside v (p + 1) n w (omega arith) in
    (byte v p ∷ bs, rw (load_inside v p w (omega arith), e), omega (arith, l))

-- What stands in a frame before the test for a tag.
record IsUntagged (v : ByteView) (f : EthernetFrame) : Type 0 where
  six_bytes : (length f.destination.octets ≡ 6) × (length f.source.octets ≡ 6)
  type_is : f.ether_type ≡ type_at v 12
  header_is : f.header_length ≡ 14

untagged_frame_inside :
    (v : ByteView) → IsView v → 14 ≤ size v → Ensures (IsUntagged v) (untagged_frame v)
unfolding untagged_frame
untagged_frame_inside v w h =
    let (ds, d, ld) = copy_bytes_inside v 0 6 w (omega arith) in
    let (ss, s, ls) = copy_bytes_inside v 6 6 w (omega arith) in
    rw (d, s, read_be16_inside v 12 w (omega arith))
      (record { six_bytes = (ld, ls); type_is = refl; header_is = refl })

parse_tag_inside :
    (v : ByteView) (f : EthernetFrame)
    → IsView v
    → IsUntagged v f
    → is_tagged f ≡ true
    → Always (IsFrame v) (parse_tag v f)
unfolding parse_tag
parse_tag_inside v f w h t d = elim (Bool-cases (ltb (size v) 18)) [
  | inl e ↦ rw e tt
  | inr e ↦
      rw (e, read_be16_inside v 16 w (ground arith))
        (record {
          six_bytes = h.six_bytes;
          type_fits = be16-lt v 16 (16 + 1) w;
          header_is = inr (refl, refl, ground (arith, t, h.type_is));
          header_fits = ground arith;
        })
]

untagged-IsFrame :
    (v : ByteView) (f : EthernetFrame)
    → IsView v
    → 14 ≤ size v
    → IsUntagged v f
    → is_tagged f ≡ false
    → IsFrame v f
untagged-IsFrame v f w h u t = record {
  six_bytes = u.six_bytes;
  type_fits = omega (arith, u.type_is, be16-lt v 12 (12 + 1) w);
  header_is =
      inl (u.header_is, u.type_is, ground (arith, t, u.type_is), ground (arith, t, u.type_is));
  header_fits = omega (arith, h, u.header_is);
}

-- `parse_ethernet` never reads outside its view. A frame that it returns has addresses of six bytes
-- and a header inside the view. When bytes 12 and 13 are the type of a tag, 0x8100 or 0x88a8, the
-- header has 18 bytes and the frame's type is bytes 16 and 17; otherwise the header has 14 bytes and
-- the frame's type is bytes 12 and 13.
pub parse_ethernet_inside : (v : ByteView) → IsView v → Always (IsFrame v) (parse_ethernet v)
unfolding parse_ethernet
parse_ethernet_inside v w =
    Always-if (IsFrame v) (ltb (size v) 14) _ _ (λ e d. tt)
      λ e.
        Always-bind (IsUntagged v) (IsFrame v) (lift (untagged_frame v)) _
          (λ d. untagged_frame_inside v w (ground arith))
          λ f h.
            Always-if (IsFrame v) (is_tagged f) _ _ (parse_tag_inside v f w h)
              (λ t d. untagged-IsFrame v f w (ground arith) h t)

verified_inside :
    (v : ByteView) (n : ℕ) → IsView v → n ≤ size v → (b : Bool) × (verified (slice v 0 n) ≡ ok b)
unfolding verified
verified_inside v n w h =
    let (header, e, p) = slice_inside v 0 n w (omega arith) (omega arith) in
    (internet_checksum header 0 == 0, rw e)

ipv4_fields_inside :
    (v : ByteView) (version ihl total : ℕ)
    → IsView v
    → version ≡ 4
    → 5 ≤ ihl
    → ihl * 4 ≤ total
    → total ≤ size v
    → Ensures (IsPacket v) (ipv4_fields v version ihl total)
unfolding ipv4_fields
ipv4_fields_inside v version ihl total w four h k l =
    let (b, e) = verified_inside v (ihl * 4) w (omega arith) in
    rw
      (
        load_inside v 1 w (omega arith),
        read_be16_inside v 4 w (omega arith),
        read_be16_inside v 6 w (omega arith),
        load_inside v 8 w (omega arith),
        load_inside v 9 w (omega arith),
        read_be16_inside v 10 w (omega arith),
        read_be32_inside v 12 w (omega arith),
        read_be32_inside v 16 w (omega arith),
        e,
      )
      (record {
        version_four = four;
        header_words = refl;
        header_min = omega arith;
        total_is = omega arith;
        total_fits = l;
        addresses =
            (be32-lt v 12 (12 + 1) (12 + 2) (12 + 3) w, be32-lt v 16 (16 + 1) (16 + 2) (16 + 3) w);
        protocol_fits = byte-lt v 9 w;
      })

ipv4_length_inside :
    (v : ByteView) (header declared : ℕ)
    → header ≤ size v
    → declared < 2 ^ 16
    → Always (λ total. (header ≤ total) × (total ≤ size v)) (ipv4_length v header declared)
unfolding ipv4_length
ipv4_length_inside v header declared h k = λ d. ground arith

ipv4_warnings-ok : (ip : IPv4Packet) (d : Sink) → (ipv4_warnings ip d).0 ≡ ok ip
unfolding ipv4_warnings
ipv4_warnings-ok ip d = ground arith

ipv4_body_inside :
    (v : ByteView) (version ihl : ℕ)
    → IsView v
    → version ≡ 4
    → 5 ≤ ihl
    → 20 ≤ size v
    → ihl * 4 ≤ size v
    → Always (IsPacket v) (ipv4_body v version ihl)
unfolding ipv4_body
ipv4_body_inside v version ihl w four h j k d = rw (read_be16_inside v 2 w (omega arith)) (
    Always-bind (λ t. (ihl * 4 ≤ t) × (t ≤ size v)) (IsPacket v)
      (ipv4_length v (ihl * 4) (be16 (byte v 2) (byte v (2 + 1)))) _
      (ipv4_length_inside v (ihl * 4) _ k (be16-lt v 2 (2 + 1) w))
      (λ t r.
        Always-bind (IsPacket v) (IsPacket v) (lift (ipv4_fields v version ihl t)) ipv4_warnings
          (λ e. ipv4_fields_inside v version ihl t w four h (r.0) (r.1))
          (λ ip q e. rw (ipv4_warnings-ok ip e) q))
      d)

-- `parse_ipv4_packet` never reads outside its view. A packet that it returns has version 4, a
-- header of at least 20 bytes, and a header and a payload that together are its total length and
-- lie in the view; its addresses are 32-bit numbers.
pub parse_ipv4_packet_inside : (v : ByteView) → IsView v → Always (IsPacket v) (parse_ipv4_packet v)
unfolding parse_ipv4_packet
parse_ipv4_packet_inside v w =
    Always-if (IsPacket v) (ltb (size v) 20) _ _ (λ e d. tt)
      λ e d. rw (load_inside v 0 w (ground arith)) (
        Always-if (IsPacket v) (not (byte v 0 / 2 ^ 4 == 4)) _ _ (λ f d. tt)
          (λ f.
            Always-if (IsPacket v)
              (ltb (bit_and (byte v 0) 0x0f) 5 || ltb (size v) (bit_and (byte v 0) 0x0f * 4)) _ _
              (λ g d. tt)
              (λ g.
                ipv4_body_inside v (byte v 0 / 2 ^ 4) (bit_and (byte v 0) 0x0f) w (ground arith)
                  (ground arith) (ground arith) (ground arith)))
          d)

tcp_flags-lt : (a b : ℕ) → b < 256 → bit_or (bit_and a 0x01 * 2 ^ 8) b % 2 ^ 16 < 512
tcp_flags-lt a b h = rw (bit_or_sum 8 (bit_and a 0x01) b h) (omega (arith, bit_and_ones 1 a))

tcp_fields_inside :
    (v : ByteView) (n : ℕ)
    → IsView v
    → 5 ≤ n
    → 20 ≤ size v
    → n * 4 ≤ size v
    → Ensures (IsSegment v) (tcp_fields v n)
unfolding tcp_fields
tcp_fields_inside v n w h j k =
    let (bs, e, l) = copy_bytes_inside v 20 (n * 4 - 20) w (omega arith) in
    rw
      (
        read_be16_inside v 0 w (omega arith),
        read_be16_inside v 2 w (omega arith),
        read_be32_inside v 4 w (omega arith),
        read_be32_inside v 8 w (omega arith),
        load_inside v 12 w (omega arith),
        load_inside v 13 w (omega arith),
        read_be16_inside v 14 w (omega arith),
        read_be16_inside v 16 w (omega arith),
        read_be16_inside v 18 w (omega arith),
        e,
      )
      (record {
        header_min = h;
        whole = omega arith;
        options_are = omega (arith, l);
        ports = (be16-lt v 0 (0 + 1) w, be16-lt v 2 (2 + 1) w);
        flags_fit = tcp_flags-lt (byte v 12) (byte v 13) (byte-lt v 13 w);
      })

tcp_body_inside :
    (v : ByteView) (n : ℕ)
    → IsView v
    → 5 ≤ n
    → 20 ≤ size v
    → n * 4 ≤ size v
    → Always (IsSegment v) (tcp_body v n)
unfolding tcp_body
tcp_body_inside v n w h j k =
    Always-bind (IsSegment v) (IsSegment v) (lift (tcp_fields v n)) _
      (λ e. tcp_fields_inside v n w h j k)
      (λ t q d. elim (Bool-cases (bit_and t.flags 0x006 == 0x006)) [
        | inl e ↦ rw e q
        | inr e ↦ rw e q
      ])

-- `parse_tcp_segment` never reads outside its view. In a segment that it returns the header, of at
-- least 20 bytes with its options, and the payload make up the view.
pub parse_tcp_segment_inside :
    (v : ByteView) → IsView v → Always (IsSegment v) (parse_tcp_segment v)
unfolding parse_tcp_segment
parse_tcp_segment_inside v w =
    Always-if (IsSegment v) (ltb (size v) 20) _ _ (λ e d. tt)
      λ e d. rw (load_inside v 12 w (ground arith)) (
        Always-if (IsSegment v) (ltb (byte v 12 / 2 ^ 4) 5 || ltb (size v) (byte v 12 / 2 ^ 4 * 4))
          _ _ (λ f d. tt)
          (λ f.
            tcp_body_inside v (byte v 12 / 2 ^ 4) w (ground arith) (ground arith) (ground arith))
          d)

udp_fields_inside :
    (v : ByteView)
    → IsView v
    → 8 ≤ size v
    → Ensures
        (λ u. (u.length < 2 ^ 16) × (u.source_port < 2 ^ 16) × (u.destination_port < 2 ^ 16))
        (udp_fields v)
unfolding udp_fields
udp_fields_inside v w h =
    rw
      (
        read_be16_inside v 0 w (omega arith),
        read_be16_inside v 2 w (omega arith),
        read_be16_inside v 4 w (omega arith),
        read_be16_inside v 6 w (omega arith),
      )
      (be16-lt v 4 (4 + 1) w, be16-lt v 0 (0 + 1) w, be16-lt v 2 (2 + 1) w)

udp_body_inside :
    (v : ByteView) (u : UdpDatagram)
    → 8 ≤ size v
    → 8 ≤ u.length
    → (u.length < 2 ^ 16) × (u.source_port < 2 ^ 16) × (u.destination_port < 2 ^ 16)
    → Always (IsDatagram v) (udp_body v u)
unfolding udp_body
udp_body_inside v u h k b d = elim (Bool-cases (ltb (size v) u.length)) [
  | inl e ↦ rw e (record { whole = ground arith; length_fits = omega arith; ports = (b.1, b.2) })
  | inr e ↦ rw e (record { whole = omega arith; length_fits = ground arith; ports = (b.1, b.2) })
]

-- `parse_udp_datagram` never reads outside its view, and the length of a datagram that it returns
-- is 8 more than its payload and fits the view.
pub parse_udp_datagram_inside :
    (v : ByteView) → IsView v → Always (IsDatagram v) (parse_udp_datagram v)
unfolding parse_udp_datagram
parse_udp_datagram_inside v w =
    Always-if (IsDatagram v) (ltb (size v) 8) _ _ (λ e d. tt)
      λ e.
        Always-bind
          (λ u. (u.length < 2 ^ 16) × (u.source_port < 2 ^ 16) × (u.destination_port < 2 ^ 16))
          (IsDatagram v) (lift (udp_fields v)) _ (λ d. udp_fields_inside v w (ground arith))
          (λ u b.
            Always-if (IsDatagram v) (ltb u.length 8) _ _ (λ f d. tt)
              (λ f. udp_body_inside v u (ground arith) (ground arith) b))
