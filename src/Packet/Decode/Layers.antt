-- ===== src/Packet/Decode/Layers.antt =====
-- The layers that `decode_packet_payload` finds lie inside one another.
use packet_guard.Base.{
  ℕ, ◌+◌, ◌-◌, ◌≤◌, ◌≡◌, ◌≢◌, refl, sym, subst, arith, List, [], ◌∷◌, ◌++◌, ◌⊎◌, inl, inr, not,
  some, ◌==◌, Text,
}
use packet_guard.Core.ByteView.{ByteView, IsView, size}
use packet_guard.Core.ByteView.Reads.{slice_inside, IsPart}
use packet_guard.Core.Diagnostics.{Reads, Surely, Surely-attempt, Surely-if, Delivers-weaken}
use packet_guard.Core.Time.{Timestamp}
use packet_guard.Packet.Types.{EthernetFrame, IPv4Packet, PacketMetadata}
use packet_guard.Packet.Headers.{parse_ethernet, parse_ipv4_packet}
use packet_guard.Packet.Headers.Bounds.{
  IsFrame, IsPacket, parse_ethernet_inside, parse_ipv4_packet_inside,
}
use packet_guard.Packet.Decode.{decode_ipv4, decode_frame, undecoded, decode_packet_payload}
use packet_guard.Packet.Decode.Shapes.{FailsAt, IsDecoded}
use packet_guard.Packet.Decode.Tails.{IsTail, decode_transport_inside}

module _ (v : ByteView) (w : IsView v) (timestamp : Timestamp) (original_length : ℕ) where
  -- The metadata with the frame alone.
  abbrev framed : EthernetFrame → PacketMetadata
  unfolding undecoded
  framed f = record (undecoded timestamp v original_length) { ethernet = some f }

  -- What a frame says that has been read on link type 1.
  abbrev Good : PacketMetadata → Type 0
  Good = IsDecoded v timestamp original_length 1

  frame_only :
      (f : EthernetFrame) (md : PacketMetadata)
      → IsFrame v f
      → Reads (parse_ethernet v) f
      → (f.ether_type ≢ 0x0800)
        ⊎ FailsAt parse_ipv4_packet v f.header_length (size v - f.header_length)
      → (texts : List Text) → md ≡ record (framed f) { notes = texts }
      → Good md
  unfolding undecoded
  frame_only f md q r n texts e = subst Good (sym e) (record {
    captured = refl;
    original = refl;
    stamped = refl;
    link = λ h. refl;
    layered = (q.header_fits, r, n);
  })

  whole :
      (f : EthernetFrame) (ip : IPv4Packet) (x t : ByteView) (r : PacketMetadata)
      → f.ether_type ≡ 0x0800
      → f.header_length + ip.total_length ≤ size v
      → Reads (parse_ethernet v) f
      → IsPart v f.header_length (size v - f.header_length) x
      → Reads (parse_ipv4_packet x) ip
      → IsPart x ip.header_length ip.payload_length t
      → IsTail t ip (record (framed f) { ipv4 = some ip }) r
      → Good r
  unfolding undecoded
  whole f ip x t r e h read part packet rest tails = record {
    captured = tails.captured;
    original = tails.original;
    stamped = tails.stamped;
    link = λ n. refl;
    layered =
        rw (tails.framed, tails.packed)
          (e, h, read, (x, part, packet, (t, rest, tails.transported)));
  }

  decode_ipv4_inside :
      (f : EthernetFrame) (x : ByteView)
      → IsFrame v f
      → Reads (parse_ethernet v) f
      → f.ether_type ≡ 0x0800
      → IsPart v f.header_length (size v - f.header_length) x
      → Surely Good (decode_ipv4 x (framed f))
  unfolding decode_ipv4 undecoded
  decode_ipv4_inside f x q read e y =
      Surely-attempt (IsPacket x) Good (parse_ipv4_packet x) _ _
        (parse_ipv4_packet_inside x y.is_view)
        (λ ip p packet.
          let (t, c, z) =
            slice_inside x ip.header_length ip.payload_length y.is_view
              (omega (arith, p.total_is, p.total_fits)) (omega (arith, p.total_is, p.total_fits)) in
          rw c (λ d.
            Delivers-weaken (IsTail t ip (record (framed f) { ipv4 = some ip })) Good _
              (decode_transport_inside ip (record (framed f) { ipv4 = some ip }) (refl, refl, refl)
                t z.is_view z.has_size d)
              (λ r.
                whole f ip x t r e (omega (arith, q.header_fits, y.has_size, p.total_fits)) read y
                  packet z)))
        (λ s n d. frame_only f _ q read (inr (x, y, n)) ([] ++ s.message ∷ []) refl)

  decode_frame_inside :
      (f : EthernetFrame)
      → IsFrame v f
      → Reads (parse_ethernet v) f
      → Surely Good (decode_frame v f (framed f))
  unfolding decode_frame framed
  decode_frame_inside f q read =
      Surely-if Good (not (f.ether_type == 0x0800)) _ _
        (λ e d. frame_only f _ q read (inl (ground (arith, e))) [] refl)
        λ e.
          let (x, c, z) =
            slice_inside v f.header_length (size v - f.header_length) w q.header_fits
              (omega arith) in
          rw c (decode_ipv4_inside f x q read (ground arith) z)

-- `decode_packet_payload` returns metadata on every view, whatever the link type and the sink: a layer
-- that cannot be parsed is no failure. It never reads outside the view. The metadata carry the given
-- time and lengths. A layer stands in them only with the one around it and inside it, and is what its
-- parser reads from the bytes behind the header of that one. The frame stands there exactly when the
-- link type is 1 and `parse_ethernet` reads one, IPv4 when the frame has type 0x0800, TCP under
-- protocol 6, UDP under protocol 17, and DNS in a datagram on port 53, each unless its parser fails.
pub decode_packet_payload_inside :
    (v : ByteView)
    → IsView v
    → (timestamp : Timestamp) (original_length link_type : ℕ)
    → Surely
        (IsDecoded v timestamp original_length link_type)
        (decode_packet_payload timestamp v original_length link_type)
unfolding decode_packet_payload undecoded
decode_packet_payload_inside v w timestamp original_length link_type =
    Surely-if (IsDecoded v timestamp original_length link_type) (not (link_type == 1)) _ _
      (λ e d. record {
        captured = refl;
        original = refl;
        stamped = refl;
        link = λ h. absurd (h refl);
        layered = inl (ground (arith, e));
      })
      λ e.
        let one : link_type ≡ 1 = ground (arith, e) in
        Surely-attempt (IsFrame v) (IsDecoded v timestamp original_length link_type)
          (parse_ethernet v) _ _ (parse_ethernet_inside v w)
          (λ f q r d.
            Delivers-weaken (IsDecoded v timestamp original_length 1)
              (IsDecoded v timestamp original_length link_type) _
              (decode_frame_inside v w timestamp original_length f q r d)
              (λ md. subst (λ l. IsDecoded v timestamp original_length l md) (sym one)))
          (λ s n d. record {
            captured = refl;
            original = refl;
            stamped = refl;
            link = λ h. absurd (h refl);
            layered = inr n;
          })
