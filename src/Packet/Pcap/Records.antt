-- ===== src/Packet/Pcap/Records.antt =====
-- The packets of a capture file are its records, one behind the other.
use packet_guard.Base.{
  ℕ, zero, suc, ◌+◌, ◌-◌, ◌*◌, ◌≤◌, ◌<◌, ◌≡◌, refl, sym, ◌∙◌, ap, arith, Bool, true, false, ◌||◌,
  List, [], ◌∷◌, some, none, ltb, leb, ◌==◌, ==_iff, if◌then◌else◌, length, take, drop, inl, inr,
  ◌⊎◌, Bool-cases,
}
use packet_guard.Base.Int.{pos}
use packet_guard.Core.ByteView.{ByteView, IsView, size, to_vector}
use packet_guard.Core.ByteView.Reads.{
  byte, be16, be32, read_be16_inside, read_be32_inside, read_le16_inside, read_le32_inside,
  slice_inside, IsPart,
}
use packet_guard.Core.Diagnostics.{Parser, Sink, Always, Always-bind, Always-if, Delivers-Ensures}
use packet_guard.Core.Result.{
  Ensures-weaken, Result, ok, failed, overrun, stuck, Ensures, Ensures-bind,
}
use packet_guard.Core.Time.{Timestamp, normalize_timestamp}
use packet_guard.Packet.Types.{PacketMetadata, PcapPacket, PcapFile}
use packet_guard.Packet.Decode.{decode_packet_payload}
use packet_guard.Packet.Decode.Shapes.{IsDecoded}
use packet_guard.Packet.Decode.Layers.{decode_packet_payload_inside}
use packet_guard.Packet.Pcap.{
  PcapFormat, rd16, rd32, pcap_format, read_magic, read_header, RecordHeader, read_record_header,
  pcap_record, pcap_round, pcap_loop, finish, read_packets, parse_pcap,
}

-- Two and four bytes in the byte order of the file.
abbrev pub half : Bool → ByteView → ℕ → ℕ
half le v i = if le then be16 (byte v (i + 1)) (byte v i) else be16 (byte v i) (byte v (i + 1))

abbrev pub word : Bool → ByteView → ℕ → ℕ
word le v i =
    if le
    then be32 (byte v (i + 3)) (byte v (i + 2)) (byte v (i + 1)) (byte v i)
    else be32 (byte v i) (byte v (i + 1)) (byte v (i + 2)) (byte v (i + 3))

rd16_inside :
    (le : Bool) (v : ByteView) (i : ℕ) → IsView v → i + 2 ≤ size v → rd16 le v i ≡ ok (half le v i)
unfolding rd16
rd16_inside true v i w h = read_le16_inside v i w h
rd16_inside false v i w h = read_be16_inside v i w h

rd32_inside :
    (le : Bool) (v : ByteView) (i : ℕ) → IsView v → i + 4 ≤ size v → rd32 le v i ≡ ok (word le v i)
unfolding rd32
rd32_inside true v i w h = read_le32_inside v i w h
rd32_inside false v i w h = read_be32_inside v i w h

-- The header of the record at `offset`.
abbrev header_at : Bool → ByteView → ℕ → RecordHeader
header_at le v offset = record {
  ts_sec = word le v offset;
  ts_frac = word le v (offset + 4);
  incl_len = word le v (offset + 8);
  orig_len = word le v (offset + 12);
}

-- The time in the header of the record at `offset`; the fraction counts nanoseconds or microseconds.
abbrev pub time_at : Bool → Bool → ByteView → ℕ → Timestamp
time_at le ns v offset =
    normalize_timestamp (pos (word le v offset))
      (pos (if ns then word le v (offset + 4) else word le v (offset + 4) * 1000))

-- What `decode_packet_payload` returns, with some diagnostics, for the bytes behind the header of
-- the record at `offset`, with the time and the original length of that header.
abbrev pub IsDecodedAt : Bool → Bool → ℕ → ByteView → ℕ → PacketMetadata → Type 0
IsDecodedAt le ns link_type v offset md =
    (x : ByteView) × (d : Sink) × IsPart v (offset + 16) (word le v (offset + 8)) x
    × ((decode_packet_payload (time_at le ns v offset) x (word le v (offset + 12)) link_type d).0
        ≡ ok md)
    × IsDecoded x (time_at le ns v offset) (word le v (offset + 12)) link_type md

-- The packet of the record at `offset`: its payload is the bytes behind the 16 of the header, as
-- many as the header says, and its metadata are decoded from them.
pub record IsPacketAt (le ns : Bool) (link_type : ℕ) (v : ByteView) (offset : ℕ) (p : PcapPacket)
    : Type 0 where
  pub captured : length p.payload ≡ word le v (offset + 8)
  pub bytes : p.payload ≡ take (word le v (offset + 8)) (drop (offset + 16) v.bytes)
  pub fits : offset + 16 + length p.payload ≤ size v
  pub decoded : IsDecodedAt le ns link_type v offset p.metadata

-- Packets that are the records from `offset` on. Behind the last one there is no whole record.
abbrev pub Records : Bool → Bool → ℕ → ByteView → ℕ → List PcapPacket → Type 0
Records le ns link_type v offset [] =
    (offset ≡ size v) ⊎ ((size v < offset + 16) ⊎ (size v < offset + 16 + word le v (offset + 8)))
Records le ns link_type v offset (p ∷ ps) =
    IsPacketAt le ns link_type v offset p
    × Records le ns link_type v (offset + 16 + length p.payload) ps

-- The magic number in the byte order that it tells.
abbrev pub Magic : ByteView → Bool → Bool → Type 0
Magic v le ns = word le v 0 ≡ (if ns then 0xa1b23c4d else 0xa1b2c3d4)

pub record IsCapture (v : ByteView) (f : PcapFile) : Type 0 where
  pub magic_is : Magic v f.little_endian f.nanosecond_resolution
  pub major_is : f.major ≡ half f.little_endian v 4
  pub link_type_is : f.link_type ≡ word f.little_endian v 20
  pub records : Records f.little_endian f.nanosecond_resolution f.link_type v 24 f.packets

to_vector-view : (v : ByteView) → IsView v → to_vector v ≡ v.bytes
unfolding to_vector
to_vector-view v w = elim (Bool-cases (v.address == 0 || size v == 0)) [
  | inl e ↦ rw e (sym (empty v.bytes (ground (arith, w.placed))))
  | inr e ↦ rw e refl
]
  where
    empty : (xs : List ℕ) → length xs ≡ 0 → xs ≡ []
    empty [] h = refl
    empty (x ∷ xs) h = absurd (omega arith)

module _ (v : ByteView) (w : IsView v) (le ns : Bool) (link_type offset : ℕ) where
  packet_added :
      (x : ByteView) (md : PacketMetadata) (ps : List PcapPacket)
      → IsPart v (offset + 16) (word le v (offset + 8)) x
      → IsDecodedAt le ns link_type v offset md
      → offset + 16 + word le v (offset + 8) ≤ size v
      → Records le ns link_type v (offset + 16 + word le v (offset + 8)) ps
      → Records le ns link_type v offset (record { metadata = md; payload = to_vector x } ∷ ps)
  packet_added x md ps z q h r =
      let e : to_vector x ≡ x.bytes = to_vector-view x z.is_view in
      let l : length (to_vector x) ≡ word le v (offset + 8) = ap length e ∙ z.has_size in
      (
        record { captured = l; bytes = e ∙ z.same_bytes; fits = omega (arith, l); decoded = q },
        rw l r,
      )

  decoded-IsDecodedAt :
      (x : ByteView)
      → IsPart v (offset + 16) (word le v (offset + 8)) x
      → Always
          (IsDecodedAt le ns link_type v offset)
          (decode_packet_payload (time_at le ns v offset) x (word le v (offset + 12)) link_type)
  decoded-IsDecodedAt x z d =
      let run =
        decode_packet_payload (time_at le ns v offset) x (word le v (offset + 12)) link_type d in
      let good = IsDecoded x (time_at le ns v offset) (word le v (offset + 12)) link_type in
      Ensures-weaken (λ md. good md × (run.0 ≡ ok md)) (IsDecodedAt le ns link_type v offset) run.0
        (Delivers-Ensures good run.0 (
          decode_packet_payload_inside x z.is_view (time_at le ns v offset)
            (word le v (offset + 12)) link_type d))
        (λ md q. (x, d, z, q.1, q.0))

  -- What the rest of the loop promises, from behind the header on.
  abbrev GoesOn : (ℕ → Parser (List PcapPacket)) → Type 0
  GoesOn next =
      (i : ℕ) → offset + 16 ≤ i → i ≤ size v → Always (Records le ns link_type v i) (next i)

  pcap_record_inside :
      (next : ℕ → Parser (List PcapPacket))
      → GoesOn next
      → offset + 16 ≤ size v
      → Always
          (Records le ns link_type v offset)
          (pcap_record next v ns link_type (offset + 16) (header_at le v offset))
  unfolding pcap_record
  pcap_record_inside next k room =
      let n = word le v (offset + 8) in
      Always-if (Records le ns link_type v offset) (ltb (size v - (offset + 16)) n) _ _
        (λ e d. inr (inr (ground arith)))
        λ e.
          let (x, c, z) = slice_inside v (offset + 16) n w room (ground arith) in
          rw c (
            Always-bind (IsDecodedAt le ns link_type v offset) (Records le ns link_type v offset)
              (decode_packet_payload (time_at le ns v offset) x (word le v (offset + 12)) link_type)
              _ (decoded-IsDecodedAt x z)
              λ md q.
                Always-bind (Records le ns link_type v (offset + 16 + n))
                  (Records le ns link_type v offset) (next (offset + 16 + n)) _
                  (k (offset + 16 + n) (omega arith) (ground arith))
                  λ ps r d. packet_added x md ps z q (ground arith) r)

read_record_header_inside :
    (le : Bool) (v : ByteView) (offset : ℕ)
    → IsView v
    → offset + 16 ≤ size v
    → read_record_header le v offset ≡ ok (header_at le v offset)
unfolding read_record_header
read_record_header_inside le v offset w h = rw (
  rd32_inside le v offset w (omega arith),
  rd32_inside le v (offset + 4) w (omega arith),
  rd32_inside le v (offset + 8) w (omega arith),
  rd32_inside le v (offset + 12) w (omega arith),
)

pcap_round_inside :
    (next : ℕ → Parser (List PcapPacket)) (v : ByteView) (le ns : Bool) (link_type offset : ℕ)
    → (w : IsView v) → offset ≤ size v
    → GoesOn v w le ns link_type offset next
    → Always (Records le ns link_type v offset) (pcap_round next v le ns link_type offset)
unfolding pcap_round
pcap_round_inside next v le ns link_type offset w h k =
    let all = Records le ns link_type v offset in
    Always-if all (leb (size v) offset) _ _ (λ e d. inl (ground arith))
      λ e.
        Always-if all (ltb (size v - offset) 16) _ _ (λ f d. inr (inl (ground arith)))
          λ f.
            rw (read_record_header_inside le v offset w (ground arith))
              (pcap_record_inside v w le ns link_type offset next k (ground arith))

pcap_loop_inside :
    (fuel : ℕ) (v : ByteView) (le ns : Bool) (link_type offset : ℕ)
    → IsView v
    → offset ≤ size v
    → size v < offset + fuel
    → Always (Records le ns link_type v offset) (pcap_loop fuel v le ns link_type offset)
unfolding pcap_loop
pcap_loop_inside zero v le ns link_type offset w h g = absurd (omega arith)
pcap_loop_inside (suc fuel) v le ns link_type offset w h g =
    pcap_round_inside (pcap_loop fuel v le ns link_type) v le ns link_type offset w h
      (λ i j k. pcap_loop_inside fuel v le ns link_type i w k (omega arith))

abbrev IsFormat : ByteView → PcapFormat → Type 0
IsFormat v f = Magic v f.little_endian f.nanoseconds

pcap_format-IsFormat :
    (v : ByteView) (be le : ℕ)
    → be ≡ word false v 0
    → le ≡ word true v 0
    → Ensures (IsFormat v) (pcap_format be le)
pcap_format-IsFormat v be le b l = elim (Bool-cases (le == 0xa1b2c3d4)) [
  | inl e ↦ rw e (sym l ∙ (==_iff le 0xa1b2c3d4).0 e)
  | inr e ↦ rw e (elim (Bool-cases (be == 0xa1b2c3d4)) [
    | inl f ↦ rw f (sym b ∙ (==_iff be 0xa1b2c3d4).0 f)
    | inr f ↦ rw f (elim (Bool-cases (le == 0xa1b23c4d)) [
      | inl g ↦ rw g (sym l ∙ (==_iff le 0xa1b23c4d).0 g)
      | inr g ↦ rw g (elim (Bool-cases (be == 0xa1b23c4d)) [
        | inl k ↦ rw k (sym b ∙ (==_iff be 0xa1b23c4d).0 k)
        | inr k ↦ rw k tt
      ])
    ])
  ])
]

read_magic_inside : (v : ByteView) → IsView v → 24 ≤ size v → Ensures (IsFormat v) (read_magic v)
unfolding read_magic
read_magic_inside v w h =
    rw (read_be32_inside v 0 w (omega arith), read_le32_inside v 0 w (omega arith))
      (pcap_format-IsFormat v (word false v 0) (word true v 0) refl refl)

-- The header alone.
abbrev IsFileHeader : ByteView → PcapFile → Type 0
IsFileHeader v f =
    (f.major ≡ half f.little_endian v 4)
    × (f.link_type ≡ word f.little_endian v 20)
    × Magic v f.little_endian f.nanosecond_resolution

read_header_inside :
    (v : ByteView) (format : PcapFormat)
    → IsView v
    → 24 ≤ size v
    → IsFormat v format
    → Ensures (IsFileHeader v) (read_header v format)
unfolding read_header
read_header_inside v format w h m =
    rw
      (
        rd16_inside format.little_endian v 4 w (omega arith),
        rd16_inside format.little_endian v 6 w (omega arith),
        rd32_inside format.little_endian v 8 w (omega arith),
        rd32_inside format.little_endian v 16 w (omega arith),
        rd32_inside format.little_endian v 20 w (omega arith),
      )
      (refl, refl, m)

finish-Ensures :
    (v : ByteView) (f : PcapFile) (r : Result (List PcapPacket) × Sink)
    → IsFileHeader v f
    → Ensures (Records f.little_endian f.nanosecond_resolution f.link_type v 24) r.0
    → Ensures (IsCapture v) (finish f r)
finish-Ensures v f (ok ps, some d) h r = record {
  major_is = h.0;
  link_type_is = h.1;
  magic_is = h.2;
  records = r;
}
finish-Ensures v f (ok ps, none) h r = record {
  major_is = h.0;
  link_type_is = h.1;
  magic_is = h.2;
  records = r;
}
finish-Ensures v f (failed s, d) h r = tt
finish-Ensures v f (overrun, d) h r = r
finish-Ensures v f (stuck, d) h r = r

read_packets_inside :
    (v : ByteView) (f : PcapFile)
    → IsView v
    → 24 ≤ size v
    → IsFileHeader v f
    → Ensures (IsCapture v) (read_packets v f)
unfolding read_packets
read_packets_inside v f w h q = finish-Ensures v f _ q (
    pcap_loop_inside (suc (size v)) v f.little_endian f.nanosecond_resolution f.link_type 24 w h
      (omega arith) (some f.diagnostics))

-- `parse_pcap` returns on every view and never reads outside it. A file that it returns has the
-- magic number of its byte order and resolution. The packets of a file that it
-- returns are the records from byte 24 on, one behind the other, in the byte order of the file: each
-- payload is what stands behind its record's header, with the length that the header gives. Each
-- packet's metadata are what `decode_packet_payload` returns for these bytes with the time and the
-- original length of that header and the file's link type. Behind the last packet there is no whole
-- record.
pub parse_pcap_inside : (v : ByteView) → IsView v → Ensures (IsCapture v) (parse_pcap v)
unfolding parse_pcap
parse_pcap_inside v w = elim (Bool-cases (ltb (size v) 24)) [
  | inl e ↦ rw e tt
  | inr e ↦ rw e (
      Ensures-bind (IsFormat v) (IsCapture v) (read_magic v) _
        (read_magic_inside v w (ground arith))
        λ format u.
          Ensures-bind (IsFileHeader v) (IsCapture v) (read_header v format) _
            (read_header_inside v format w (ground arith) u)
            λ f q. read_packets_inside v f w (ground arith) q)
]
