-- ===== src/Packet/Pcap.antt =====
-- `parse_pcap` of src/packet/packet.cpp. Its local diagnostics are the sink of the loop.
pub mod Records
use packet_guard.Base.{
  ℕ, zero, suc, ◌+◌, ◌-◌, ◌*◌, Bool, true, false, not, List, [], ◌∷◌, Option, some, none, ltb, leb,
  ◌==◌, if◌then◌else◌, codes,
}
use packet_guard.Base.Int.{pos}
use packet_guard.Core.ByteView.{
  ByteView, null_view, size, slice, to_vector, read_be16, read_be32, read_le16, read_le32,
}
use packet_guard.Core.Diagnostics.{
  Diagnostics, no_diagnostics, add_warning, Parser, Sink, lift, warn_to, error_to,
}
use packet_guard.Core.Diagnostics
use packet_guard.Core.Result.{Result, ok, fail, failed, overrun, stuck}
use packet_guard.Core.Result
use packet_guard.Core.Time.{Timestamp, normalize_timestamp}
use packet_guard.Packet.Types.{PacketMetadata, PcapPacket, PcapFile}
use packet_guard.Packet.Decode.{decode_packet_payload}

-- The byte order and the resolution that the magic number stands for.
pub record PcapFormat : Type 0 where
  pub little_endian : Bool
  pub nanoseconds : Bool

-- `rd16` and `rd32`.
unfoldable pub rd16 : Bool → ByteView → ℕ → Result ℕ
rd16 le v offset = if le then read_le16 v offset else read_be16 v offset

unfoldable pub rd32 : Bool → ByteView → ℕ → Result ℕ
rd32 le v offset = if le then read_le32 v offset else read_be32 v offset

abbrev pcap_format : ℕ → ℕ → Result PcapFormat
pcap_format magic_be magic_le =
    if magic_le == 0xa1b2c3d4
    then ok (record { little_endian = true; nanoseconds = false })
    else if magic_be == 0xa1b2c3d4
    then ok (record { little_endian = false; nanoseconds = false })
    else if magic_le == 0xa1b23c4d
    then ok (record { little_endian = true; nanoseconds = true })
    else if magic_be == 0xa1b23c4d
    then ok (record { little_endian = false; nanoseconds = true })
    else fail "unsupported pcap magic"

-- `std::uint32_t magic_be = ..., magic_le = ...` and the chain of tests on them.
unfoldable pub read_magic : ByteView → Result PcapFormat
read_magic v =
    Result.◌>>=◌ (read_be32 v 0)
      λ magic_be. Result.◌>>=◌ (read_le32 v 0) λ magic_le. pcap_format magic_be magic_le

abbrev version_diagnostics : ℕ → Diagnostics
version_diagnostics major =
    if not (major == 2)
    then add_warning no_diagnostics (codes "pcap.version") (codes "PCAP major version is unusual") 4
    else no_diagnostics

-- The file's header, with the diagnostics so far and no packet.
unfoldable pub read_header : ByteView → PcapFormat → Result PcapFile
read_header v format =
    let le = format.little_endian in
    Result.◌>>=◌ (rd16 le v 4) λ major. Result.◌>>=◌ (rd16 le v 6) λ minor.
      Result.◌>>=◌ (rd32 le v 8) λ this_zone. Result.◌>>=◌ (rd32 le v 16) λ snaplen.
        Result.◌>>=◌ (rd32 le v 20) λ link_type. ok (record {
          nanosecond_resolution = format.nanoseconds;
          little_endian = le;
          major = major;
          minor = minor;
          this_zone = this_zone;
          snaplen = snaplen;
          link_type = link_type;
          packets = [];
          diagnostics = version_diagnostics major;
        })

-- The header of a record.
pub record RecordHeader : Type 0 where
  pub ts_sec : ℕ
  pub ts_frac : ℕ
  pub incl_len : ℕ
  pub orig_len : ℕ

unfoldable pub read_record_header : Bool → ByteView → ℕ → Result RecordHeader
read_record_header le v offset = Result.◌>>=◌ (rd32 le v offset) λ ts_sec.
    Result.◌>>=◌ (rd32 le v (offset + 4)) λ ts_frac.
      Result.◌>>=◌ (rd32 le v (offset + 8)) λ incl_len.
        Result.◌>>=◌ (rd32 le v (offset + 12)) λ orig_len.
          ok (record {
            ts_sec = ts_sec;
            ts_frac = ts_frac;
            incl_len = incl_len;
            orig_len = orig_len;
          })

abbrev pub record_time : Bool → RecordHeader → Timestamp
record_time ns h =
    normalize_timestamp (pos h.ts_sec) (pos (if ns then h.ts_frac else h.ts_frac * 1000))

-- `pkt_bytes.value()`, which the source takes with no test: of a failure it is the default view.
abbrev value : Result ByteView → Result ByteView
value (ok a) = ok a
value (failed s) = ok null_view
value overrun = overrun
value stuck = stuck

-- The rest of a round, behind the record's header; `next` goes on with the loop.
unfoldable pub pcap_record :
    (ℕ → Parser (List PcapPacket))
    → ByteView
    → Bool
    → ℕ
    → ℕ
    → RecordHeader
    → Parser (List PcapPacket)
pcap_record next v ns link_type offset h =
    if ltb (size v - offset) h.incl_len
    then (λ d. (ok [], error_to d "pcap.packet" "Captured packet length exceeds file" offset))
    else Diagnostics.◌>>=◌ (lift (value (slice v offset h.incl_len))) λ pkt.
      Diagnostics.◌>>=◌ (decode_packet_payload (record_time ns h) pkt h.orig_len link_type) λ md.
        Diagnostics.◌>>=◌ (next (offset + h.incl_len))
          λ packets. lift (ok (record { metadata = md; payload = to_vector pkt } ∷ packets))

-- A round of the `while`.
unfoldable pub pcap_round :
    (ℕ → Parser (List PcapPacket)) → ByteView → Bool → Bool → ℕ → ℕ → Parser (List PcapPacket)
pcap_round next v le ns link_type offset =
    if leb (size v) offset
    then lift (ok [])
    else if ltb (size v - offset) 16
    then (λ d. (ok [], warn_to d "pcap.record" "Trailing bytes after final packet header" offset))
    else Diagnostics.◌>>=◌ (lift (read_record_header le v offset))
        (pcap_record next v ns link_type (offset + 16))

-- Every round moves forward, so as many rounds as there are bytes and one more are enough.
unfoldable pub pcap_loop : ℕ → ByteView → Bool → Bool → ℕ → ℕ → Parser (List PcapPacket)
pcap_loop zero v le ns link_type offset = lift stuck
pcap_loop (suc fuel) v le ns link_type offset =
    pcap_round (pcap_loop fuel v le ns link_type) v le ns link_type offset

-- `pcap.diagnostics = std::move(diag); return pcap;`
abbrev finish : PcapFile → Result (List PcapPacket) × Sink → Result PcapFile
finish pcap (ok packets, some d) = ok (record pcap { packets = packets; diagnostics = d })
finish pcap (ok packets, none) = ok (record pcap { packets = packets })
finish pcap (failed s, d) = failed s
finish pcap (overrun, d) = overrun
finish pcap (stuck, d) = stuck

unfoldable pub read_packets : ByteView → PcapFile → Result PcapFile
read_packets v pcap = finish pcap (
    pcap_loop (suc (size v)) v pcap.little_endian pcap.nanosecond_resolution pcap.link_type 24
      (some pcap.diagnostics))

unfoldable pub parse_pcap : ByteView → Result PcapFile
parse_pcap v =
    if ltb (size v) 24
    then fail "pcap file too short"
    else Result.◌>>=◌ (read_magic v)
        λ format. Result.◌>>=◌ (read_header v format) λ pcap. read_packets v pcap
