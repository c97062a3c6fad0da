-- ===== src/Packet/Dns.antt =====
-- `read_question`, `render_rdata`, `read_record` and `parse_dns_message` of src/packet/packet.cpp.
-- The offset that the source changes through a reference is returned with the value.
pub mod Bounds
use packet_guard.Base.{
  ℕ, zero, suc, ◌+◌, ◌-◌, ◌*◌, ◌/◌, ◌%◌, ◌^◌, bit_and, bit_or, Bool, true, false, not, ◌&&◌, ◌||◌,
  List, [], ◌∷◌, ◌++◌, map, Text, is_empty, length, Option, some, none, ltb, leb, ◌==◌,
  if◌then◌else◌,
}
use packet_guard.Core.ByteView.{ByteView, size, load, slice, read_be16, read_be32}
use packet_guard.Core.Diagnostics.{Parser, Sink, lift, warn_if}
use packet_guard.Core.Diagnostics
use packet_guard.Core.Ip.{IPv4Address}
use packet_guard.Core.IpText.{ipv4_to_string}
use packet_guard.Core.Result.{Result, ok, failed, overrun, fail, stuck, ◌>>=◌}
use packet_guard.Core.Strings.{bytes_to_hex}
use packet_guard.Packet.DnsName.{has_bytes, read_dns_name}
use packet_guard.Packet.Fields.{copy_bytes}
use packet_guard.Packet.Types.{DnsQuestion, DnsRecord, DnsMessage}

unfoldable pub read_question : ByteView → ℕ → Result (DnsQuestion × ℕ)
read_question v start = do
  (name, offset) ← read_dns_name v start
  if not (has_bytes v offset 4) then fail "dns question truncated" else (do
    type ← read_be16 v offset
    klass ← read_be16 v (offset + 2)
    ok (record { name = name; type = type; klass = klass }, offset + 4))

-- The character strings of a TXT record, joined by spaces. Each round moves forward, so the size and
-- one more rounds are enough.
unfoldable pub txt_loop : ℕ → ByteView → ℕ → Text → Result Text
txt_loop zero d offset txt = stuck
txt_loop (suc fuel) d offset txt = if leb (size d) offset then ok txt else do
  len ← load d offset
  let txt' = if is_empty txt then txt else txt ++ b' ' ∷ []
  if ltb (size d - (offset + 1)) len then ok txt else (do
    chars ← copy_bytes d (offset + 1) len
    txt_loop fuel d (offset + 1 + len) (txt' ++ chars))

-- The test that the record data lie in the message, on addresses.
abbrev outside_message : ByteView → ByteView → Bool
outside_message m d =
    m.address == 0
    || (d.address == 0
        || (ltb d.address m.address
            || (ltb (size m) (size d) || ltb (size m - size d) (d.address - m.address))))

abbrev names_a_host : ℕ → Bool
names_a_host type = type == 2 || (type == 5 || type == 12)

-- `auto name = read_dns_name(message, off); if (name) return name.value();`
unfoldable pub name_or : Result (Text × ℕ) → Text → Result Text
name_or (ok r) other = ok r.0
name_or (failed s) other = ok other
name_or overrun other = overrun
name_or stuck other = stuck

unfoldable pub render_rdata : ℕ → ByteView → ByteView → Result Text
render_rdata type m d =
    if type == 1 && size d == 4
    then (do value ← read_be32 d 0; ok (ipv4_to_string (record { value = value })))
    else if names_a_host type && ltb 0 (size d)
    then (if outside_message m d
        then ok (bytes_to_hex d.bytes)
        else name_or (read_dns_name m (d.address - m.address)) (bytes_to_hex d.bytes))
    else if type == 16 && ltb 1 (size d)
    then txt_loop (suc (size d)) d 0 []
    else ok (bytes_to_hex d.bytes)

-- The part of `read_record` behind the ten fixed bytes.
unfoldable pub read_data : ByteView → Text → ℕ → ℕ → ℕ → ℕ → ℕ → Result (DnsRecord × ℕ)
read_data v name type klass ttl len offset =
    if not (has_bytes v offset len) then fail "dns rdata truncated" else do
      rdata ← copy_bytes v offset len
      view ← slice v offset len
      text ← render_rdata type v view
      ok (
        record {
          name = name;
          type = type;
          klass = klass;
          ttl = ttl;
          rdata = rdata;
          data_text = text;
        },
        offset + len,
      )

unfoldable pub read_record : ByteView → ℕ → Result (DnsRecord × ℕ)
read_record v start = do
  (name, offset) ← read_dns_name v start
  if not (has_bytes v offset 10) then fail "dns record truncated" else (do
    type ← read_be16 v offset
    klass ← read_be16 v (offset + 2)
    ttl ← read_be32 v (offset + 4)
    len ← read_be16 v (offset + 8)
    read_data v name type klass ttl len (offset + 10))

-- `for (i = 0; i < count; ++i) { auto q = read(bytes, offset); if (!q) return q.status(); ... }`
unfoldable pub read_many : {A : Type 0} → (ℕ → Result (A × ℕ)) → ℕ → ℕ → Result (List A × ℕ)
read_many read zero offset = ok ([], offset)
read_many read (suc left) offset = do
  (item, offset') ← read offset
  (items, offset'') ← read_many read left offset'
  ok (item ∷ items, offset'')

unfoldable pub dns_fields : ByteView → Result DnsMessage
dns_fields v = do
  id ← read_be16 v 0
  flags ← read_be16 v 2
  qd ← read_be16 v 4
  an ← read_be16 v 6
  ns ← read_be16 v 8
  ar ← read_be16 v 10
  (questions, o₁) ← read_many (read_question v) qd 12
  (answers, o₂) ← read_many (read_record v) an o₁
  (authorities, o₃) ← read_many (read_record v) ns o₂
  (additionals, o₄) ← read_many (read_record v) ar o₃
  ok (record {
    id = id;
    response = not (bit_and flags 0x8000 == 0);
    opcode = bit_and (flags / 2 ^ 11) 0x0f;
    authoritative = not (bit_and flags 0x0400 == 0);
    truncated = not (bit_and flags 0x0200 == 0);
    recursion_desired = not (bit_and flags 0x0100 == 0);
    recursion_available = not (bit_and flags 0x0080 == 0);
    rcode = bit_and flags 0x0f;
    questions = questions;
    answers = answers;
    authorities = authorities;
    additionals = additionals;
  })

unfoldable pub warn_truncated : DnsMessage → Parser DnsMessage
warn_truncated msg =
    Diagnostics.◌>>◌ (warn_if msg.truncated "dns.truncated" "DNS message marked truncated" 2)
      (lift (ok msg))

unfoldable pub parse_dns_message : ByteView → Parser DnsMessage
parse_dns_message v =
    if ltb (size v) 12
    then lift (fail "dns message too short")
    else Diagnostics.◌>>=◌ (lift (dns_fields v)) warn_truncated
