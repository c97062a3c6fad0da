-- ===== src/Packet/Dns/Bounds.antt =====
-- A DNS message is read inside its view, and its parts are bounded.
use packet_guard.Base.{
  ℕ, zero, suc, ◌+◌, ◌-◌, ◌^◌, ◌<◌, ◌≤◌, ◌≡◌, refl, ap, arith, not, ◌&&◌, List, [], Text, ltb, leb,
  ◌==◌, if◌then◌else◌, Bool-cases, inl, inr, length, All,
}
use packet_guard.Core.ByteView.{ByteView, IsView, size, read_be16}
use packet_guard.Core.ByteView.Reads.{
  byte, be16, load_inside, read_be16_inside, read_be32_inside, slice_inside,
}
use packet_guard.Core.Diagnostics.{lift, Always, Always-bind, Always-if, Always-warn_if}
use packet_guard.Core.Result.{Result, ok, failed, overrun, stuck, Ensures, Ensures-bind, ◌>>=◌}
use packet_guard.Core.Strings.{bytes_to_hex}
use packet_guard.Packet.Types.{DnsQuestion, DnsRecord, DnsMessage}
use packet_guard.Packet.DnsName.{has_bytes, read_dns_name}
use packet_guard.Packet.DnsName.Bounds.{IsNameChar, IsName, read_dns_name_inside}
use packet_guard.Packet.Headers.Bounds.{copy_bytes_inside, be16-lt, be32-lt}
use packet_guard.Packet.Dns.{
  read_question, txt_loop, outside_message, names_a_host, name_or, render_rdata, read_data,
  read_record, read_many, dns_fields, warn_truncated, parse_dns_message,
}

-- A name as it stands in a question or a record.
pub record IsDnsName (name : Text) : Type 0 where
  pub printable : All IsNameChar name
  pub bounded : length name ≤ 3328

pub record IsQuestion (q : DnsQuestion) : Type 0 where
  pub named : IsDnsName q.name
  pub type_fits : q.type < 2 ^ 16
  pub klass_fits : q.klass < 2 ^ 16

pub record IsRecord (r : DnsRecord) : Type 0 where
  pub named : IsDnsName r.name
  pub type_fits : r.type < 2 ^ 16
  pub klass_fits : r.klass < 2 ^ 16
  pub ttl_fits : r.ttl < 2 ^ 32
  pub rdata_fits : length r.rdata < 2 ^ 16

-- What the header of the message says of its sections is what it holds.
pub record IsMessage (v : ByteView) (m : DnsMessage) : Type 0 where
  pub questions_good : All IsQuestion m.questions
  pub answers_good : All IsRecord m.answers
  pub authorities_good : All IsRecord m.authorities
  pub additionals_good : All IsRecord m.additionals
  pub questions_counted : length m.questions ≡ be16 (byte v 4) (byte v 5)
  pub answers_counted : length m.answers ≡ be16 (byte v 6) (byte v 7)
  pub authorities_counted : length m.authorities ≡ be16 (byte v 8) (byte v 9)
  pub additionals_counted : length m.additionals ≡ be16 (byte v 10) (byte v 11)

-- An item and the offset behind it.
abbrev Read : {A : Type 0} → (A → Type 0) → ByteView → A × ℕ → Type 0
Read P v r = P r.0 × (r.1 ≤ size v)

abbrev Returns : {A : Type 0} → Result A → Type 0
Returns r = Ensures (λ _. Unit) r

name-IsDnsName : (v : ByteView) (offset : ℕ) (r : Text × ℕ) → IsName v 3328 offset r → IsDnsName r.0
name-IsDnsName v offset r q = record { printable = q.printable; bounded = q.bounded }

IsQuestion-fields :
    (v : ByteView) (name : Text) (offset : ℕ)
    → IsView v
    → IsDnsName name
    → offset + 4 ≤ size v
    → Ensures (Read IsQuestion v) (
        read_be16 v offset >>= λ type. read_be16 v (offset + 2) >>= λ klass.
        ok (record { name = name; type = type; klass = klass }, offset + 4))
IsQuestion-fields v name offset w n h =
    rw (read_be16_inside v offset w (omega arith), read_be16_inside v (offset + 2) w (omega arith))
      (
        record {
          named = n;
          type_fits = be16-lt v offset (offset + 1) w;
          klass_fits = be16-lt v (offset + 2) (offset + 2 + 1) w;
        },
        h,
      )

read_question_inside :
    (v : ByteView) (start : ℕ) → IsView v → Ensures (Read IsQuestion v) (read_question v start)
unfolding read_question
read_question_inside v start w =
    Ensures-bind (IsName v 3328 start) (Read IsQuestion v) (read_dns_name v start) _
      (read_dns_name_inside v start w)
      λ r q. elim (Bool-cases (not (has_bytes v r.1 4))) [
        | inl e ↦ rw e tt
        | inr e ↦ rw e (IsQuestion-fields v r.0 r.1 w (name-IsDnsName v start r q) (ground arith))
      ]

txt_loop_inside :
    (fuel : ℕ) (d : ByteView) (offset : ℕ) (txt : Text)
    → IsView d
    → size d < offset + fuel
    → (fuel ≡ 0 → offset ≤ size d)
    → Returns (txt_loop fuel d offset txt)
unfolding txt_loop
txt_loop_inside zero d offset txt w h g = absurd (omega (arith, g refl))
txt_loop_inside (suc fuel) d offset txt w h g = elim (Bool-cases (leb (size d) offset)) [
  | inl e ↦ rw e tt
  | inr e ↦
      rw (e, load_inside d offset w (ground arith))
        (elim (Bool-cases (ltb (size d - (offset + 1)) (byte d offset))) [
          | inl f ↦ rw f tt
          | inr f ↦ rw f (
              let (bs, c, l) = copy_bytes_inside d (offset + 1) (byte d offset) w (ground arith) in
              rw c (
                txt_loop_inside fuel d (offset + 1 + byte d offset) _ w (omega arith)
                  (λ z. ground arith)))
        ])
]

name_or-Returns :
    (P : Text × ℕ → Type 0) (r : Result (Text × ℕ)) (other : Text)
    → Ensures P r
    → Returns (name_or r other)
unfolding name_or
name_or-Returns P (ok r) other h = tt
name_or-Returns P (failed s) other h = tt
name_or-Returns P overrun other h = h
name_or-Returns P stuck other h = h

render_host :
    (m d : ByteView)
    → IsView m
    → Returns (
        if outside_message m d
        then ok (bytes_to_hex d.bytes)
        else name_or (read_dns_name m (d.address - m.address)) (bytes_to_hex d.bytes))
render_host m d w = elim (Bool-cases (outside_message m d)) [
  | inl e ↦ rw e tt
  | inr e ↦
      rw e
        (name_or-Returns (IsName m 3328 (d.address - m.address)) _ _ (read_dns_name_inside m _ w))
]

render_rdata_inside :
    (type : ℕ) (m d : ByteView) → IsView m → IsView d → Returns (render_rdata type m d)
unfolding render_rdata
render_rdata_inside type m d w x = elim (Bool-cases (type == 1 && size d == 4)) [
  | inl e ↦ rw (e, read_be32_inside d 0 x (ground arith)) tt
  | inr e ↦ rw e (elim (Bool-cases (names_a_host type && ltb 0 (size d))) [
    | inl f ↦ rw f (render_host m d w)
    | inr f ↦ rw f (elim (Bool-cases (type == 16 && ltb 1 (size d))) [
      | inl g ↦
          rw g (txt_loop_inside (suc (size d)) d 0 [] x (omega arith) (λ z. absurd (omega arith)))
      | inr g ↦ rw g tt
    ])
  ])
]

read_data_inside :
    (v : ByteView) (name : Text) (type klass ttl len offset : ℕ)
    → IsView v
    → IsDnsName name
    → type < 2 ^ 16
    → klass < 2 ^ 16
    → ttl < 2 ^ 32
    → len < 2 ^ 16
    → Ensures (Read IsRecord v) (read_data v name type klass ttl len offset)
unfolding read_data
read_data_inside v name type klass ttl len offset w n p q r s =
    elim (Bool-cases (not (has_bytes v offset len))) [
      | inl e ↦ rw e tt
      | inr e ↦
          let (bs, c, l) = copy_bytes_inside v offset len w (ground arith) in
          let (d, f, g) = slice_inside v offset len w (ground arith) (ground arith) in
          rw (e, c, f)
            (Ensures-bind _ (Read IsRecord v) (render_rdata type v d) _
              (render_rdata_inside type v d w g.is_view)
              λ text u. (
                record {
                  named = n;
                  type_fits = p;
                  klass_fits = q;
                  ttl_fits = r;
                  rdata_fits = omega (arith, l);
                },
                ground arith,
              ))
    ]

read_record_inside :
    (v : ByteView) (start : ℕ) → IsView v → Ensures (Read IsRecord v) (read_record v start)
unfolding read_record
read_record_inside v start w =
    Ensures-bind (IsName v 3328 start) (Read IsRecord v) (read_dns_name v start) _
      (read_dns_name_inside v start w)
      λ r q. elim (Bool-cases (not (has_bytes v r.1 10))) [
        | inl e ↦ rw e tt
        | inr e ↦
            rw
              (
                e,
                read_be16_inside v r.1 w (ground arith),
                read_be16_inside v (r.1 + 2) w (ground arith),
                read_be32_inside v (r.1 + 4) w (ground arith),
                read_be16_inside v (r.1 + 8) w (ground arith),
              )
              (read_data_inside v r.0 _ _ _ _ (r.1 + 10) w (name-IsDnsName v start r q)
                (be16-lt v r.1 (r.1 + 1) w) (be16-lt v (r.1 + 2) (r.1 + 2 + 1) w)
                (be32-lt v (r.1 + 4) (r.1 + 4 + 1) (r.1 + 4 + 2) (r.1 + 4 + 3) w)
                (be16-lt v (r.1 + 8) (r.1 + 8 + 1) w))
      ]

-- A section of the message: as many good items as the count says.
abbrev Section : {A : Type 0} → (A → Type 0) → ℕ → List A × ℕ → Type 0
Section P count r = All P r.0 × (length r.0 ≡ count)

read_many_inside :
    {A : Type 0} (P : A → Type 0) (v : ByteView) (read : ℕ → Result (A × ℕ))
    → ((offset : ℕ) → Ensures (Read P v) (read offset))
    → (count offset : ℕ) → Ensures (Section P count) (read_many read count offset)
unfolding read_many
read_many_inside P v read h zero offset = (tt, refl)
read_many_inside P v read h (suc count) offset =
    Ensures-bind (Read P v) _ (read offset) _ (h offset) λ r p.
      Ensures-bind (Section P count) _ (read_many read count r.1) _
        (read_many_inside P v read h count r.1) λ s q. ((p.0, q.0), ap suc q.1)

dns_fields_inside : (v : ByteView) → IsView v → 12 ≤ size v → Ensures (IsMessage v) (dns_fields v)
unfolding dns_fields
dns_fields_inside v w h =
    rw
      (
        read_be16_inside v 0 w (omega arith),
        read_be16_inside v 2 w (omega arith),
        read_be16_inside v 4 w (omega arith),
        read_be16_inside v 6 w (omega arith),
        read_be16_inside v 8 w (omega arith),
        read_be16_inside v 10 w (omega arith),
      )
      (Ensures-bind _ (IsMessage v) (read_many (read_question v) (be16 (byte v 4) (byte v 5)) 12) _
        (read_many_inside IsQuestion v _ (λ i. read_question_inside v i w) _ 12)
        λ qs q.
          Ensures-bind _ (IsMessage v) (read_many (read_record v) (be16 (byte v 6) (byte v 7)) qs.1)
            _ (records _ qs.1)
            λ an a.
              Ensures-bind _ (IsMessage v)
                (read_many (read_record v) (be16 (byte v 8) (byte v 9)) an.1) _ (records _ an.1)
                λ ns n.
                  Ensures-bind _ (IsMessage v)
                    (read_many (read_record v) (be16 (byte v 10) (byte v 11)) ns.1) _
                    (records _ ns.1)
                    λ ar r. record {
                      questions_good = q.0;
                      answers_good = a.0;
                      authorities_good = n.0;
                      additionals_good = r.0;
                      questions_counted = q.1;
                      answers_counted = a.1;
                      authorities_counted = n.1;
                      additionals_counted = r.1;
                    })
  where
    records :
        (count offset : ℕ)
        → Ensures (Section IsRecord count) (read_many (read_record v) count offset)
    records = read_many_inside IsRecord v (read_record v) (λ i. read_record_inside v i w)

warn_truncated-IsMessage :
    (v : ByteView) (m : DnsMessage) → IsMessage v m → Always (IsMessage v) (warn_truncated m)
unfolding warn_truncated
warn_truncated-IsMessage v m q =
    Always-warn_if (IsMessage v) m.truncated "dns.truncated" "DNS message marked truncated" 2
      (lift (ok m)) (λ d. q)

-- On every view, and with or without a diagnostics sink, `parse_dns_message` returns without
-- reading outside the view: a failure, or a message whose four sections hold as many items as the
-- header counts. Every name in it is of printable characters and at most 3328 long, and types,
-- classes, times to live and record data fit their fields.
pub parse_dns_message_inside :
    (v : ByteView) → IsView v → Always (IsMessage v) (parse_dns_message v)
unfolding parse_dns_message
parse_dns_message_inside v w =
    Always-if (IsMessage v) (ltb (size v) 12) _ _ (λ e d. tt)
      λ e.
        Always-bind (IsMessage v) (IsMessage v) (lift (dns_fields v)) warn_truncated
          (λ d. dns_fields_inside v w (ground arith)) (warn_truncated-IsMessage v)
