-- ===== src/Packet/DnsName/Bounds.antt =====
-- Names are read inside the message, in bounded time, and are bounded themselves.
use packet_guard.Base.{
  ℕ, zero, suc, ◌+◌, ◌*◌, ◌%◌, ◌^◌, ◌<◌, ◌≤◌, ◌≡◌, refl, ap, arith, bit_and, bit_or, Bool, true,
  false, not, List, [], ◌∷◌, ◌++◌, map, Text, is_empty, ltb, leb, ◌==◌, if◌then◌else◌, Bool-cases,
  inl, inr, length, All, All-append, length-append,
}
use packet_guard.Core.ByteView.{ByteView, IsView, size}
use packet_guard.Core.ByteView.Reads.{byte, load_inside}
use packet_guard.Core.Result.{Result, ok, fail, Ensures, Ensures-bind, Ensures-weaken, ◌>>=◌}
use packet_guard.Core.Strings.{lower_char}
use packet_guard.Packet.Fields.{copy_bytes}
use packet_guard.Packet.DnsName.{
  has_bytes, label_char, dotted, read_pointer, read_label, name_round, name_loop, name_at,
  read_dns_name,
}
use packet_guard.Packet.Headers.Bounds.{copy_bytes_inside}

-- Printable, and no space.
abbrev pub IsNameChar : ℕ → Type 0
IsNameChar c = (33 ≤ c) × (c ≤ 126)

-- What a reading of a name from `offset` on returns.
pub record IsName (v : ByteView) (bound offset : ℕ) (r : Text × ℕ) : Type 0 where
  pub printable : All IsNameChar r.0
  pub bounded : length r.0 ≤ bound
  pub forward : offset < r.1
  pub inside : r.1 ≤ size v

label_char-IsNameChar : (c : ℕ) → IsNameChar (label_char c)
unfolding label_char lower_char
label_char-IsNameChar c = ground arith

label_chars :
    (cs : List ℕ) → All IsNameChar (map label_char cs) × (length (map label_char cs) ≡ length cs)
label_chars [] = (tt, refl)
label_chars (c ∷ cs) = let (p, l) = label_chars cs in ((label_char-IsNameChar c, p), ap suc l)

dotted_lem :
    (name : Text) (more : Bool)
    → All IsNameChar name
    → All IsNameChar (dotted name more) × (length (dotted name more) ≤ length name + 1)
dotted_lem [] more p = (tt, omega arith)
dotted_lem (c ∷ name) false p = (p, omega arith)
dotted_lem (c ∷ name) true p = (
  All-append IsNameChar (c ∷ name) (b'.' ∷ []) p ((omega arith, omega arith), tt),
  omega (arith, length-append name (b'.' ∷ [])),
)

abbrev Deeper : ByteView → ℕ → (ℕ → Result (Text × ℕ)) → Type 0
Deeper v bound deeper = (p : ℕ) → Ensures (IsName v bound p) (deeper p)

read_pointer_inside :
    (deeper : ℕ → Result (Text × ℕ)) (v : ByteView) (bound len offset : ℕ) (name : Text)
    → IsView v
    → Deeper v bound deeper
    → All IsNameChar name
    → length name ≤ 255
    → Ensures (IsName v (256 + bound) offset) (read_pointer deeper v len offset name)
unfolding read_pointer
read_pointer_inside deeper v bound len offset name w h p l =
    elim (Bool-cases (leb (size v) offset)) [
      | inl e ↦ rw e tt
      | inr e ↦
          rw (e, load_inside v offset w (ground arith))
            (Ensures-bind _ _ (deeper (bit_or (bit_and len 0x3f * 2 ^ 8) (byte v offset) % 2 ^ 16))
              _ (h _)
              λ s q.
                let (d, m) = dotted_lem name (not (is_empty s.0)) p in
                record {
                  printable = All-append IsNameChar _ s.0 d q.printable;
                  bounded = omega (
                    arith,
                    length-append (dotted name (not (is_empty s.0))) s.0,
                    m,
                    l,
                    q.bounded,
                  );
                  forward = omega arith;
                  inside = ground arith;
                })
    ]

IsName-earlier :
    (v : ByteView) (bound i j : ℕ) (r : Text × ℕ) → i ≤ j → IsName v bound j r → IsName v bound i r
IsName-earlier v bound i j r h q = record {
  printable = q.printable;
  bounded = q.bounded;
  forward = omega (arith, q.forward);
  inside = q.inside;
}

-- What the rest of the loop promises, from an offset on.
abbrev Continues : ByteView → ℕ → ℕ → (ℕ → Text → Result (Text × ℕ)) → Type 0
Continues v bound offset next =
    (i : ℕ) (name : Text)
    → offset ≤ i
    → i ≤ size v
    → All IsNameChar name
    → length name ≤ 255
    → Ensures (IsName v bound i) (next i name)

read_label_inside :
    (next : ℕ → Text → Result (Text × ℕ)) (v : ByteView) (bound len offset : ℕ) (name : Text)
    → IsView v
    → Continues v bound offset next
    → All IsNameChar name
    → Ensures (IsName v bound offset) (read_label next v len offset name)
unfolding read_label
read_label_inside next v bound len offset name w h p =
    elim (Bool-cases (not (bit_and len 0xc0 == 0))) [
      | inl e ↦ rw e tt
      | inr e ↦ rw e (elim (Bool-cases (not (has_bytes v offset len))) [
        | inl f ↦ rw f tt
        | inr f ↦ rw f (copied (ground arith) (copy_bytes_inside v offset len w (ground arith)))
      ])
    ]
  where
    copied :
        offset + len ≤ size v
        → (bs : List ℕ) × (copy_bytes v offset len ≡ ok bs) × (length bs ≡ len)
        → Ensures (IsName v bound offset) (
            copy_bytes v offset len >>= λ label.
            let name' = dotted name true ++ map label_char label in
            if ltb 255 (length name') then fail "dns name too long" else next (offset + len) name')
    copied room (bs, e, l) =
        rw e (elim (Bool-cases (ltb 255 (length (dotted name true ++ map label_char bs)))) [
          | inl g ↦ rw g tt
          | inr g ↦ rw g (
              Ensures-weaken _ _ (next (offset + len) _)
                (h (offset + len) _ (omega arith) room
                  (All-append IsNameChar _ _ (dotted_lem name true p).0 (label_chars bs).0)
                  (ground arith))
                (λ r q. IsName-earlier v bound offset (offset + len) r (omega arith) q))
        ])

name_round_inside :
    (deeper : ℕ → Result (Text × ℕ)) (next : ℕ → Text → Result (Text × ℕ)) (v : ByteView)
    (bound offset : ℕ) (name : Text)
    → IsView v
    → Deeper v bound deeper
    → Continues v (256 + bound) (offset + 1) next
    → All IsNameChar name
    → length name ≤ 255
    → Ensures (IsName v (256 + bound) offset) (name_round deeper next v offset name)
unfolding name_round
name_round_inside deeper next v bound offset name w h k p l =
    elim (Bool-cases (leb (size v) offset)) [
      | inl e ↦ rw e tt
      | inr e ↦
          rw (e, load_inside v offset w (ground arith))
            (elim (Bool-cases (byte v offset == 0)) [
              | inl z ↦ rw z (record {
                printable = p;
                bounded = omega arith;
                forward = omega arith;
                inside = ground arith;
              })
              | inr z ↦ rw z (elim (Bool-cases (bit_and (byte v offset) 0xc0 == 0xc0)) [
                | inl c ↦ rw c (
                    Ensures-weaken _ _ (read_pointer deeper v (byte v offset) (offset + 1) name)
                      (read_pointer_inside deeper v bound (byte v offset) (offset + 1) name w h p l)
                      earlier)
                | inr c ↦ rw c (
                    Ensures-weaken _ _ (read_label next v (byte v offset) (offset + 1) name)
                      (read_label_inside next v (256 + bound) (byte v offset) (offset + 1) name w k
                        p)
                      earlier)
              ])
            ])
    ]
  where
    earlier :
        (r : Text × ℕ) → IsName v (256 + bound) (offset + 1) r → IsName v (256 + bound) offset r
    earlier r = IsName-earlier v (256 + bound) offset (offset + 1) r (omega arith)

name_loop_inside :
    (deeper : ℕ → Result (Text × ℕ)) (v : ByteView) (bound fuel offset : ℕ) (name : Text)
    → IsView v
    → Deeper v bound deeper
    → size v < offset + fuel
    → (fuel ≡ 0 → offset ≤ size v)
    → All IsNameChar name
    → length name ≤ 255
    → Ensures (IsName v (256 + bound) offset) (name_loop deeper v fuel offset name)
unfolding name_loop
name_loop_inside deeper v bound zero offset name w h f g p l = absurd (omega (arith, g refl))
name_loop_inside deeper v bound (suc fuel) offset name w h f g p l =
    name_round_inside deeper (name_loop deeper v fuel) v bound offset name w h
      (λ i name' j k p' l'.
        name_loop_inside deeper v bound fuel i name' w h (omega arith) (λ z. k) p' l')
      p l

name_at_inside :
    (levels : ℕ) (v : ByteView)
    → IsView v
    → (offset : ℕ) → Ensures (IsName v (256 * levels) offset) (name_at levels v offset)
unfolding name_at
name_at_inside zero v w offset = tt
name_at_inside (suc levels) v w offset =
    let e : 256 * suc levels ≡ 256 + 256 * levels = omega arith in
    rw e (
      name_loop_inside (name_at levels v) v (256 * levels) (suc (size v)) offset [] w
        (name_at_inside levels v w) (omega arith) (λ z. absurd (omega arith)) tt (omega arith))

-- On every message and offset `read_dns_name` returns without reading outside the message: a
-- failure, or a name of printable characters of at most 3328 bytes and an offset behind the start
-- and inside the message.
pub read_dns_name_inside :
    (v : ByteView) (offset : ℕ) → IsView v → Ensures (IsName v 3328 offset) (read_dns_name v offset)
unfolding read_dns_name
read_dns_name_inside v offset w = name_at_inside 13 v w offset
