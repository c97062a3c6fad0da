-- ===== src/Core/ByteReader/Laws.antt =====
-- The reader never leaves its view: each read takes the next bytes or changes nothing.
use packet_guard.Base.{
  ℕ, suc, ◌+◌, ◌/◌, ◌%◌, ◌^◌, ◌<◌, ◌≤◌, Bool, ◌≡◌, ◌∙◌, List, [], ◌∷◌, ◌++◌, leb, if◌then◌else◌,
  length, get_or, All, arith, length-append, inl, inr, Bool-cases, ◌≢◌,
}
use packet_guard.Core.ByteReader.{
  ByteReader, can_read, remaining, read_u8, next_be16, next_be32, next_le16, next_le32, read_bytes,
  peek_bytes, advance,
}
use packet_guard.Core.ByteView.{ByteView, IsView, size, slice}
use packet_guard.Core.ByteView.Reads.{
  byte, be16, be32, load_inside, read_be16_inside, read_be32_inside, read_le16_inside,
  read_le32_inside, IsPart, slice_inside,
}
use packet_guard.Core.Result.{Result, ok, fail}

pub record IsReader (r : ByteReader) : Type 0 where
  pub is_view : IsView r.view
  pub inside : r.offset ≤ size r.view

-- The byte `i` places after the reader's offset.
abbrev pub ahead : ByteReader → ℕ → ℕ
ahead r i = byte r.view (r.offset + i)

abbrev pub moved : ByteReader → ℕ → ByteReader
moved r n = record r { offset = r.offset + n }

abbrev pub fits : ByteReader → ℕ → Bool
fits r n = leb (r.offset + n) (size r.view)

can_read-fits : (r : ByteReader) (n : ℕ) → IsReader r → can_read r n ≡ fits r n
unfolding can_read remaining
can_read-fits r n v = ground (arith, v.inside)

-- Each typed read, on a reader within its view, returns the value of the next bytes in its byte
-- order and moves past them, or fails with its message and leaves the reader as it was when fewer
-- bytes are left.
pub typed_reads :
    (r : ByteReader)
    → IsReader r
    → (read_u8 r ≡ (
        if fits r 1 then (ok (byte r.view r.offset), moved r 1) else (fail "short read for u8", r)))
      × (next_be16 r ≡ (
          if fits r 2
          then (ok (be16 (byte r.view r.offset) (ahead r 1)), moved r 2)
          else (fail "short read for be16", r)))
      × (next_be32 r ≡ (
          if fits r 4
          then (ok (be32 (byte r.view r.offset) (ahead r 1) (ahead r 2) (ahead r 3)), moved r 4)
          else (fail "short read for be32", r)))
      × (next_le16 r ≡ (
          if fits r 2
          then (ok (be16 (ahead r 1) (byte r.view r.offset)), moved r 2)
          else (fail "short read for le16", r)))
      × (next_le32 r ≡ (
          if fits r 4
          then (ok (be32 (ahead r 3) (ahead r 2) (ahead r 1) (byte r.view r.offset)), moved r 4)
          else (fail "short read for le32", r)))
unfolding read_u8 next_be16 next_be32 next_le16 next_le32
typed_reads r v = (
  ground (arith, can_read-fits r 1 v, load_inside r.view r.offset v.is_view),
  ground (arith, can_read-fits r 2 v, read_be16_inside r.view r.offset v.is_view),
  ground (arith, can_read-fits r 4 v, read_be32_inside r.view r.offset v.is_view),
  ground (arith, can_read-fits r 2 v, read_le16_inside r.view r.offset v.is_view),
  ground (arith, can_read-fits r 4 v, read_le32_inside r.view r.offset v.is_view),
)

slice_fits :
    (r : ByteReader) (count : ℕ)
    → IsReader r
    → r.offset + count ≤ size r.view
    → (w : ByteView) × (slice r.view r.offset count ≡ ok w) × IsPart r.view r.offset count w
slice_fits r count v h = slice_inside r.view r.offset count v.is_view v.inside (omega arith)

-- `read_bytes` and `peek_bytes` hand out the next `count` bytes as a view of their own, and
-- `read_bytes` moves past them, when that many are left.
pub read_bytes_within :
    (r : ByteReader) (count : ℕ)
    → IsReader r
    → r.offset + count ≤ size r.view
    → (w : ByteView) × (read_bytes r count ≡ (ok w, moved r count))
      × (peek_bytes r count ≡ ok w)
      × IsPart r.view r.offset count w
unfolding read_bytes peek_bytes
read_bytes_within r count v h =
    let (w, e, p) = slice_fits r count v h in
    (w, ground (arith, can_read-fits r count v, e), ground (arith, can_read-fits r count v, e), p)

pub read_bytes_short :
    (r : ByteReader) (count : ℕ)
    → IsReader r
    → size r.view < r.offset + count
    → (read_bytes r count ≡ (fail "short read for byte span", r))
      × (peek_bytes r count ≡ fail "short peek for byte span")
unfolding read_bytes peek_bytes
read_bytes_short r count v h =
    (ground (arith, can_read-fits r count v), ground (arith, can_read-fits r count v))

typed_IsReader :
    (r : ByteReader) (n : ℕ) (a b : Result ℕ) (q : Result ℕ × ByteReader)
    → IsReader r
    → q ≡ (if fits r n then (a, moved r n) else (b, r))
    → IsReader q.1
typed_IsReader r n a b q v e = ground (arith, v.is_view, v.inside)

read_bytes-IsReader : (r : ByteReader) (count : ℕ) → IsReader r → IsReader (read_bytes r count).1
read_bytes-IsReader r count v = elim (Bool-cases (fits r count)) [
  | inl e ↦
      let (w, e', _, _) = read_bytes_within r count v (ground arith) in
      rw e' (record { is_view = v.is_view; inside = ground arith })
  | inr e ↦ rw ((read_bytes_short r count v (ground arith)).0) v
]

-- No operation takes a reader within its view out of it, whatever the count.
pub reads-IsReader :
    (r : ByteReader) (count : ℕ)
    → IsReader r
    → IsReader (read_u8 r).1
      × IsReader (next_be16 r).1
      × IsReader (next_be32 r).1
      × IsReader (next_le16 r).1
      × IsReader (next_le32 r).1
      × IsReader (read_bytes r count).1
      × IsReader (advance r count)
unfolding advance
reads-IsReader r count v =
    let reads = typed_reads r v in
    (
      typed_IsReader r 1 _ _ _ v reads.0,
      typed_IsReader r 2 _ _ _ v reads.1,
      typed_IsReader r 4 _ _ _ v reads.2,
      typed_IsReader r 2 _ _ _ v reads.3,
      typed_IsReader r 4 _ _ _ v reads.4,
      read_bytes-IsReader r count v,
      record { is_view = v.is_view; inside = omega arith },
    )

-- The four bytes of a word, most significant first.
abbrev pub encode_be32 : ℕ → List ℕ
encode_be32 w = (w / 2 ^ 24) ∷ (w / 2 ^ 16 % 256) ∷ (w / 2 ^ 8 % 256) ∷ (w % 256) ∷ []

get_or-append : (xs ys : List ℕ) (i : ℕ) → get_or (xs ++ ys) (length xs + i) 0 ≡ get_or ys i 0
get_or-append [] ys i = let e : 0 + i ≡ i = omega arith in rw e
get_or-append (x ∷ xs) ys i =
    let e : suc (length xs) + i ≡ suc (length xs + i) = omega arith in rw e (get_or-append xs ys i)

abbrev pub reader_at : ℕ → List ℕ → ℕ → ByteReader
reader_at address bytes offset = record {
  view = record { address = address; bytes = bytes };
  offset = offset;
}

word_sum :
    (w : ℕ) → w < 2 ^ 32 → be32 (w / 2 ^ 24) (w / 2 ^ 16 % 256) (w / 2 ^ 8 % 256) (w % 256) ≡ w
word_sum w h = omega arith

-- A 32-bit word written as four bytes, most significant first, is read back by `read_be32` whatever
-- stands before and after it, and the reader stands behind it.
pub next_be32-encode :
    (address w : ℕ) (before rest : List ℕ)
    → address ≢ 0
    → w < 2 ^ 32
    → All (λ b. b < 256) (before ++ (encode_be32 w ++ rest))
    → next_be32 (reader_at address (before ++ (encode_be32 w ++ rest)) (length before))
      ≡ (ok w, reader_at address (before ++ (encode_be32 w ++ rest)) (length before + 4))
next_be32-encode address w before rest placed h octets =
    (typed_reads r v).2
    ∙ ground (
      arith,
      room,
      word_sum w h,
      get_or-append before tail 0,
      get_or-append before tail 1,
      get_or-append before tail 2,
      get_or-append before tail 3,
    )
  where
    tail : List ℕ
    tail = encode_be32 w ++ rest

    r : ByteReader
    r = reader_at address (before ++ tail) (length before)

    room : length (before ++ tail) ≡ length before + (4 + length rest)
    room = omega (arith, length-append before tail)

    v : IsReader r
    v = record {
      is_view = record { placed = λ e. absurd (placed e); octets = octets };
      inside = omega (arith, room);
    }
