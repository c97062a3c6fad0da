-- ===== src/Core/ByteView/Reads.antt =====
-- Reads inside a view succeed, and what the multi-byte reads put together.
use packet_guard.Base.{
  ℕ, zero, suc, ◌+◌, ◌-◌, ◌*◌, ◌%◌, ◌^◌, ◌<◌, ◌≤◌, bit_or, false, ◌≡◌, refl, ap, List, [], ◌∷◌,
  get_or, get_elem?-lt, take, drop, All, arith, length-take, length-drop,
}
use packet_guard.Base.Bits.{bit_or_sum, bit_or_sum_right}
use packet_guard.Core.ByteView.{
  ByteView, IsView, size, load, slice, read_be16, read_be32, read_le16, read_le32, is_invalid,
}
use packet_guard.Core.Result.{ok, fail}

-- The byte at an index of a view; 0 outside it.
abbrev pub byte : ByteView → ℕ → ℕ
byte v i = get_or v.bytes i 0

-- What two and four bytes stand for, most significant first.
abbrev pub be16 : ℕ → ℕ → ℕ
be16 a b = a * 256 + b

abbrev pub be32 : ℕ → ℕ → ℕ → ℕ → ℕ
be32 a b c d = a * 16777216 + b * 65536 + c * 256 + d

get_or-lt : (xs : List ℕ) (i : ℕ) → All (λ b. b < 256) xs → get_or xs i 0 < 256
get_or-lt [] i h = omega arith
get_or-lt (x ∷ xs) zero h = h.0
get_or-lt (x ∷ xs) (suc i) h = get_or-lt xs i h.1

pub byte-lt : (v : ByteView) (i : ℕ) → IsView v → byte v i < 256
byte-lt v i w = get_or-lt v.bytes i w.octets

pub load_inside : (v : ByteView) (i : ℕ) → IsView v → i < size v → load v i ≡ ok (byte v i)
unfolding load
load_inside v i w h = ground (arith, w.placed, get_elem?-lt v.bytes i 0 h)

be16_bits : (a b : ℕ) → a < 256 → b < 256 → bit_or (a * 2 ^ 8) b % 2 ^ 16 ≡ be16 a b
be16_bits a b p q = omega (arith, bit_or_sum 8 a b q)

be32_bits :
    (a b c d : ℕ)
    → a < 256
    → b < 256
    → c < 256
    → d < 256
    → bit_or (bit_or (bit_or (a * 2 ^ 24 % 2 ^ 32) (b * 2 ^ 16 % 2 ^ 32)) (c * 2 ^ 8 % 2 ^ 32)) d
      ≡ be32 a b c d
be32_bits a b c d p q r s =
    let e₁ : a * 2 ^ 24 % 2 ^ 32 ≡ a * 2 ^ 24 = omega arith in
    let e₂ : b * 2 ^ 16 % 2 ^ 32 ≡ b * 2 ^ 16 = omega arith in
    let e₃ : c * 2 ^ 8 % 2 ^ 32 ≡ c * 2 ^ 8 = omega arith in
    let f₁ = bit_or_sum 24 a (b * 2 ^ 16) (omega arith) in
    let f₂ = bit_or_sum 16 (a * 2 ^ 8 + b) (c * 2 ^ 8) (omega arith) in
    let f₃ = bit_or_sum 8 (a * 2 ^ 16 + b * 2 ^ 8 + c) d (omega arith) in
    let g₂ : (a * 2 ^ 8 + b) * 2 ^ 16 ≡ a * 2 ^ 24 + b * 2 ^ 16 = omega arith in
    let g₃ : (a * 2 ^ 16 + b * 2 ^ 8 + c) * 2 ^ 8 ≡ (a * 2 ^ 8 + b) * 2 ^ 16 + c * 2 ^ 8 =
      omega arith in
    ground (arith, e₁, e₂, e₃, f₁, f₂, f₃, g₂, g₃)

-- A two-byte read inside a view gives the big-endian value of the two bytes.
pub read_be16_inside :
    (v : ByteView) (p : ℕ)
    → IsView v
    → p + 2 ≤ size v
    → read_be16 v p ≡ ok (be16 (byte v p) (byte v (p + 1)))
unfolding read_be16
read_be16_inside v p w h =
    rw (load_inside v p w (omega arith), load_inside v (p + 1) w (omega arith))
      (ap ok (be16_bits _ _ (byte-lt v p w) (byte-lt v (p + 1) w)))

pub read_be32_inside :
    (v : ByteView) (p : ℕ)
    → IsView v
    → p + 4 ≤ size v
    → read_be32 v p ≡ ok (be32 (byte v p) (byte v (p + 1)) (byte v (p + 2)) (byte v (p + 3)))
unfolding read_be32
read_be32_inside v p w h =
    rw
      (
        load_inside v p w (omega arith),
        load_inside v (p + 1) w (omega arith),
        load_inside v (p + 2) w (omega arith),
        load_inside v (p + 3) w (omega arith),
      )
      (ap ok (
        be32_bits _ _ _ _ (byte-lt v p w) (byte-lt v (p + 1) w) (byte-lt v (p + 2) w)
          (byte-lt v (p + 3) w)))

le16_bits : (a b : ℕ) → a < 256 → b < 256 → bit_or a (b * 2 ^ 8) % 2 ^ 16 ≡ be16 b a
le16_bits a b p q = omega (arith, bit_or_sum_right 8 b a p)

le32_bits :
    (a b c d : ℕ)
    → a < 256
    → b < 256
    → c < 256
    → d < 256
    → bit_or (bit_or (bit_or a (b * 2 ^ 8 % 2 ^ 32)) (c * 2 ^ 16 % 2 ^ 32)) (d * 2 ^ 24 % 2 ^ 32)
      ≡ be32 d c b a
le32_bits a b c d p q r s =
    let e₁ : d * 2 ^ 24 % 2 ^ 32 ≡ d * 2 ^ 24 = omega arith in
    let e₂ : c * 2 ^ 16 % 2 ^ 32 ≡ c * 2 ^ 16 = omega arith in
    let e₃ : b * 2 ^ 8 % 2 ^ 32 ≡ b * 2 ^ 8 = omega arith in
    let f₁ = bit_or_sum_right 8 b a (omega arith) in
    let f₂ = bit_or_sum_right 16 c (b * 2 ^ 8 + a) (omega arith) in
    let f₃ = bit_or_sum_right 24 d (c * 2 ^ 16 + (b * 2 ^ 8 + a)) (omega arith) in
    ground (arith, e₁, e₂, e₃, f₁, f₂, f₃)

pub read_le16_inside :
    (v : ByteView) (p : ℕ)
    → IsView v
    → p + 2 ≤ size v
    → read_le16 v p ≡ ok (be16 (byte v (p + 1)) (byte v p))
unfolding read_le16
read_le16_inside v p w h =
    rw (load_inside v p w (omega arith), load_inside v (p + 1) w (omega arith))
      (ap ok (le16_bits _ _ (byte-lt v p w) (byte-lt v (p + 1) w)))

pub read_le32_inside :
    (v : ByteView) (p : ℕ)
    → IsView v
    → p + 4 ≤ size v
    → read_le32 v p ≡ ok (be32 (byte v (p + 3)) (byte v (p + 2)) (byte v (p + 1)) (byte v p))
unfolding read_le32
read_le32_inside v p w h =
    rw
      (
        load_inside v p w (omega arith),
        load_inside v (p + 1) w (omega arith),
        load_inside v (p + 2) w (omega arith),
        load_inside v (p + 3) w (omega arith),
      )
      (ap ok (
        le32_bits _ _ _ _ (byte-lt v p w) (byte-lt v (p + 1) w) (byte-lt v (p + 2) w)
          (byte-lt v (p + 3) w)))

All-take : (n : ℕ) (xs : List ℕ) → All (λ b. b < 256) xs → All (λ b. b < 256) (take n xs)
All-take zero xs h = tt
All-take (suc n) [] h = tt
All-take (suc n) (x ∷ xs) h = (h.0, All-take n xs h.1)

All-drop : (n : ℕ) (xs : List ℕ) → All (λ b. b < 256) xs → All (λ b. b < 256) (drop n xs)
All-drop zero xs h = h
All-drop (suc n) [] h = tt
All-drop (suc n) (x ∷ xs) h = All-drop n xs h.1

-- `w` is the part of `v` from `offset` on, `len` bytes long.
pub record IsPart (v : ByteView) (offset len : ℕ) (w : ByteView) : Type 0 where
  pub is_view : IsView w
  pub same_bytes : w.bytes ≡ take len (drop offset v.bytes)
  pub has_size : size w ≡ len

IsView-invalid : (v : ByteView) → IsView v → is_invalid v ≡ false
IsView-invalid v w = ground (arith, w.placed)

part : ByteView → ℕ → ℕ → ByteView
part v offset zero = record { address = v.address; bytes = [] }
part v offset (suc n) = record {
  address = v.address + offset;
  bytes = take (suc n) (drop offset v.bytes);
}

part-IsPart :
    (v : ByteView) (offset len : ℕ)
    → IsView v
    → offset ≤ size v
    → len ≤ size v - offset
    → IsPart v offset len (part v offset len)
unfolding part
part-IsPart v offset zero w h k = record {
  is_view = record { placed = λ e. refl; octets = tt };
  same_bytes = refl;
  has_size = refl;
}
part-IsPart v offset (suc n) w h k = record {
  is_view = record {
    placed = λ e. absurd (omega (arith, w.placed));
    octets = All-take (suc n) _ (All-drop offset v.bytes w.octets);
  };
  same_bytes = refl;
  has_size = omega (arith, length-take (suc n) (drop offset v.bytes), length-drop offset v.bytes);
}

-- A slice inside a view succeeds; any other is refused, and no slice reads outside the view.
pub slice_inside :
    (v : ByteView) (offset len : ℕ)
    → IsView v
    → offset ≤ size v
    → len ≤ size v - offset
    → (w : ByteView) × (slice v offset len ≡ ok w) × IsPart v offset len w
unfolding slice part
slice_inside v offset zero w h k =
    (part v offset zero, ground (arith, IsView-invalid v w), part-IsPart v offset zero w h k)
slice_inside v offset (suc n) w h k =
    (part v offset (suc n), ground (arith, IsView-invalid v w), part-IsPart v offset (suc n) w h k)

pub slice_outside :
    (v : ByteView) (offset len : ℕ)
    → IsView v
    → size v < offset + len
    → slice v offset len ≡ fail "slice outside view"
unfolding slice
slice_outside v offset len w h = ground (arith, IsView-invalid v w)
