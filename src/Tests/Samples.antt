-- ===== src/Tests/Samples.antt =====
-- Bytes of a small capture: a DNS answer over UDP, IPv4 and Ethernet, and a TCP segment.
use packet_guard.Base.{ℕ, ◌<◌, ◌≡◌, true, List, [], ◌∷◌, ltb, all_of, All, &&-eq-true, arith}
use packet_guard.Core.ByteView.{ByteView, IsView}

-- The bytes at some address.
abbrev pub placed : List ℕ → ByteView
placed bs = record { address = 4096; bytes = bs }

pub All-octets : (bs : List ℕ) → all_of (λ b. ltb b 256) bs ≡ true → All (λ b. b < 256) bs
All-octets [] h = tt
All-octets (b ∷ bs) h =
    let e = &&-eq-true (ltb b 256) _ h in (ground (arith, e.0), All-octets bs e.1)

pub placed-IsView : (bs : List ℕ) → all_of (λ b. ltb b 256) bs ≡ true → IsView (placed bs)
placed-IsView bs h = record { placed = λ e. absurd (omega arith); octets = All-octets bs h }

abbrev pub dns_bytes : List ℕ
dns_bytes =
    18 ∷ 52 ∷ 129 ∷ 128 ∷ 0 ∷ 1 ∷ 0 ∷ 1 ∷ 0 ∷ 0 ∷ 0 ∷ 0 ∷ 1 ∷ 97 ∷ 2 ∷ 98 ∷ 99 ∷ 0 ∷ 0 ∷ 1 ∷ 0 ∷ 1
    ∷ 192 ∷ 12 ∷ 0 ∷ 1 ∷ 0 ∷ 1 ∷ 0 ∷ 0 ∷ 0 ∷ 60 ∷ 0 ∷ 4 ∷ 10 ∷ 0 ∷ 0 ∷ 9 ∷ []

abbrev pub udp_bytes : List ℕ
udp_bytes =
    0 ∷ 53 ∷ 156 ∷ 64 ∷ 0 ∷ 46 ∷ 0 ∷ 0 ∷ 18 ∷ 52 ∷ 129 ∷ 128 ∷ 0 ∷ 1 ∷ 0 ∷ 1 ∷ 0 ∷ 0 ∷ 0 ∷ 0 ∷ 1
    ∷ 97 ∷ 2 ∷ 98 ∷ 99 ∷ 0 ∷ 0 ∷ 1 ∷ 0 ∷ 1 ∷ 192 ∷ 12 ∷ 0 ∷ 1 ∷ 0 ∷ 1 ∷ 0 ∷ 0 ∷ 0 ∷ 60 ∷ 0 ∷ 4 ∷ 10
    ∷ 0 ∷ 0 ∷ 9 ∷ []

abbrev pub ip_bytes : List ℕ
ip_bytes =
    69 ∷ 0 ∷ 0 ∷ 66 ∷ 0 ∷ 7 ∷ 0 ∷ 0 ∷ 64 ∷ 17 ∷ 102 ∷ 162 ∷ 10 ∷ 0 ∷ 0 ∷ 1 ∷ 10 ∷ 0 ∷ 0 ∷ 2 ∷ 0 ∷ 53
    ∷ 156 ∷ 64 ∷ 0 ∷ 46 ∷ 0 ∷ 0 ∷ 18 ∷ 52 ∷ 129 ∷ 128 ∷ 0 ∷ 1 ∷ 0 ∷ 1 ∷ 0 ∷ 0 ∷ 0 ∷ 0 ∷ 1 ∷ 97 ∷ 2
    ∷ 98 ∷ 99 ∷ 0 ∷ 0 ∷ 1 ∷ 0 ∷ 1 ∷ 192 ∷ 12 ∷ 0 ∷ 1 ∷ 0 ∷ 1 ∷ 0 ∷ 0 ∷ 0 ∷ 60 ∷ 0 ∷ 4 ∷ 10 ∷ 0 ∷ 0
    ∷ 9 ∷ []

abbrev pub frame_bytes : List ℕ
frame_bytes =
    0 ∷ 1 ∷ 2 ∷ 3 ∷ 4 ∷ 5 ∷ 6 ∷ 7 ∷ 8 ∷ 9 ∷ 10 ∷ 11 ∷ 8 ∷ 0 ∷ 69 ∷ 0 ∷ 0 ∷ 66 ∷ 0 ∷ 7 ∷ 0 ∷ 0 ∷ 64
    ∷ 17 ∷ 102 ∷ 162 ∷ 10 ∷ 0 ∷ 0 ∷ 1 ∷ 10 ∷ 0 ∷ 0 ∷ 2 ∷ 0 ∷ 53 ∷ 156 ∷ 64 ∷ 0 ∷ 46 ∷ 0 ∷ 0 ∷ 18
    ∷ 52 ∷ 129 ∷ 128 ∷ 0 ∷ 1 ∷ 0 ∷ 1 ∷ 0 ∷ 0 ∷ 0 ∷ 0 ∷ 1 ∷ 97 ∷ 2 ∷ 98 ∷ 99 ∷ 0 ∷ 0 ∷ 1 ∷ 0 ∷ 1
    ∷ 192 ∷ 12 ∷ 0 ∷ 1 ∷ 0 ∷ 1 ∷ 0 ∷ 0 ∷ 0 ∷ 60 ∷ 0 ∷ 4 ∷ 10 ∷ 0 ∷ 0 ∷ 9 ∷ []

abbrev pub tcp_bytes : List ℕ
tcp_bytes =
    0 ∷ 80 ∷ 160 ∷ 40 ∷ 0 ∷ 0 ∷ 0 ∷ 1 ∷ 0 ∷ 0 ∷ 0 ∷ 2 ∷ 96 ∷ 18 ∷ 4 ∷ 0 ∷ 0 ∷ 0 ∷ 0 ∷ 0 ∷ 2 ∷ 4 ∷ 5
    ∷ 180 ∷ 104 ∷ 105 ∷ []

abbrev pub capture_bytes : List ℕ
capture_bytes =
    212 ∷ 195 ∷ 178 ∷ 161 ∷ 2 ∷ 0 ∷ 4 ∷ 0 ∷ 0 ∷ 0 ∷ 0 ∷ 0 ∷ 0 ∷ 0 ∷ 0 ∷ 0 ∷ 255 ∷ 255 ∷ 0 ∷ 0 ∷ 1
    ∷ 0 ∷ 0 ∷ 0 ∷ 5 ∷ 0 ∷ 0 ∷ 0 ∷ 96 ∷ 227 ∷ 22 ∷ 0 ∷ 80 ∷ 0 ∷ 0 ∷ 0 ∷ 80 ∷ 0 ∷ 0 ∷ 0 ∷ 0 ∷ 1 ∷ 2
    ∷ 3 ∷ 4 ∷ 5 ∷ 6 ∷ 7 ∷ 8 ∷ 9 ∷ 10 ∷ 11 ∷ 8 ∷ 0 ∷ 69 ∷ 0 ∷ 0 ∷ 66 ∷ 0 ∷ 7 ∷ 0 ∷ 0 ∷ 64 ∷ 17 ∷ 102
    ∷ 162 ∷ 10 ∷ 0 ∷ 0 ∷ 1 ∷ 10 ∷ 0 ∷ 0 ∷ 2 ∷ 0 ∷ 53 ∷ 156 ∷ 64 ∷ 0 ∷ 46 ∷ 0 ∷ 0 ∷ 18 ∷ 52 ∷ 129
    ∷ 128 ∷ 0 ∷ 1 ∷ 0 ∷ 1 ∷ 0 ∷ 0 ∷ 0 ∷ 0 ∷ 1 ∷ 97 ∷ 2 ∷ 98 ∷ 99 ∷ 0 ∷ 0 ∷ 1 ∷ 0 ∷ 1 ∷ 192 ∷ 12 ∷ 0
    ∷ 1 ∷ 0 ∷ 1 ∷ 0 ∷ 0 ∷ 0 ∷ 60 ∷ 0 ∷ 4 ∷ 10 ∷ 0 ∷ 0 ∷ 9 ∷ []
