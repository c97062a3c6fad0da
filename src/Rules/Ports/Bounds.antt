-- ===== src/Rules/Ports/Bounds.antt =====
-- Port expressions that are accepted hold ranges of ports.
use packet_guard.Base.{
  ℕ, ◌+◌, ◌-◌, ◌*◌, ◌%◌, ◌^◌, ◌≤◌, ◌<◌, ◌≡◌, arith, Bool, true, false, not, ◌&&◌, List, [], ◌∷◌,
  Option, some, none, ltb, ◌==◌, Text, codes, text_eq, is_empty, All, Bool-cases, inl, inr,
}
use packet_guard.Core.Result.{ok, ◌>>=◌, Ensures, Ensures-bind}
use packet_guard.Core.Strings.{trim, split, is_decimal, ends_in, drop_last}
use packet_guard.Rules.Types.{PortExpr}
use packet_guard.Rules.Ports.{
  port_loop, parse_port_number, at_colon, end_or, two_ends, range_ends, signed_ports,
  parse_port_range, port_ranges, unbracket, port_list, parse_port_expr,
}

abbrev pub IsPort : ℕ → Type 0
IsPort p = p < 2 ^ 16

abbrev pub IsPortRange : ℕ × ℕ → Type 0
IsPortRange r = (r.0 ≤ r.1) × IsPort r.1

port_loop-IsPort : (parsed : ℕ) (cs : Text) → Ensures IsPort (port_loop parsed cs)
unfolding port_loop
port_loop-IsPort parsed [] = omega arith
port_loop-IsPort parsed (c ∷ cs) =
    elim (Bool-cases (ltb 65535 ((parsed * 10 + (c - b'0')) % 2 ^ 32))) [
      | inl e ↦ rw e tt
      | inr e ↦ rw e (port_loop-IsPort ((parsed * 10 + (c - b'0')) % 2 ^ 32) cs)
    ]

parse_port_number-IsPort : (value : Text) → Ensures IsPort (parse_port_number value)
unfolding parse_port_number
parse_port_number-IsPort value = elim (Bool-cases (not (is_decimal value))) [
  | inl e ↦ rw e tt
  | inr e ↦ rw e (port_loop-IsPort 0 value)
]

end_or-IsPort : (default : ℕ) (text : Text) → IsPort default → Ensures IsPort (end_or default text)
end_or-IsPort default [] h = h
end_or-IsPort default (c ∷ cs) h = parse_port_number-IsPort (c ∷ cs)

two_ends-IsPortRange : (left right : Text) → Ensures IsPortRange (two_ends left right)
unfolding two_ends
two_ends-IsPortRange left right =
    Ensures-bind IsPort IsPortRange (end_or 0 left) _ (end_or-IsPort 0 left (omega arith)) λ lo p.
      Ensures-bind IsPort IsPortRange (end_or 65535 right) _
        (end_or-IsPort 65535 right (omega arith))
        λ hi q. elim (Bool-cases (ltb hi lo)) [ inl e ↦ rw e tt | inr e ↦ rw e (ground arith, q) ]

range_ends-IsPortRange :
    (text : Text) (ends : Option (Text × Text)) → Ensures IsPortRange (range_ends text ends)
unfolding range_ends
range_ends-IsPortRange text none =
    Ensures-bind IsPort IsPortRange (parse_port_number text) _ (parse_port_number-IsPort text)
      λ p q. (omega arith, q)
range_ends-IsPortRange text (some lr) = two_ends-IsPortRange lr.0 lr.1

parse_port_range-IsPortRange : (token : Text) → Ensures IsPortRange (parse_port_range token)
unfolding parse_port_range
parse_port_range-IsPortRange token = range_ends-IsPortRange (trim token) (at_colon (trim token))

port_ranges-All : (parts : List Text) → Ensures (All IsPortRange) (port_ranges parts)
unfolding port_ranges
port_ranges-All [] = tt
port_ranges-All (part ∷ parts) =
    Ensures-bind IsPortRange (All IsPortRange) (parse_port_range part) _
      (parse_port_range-IsPortRange part)
      λ r p.
        Ensures-bind (All IsPortRange) (All IsPortRange) (port_ranges parts) _
          (port_ranges-All parts) λ rs q. (p, q)

abbrev pub IsPortExpr : PortExpr → Type 0
IsPortExpr e = All IsPortRange e.ranges

port_list-IsPortExpr :
    (negated : Bool) (c : ℕ) (cs : Text) → Ensures IsPortExpr (port_list negated (c ∷ cs))
unfolding port_list unbracket
port_list-IsPortExpr negated c cs = elim (Bool-cases (text_eq (c ∷ cs) (codes "any"))) [
  | inl e ↦ rw e tt
  | inr e ↦ rw e (elim (Bool-cases (c == b'[' && ends_in b']' (c ∷ cs))) [
    | inl f ↦ rw f (parts (drop_last cs))
    | inr f ↦ rw f (parts (c ∷ cs))
  ])
]
  where
    parts :
        (inner : Text)
        → Ensures IsPortExpr (
            port_ranges (split inner b',' false) >>= λ ranges.
            ok (record { any = false; negated = negated; ranges = ranges }))
    parts inner =
        Ensures-bind (All IsPortRange) IsPortExpr (port_ranges (split inner b',' false)) _
          (port_ranges-All (split inner b',' false)) (λ rs q. q)

-- The sign `!` with nothing behind it.
abbrev pub lone_sign : Text → Bool
lone_sign [] = false
lone_sign (c ∷ cs) = c == b'!' && is_empty (trim cs)

signed_ports-IsPortExpr :
    (text : Text) → lone_sign text ≡ false → Ensures IsPortExpr (signed_ports text)
unfolding signed_ports
signed_ports-IsPortExpr [] h = tt
signed_ports-IsPortExpr (c ∷ cs) h = elim (Bool-cases (c == b'!')) [
  | inl e ↦ rw e (behind (trim cs) (ground arith))
  | inr e ↦ rw e (port_list-IsPortExpr false c cs)
]
  where
    behind : (t : Text) → is_empty t ≡ false → Ensures IsPortExpr (port_list true t)
    behind [] k = absurd (ground (arith, k))
    behind (d ∷ ds) k = port_list-IsPortExpr true d ds

-- `parse_port_expr` of a token that is more than the sign `!` and blanks makes no access outside a
-- string: it refuses the token, or it returns an expression whose ranges go from a lower to an upper
-- port number.
pub parse_port_expr-IsPortExpr :
    (token : Text) → lone_sign (trim token) ≡ false → Ensures IsPortExpr (parse_port_expr token)
unfolding parse_port_expr
parse_port_expr-IsPortExpr token h = signed_ports-IsPortExpr (trim token) h
