-- ===== src/Rules/Ports.antt =====
-- `parse_port_range` and `parse_port_expr` of src/rules/rules.cpp.
pub mod Bounds
use packet_guard.Base.{
  ℕ, ◌+◌, ◌-◌, ◌*◌, ◌%◌, ◌^◌, Bool, true, false, not, ◌&&◌, List, [], ◌∷◌, Option, some, none, ltb,
  ◌==◌, if◌then◌else◌, Text, codes, text_eq, is_empty,
}
use packet_guard.Core.Result.{Result, ok, fail, failed, overrun, stuck, ◌>>=◌}
use packet_guard.Core.Strings.{trim, split, is_decimal, ends_in, drop_last}
use packet_guard.Rules.Types.{PortExpr}

-- The loop of `parse_port_number`.
unfoldable pub port_loop : ℕ → Text → Result ℕ
port_loop parsed [] = ok (parsed % 2 ^ 16)
port_loop parsed (c ∷ cs) =
    let parsed' = (parsed * 10 + (c - b'0')) % 2 ^ 32 in
    let rest = port_loop parsed' cs in if ltb 65535 parsed' then fail "port outside range" else rest

unfoldable pub parse_port_number : Text → Result ℕ
parse_port_number value = if not (is_decimal value) then fail "invalid port" else port_loop 0 value

-- The text before the first `:` and the text behind it, if there is one.
unfoldable pub at_colon : Text → Option (Text × Text)
at_colon [] = none
at_colon (c ∷ cs) =
    if c == b':'
    then some ([], cs)
    else elim (at_colon cs) [ none ↦ none | some (l, r) ↦ some (c ∷ l, r) ]

-- An end of a range that may be left out.
abbrev end_or : ℕ → Text → Result ℕ
end_or default text = if is_empty text then ok default else parse_port_number text

unfoldable pub two_ends : Text → Text → Result (ℕ × ℕ)
two_ends left right = do
  lo ← end_or 0 left
  hi ← end_or 65535 right
  if ltb hi lo then fail "invalid port range" else ok (lo, hi)

-- A range without a colon is one port.
unfoldable pub range_ends : Text → Option (Text × Text) → Result (ℕ × ℕ)
range_ends text none = parse_port_number text >>= λ p. ok (p, p)
range_ends text (some (left, right)) = two_ends left right

unfoldable pub parse_port_range : Text → Result (ℕ × ℕ)
parse_port_range token = range_ends (trim token) (at_colon (trim token))

-- The loop over the parts.
unfoldable pub port_ranges : List Text → Result (List (ℕ × ℕ))
port_ranges [] = ok []
port_ranges (part ∷ parts) = do r ← parse_port_range part; rs ← port_ranges parts; ok (r ∷ rs)

-- `if (t.front() == '[' && t.back() == ']') t = t.substr(1, t.size() - 2);`, where `front` of an empty
-- string has no defined value. The text `[` alone does not end in `]`.
unfoldable pub unbracket : Text → Result Text
unbracket [] = overrun
unbracket (c ∷ cs) = if c == b'[' && ends_in b']' (c ∷ cs) then ok (drop_last cs) else ok (c ∷ cs)

unfoldable pub port_list : Bool → Text → Result PortExpr
port_list negated text =
    if text_eq text (codes "any")
    then ok (record { any = true; negated = negated; ranges = [] })
    else do
      inner ← unbracket text
      ranges ← port_ranges (split inner b',' false)
      ok (record { any = false; negated = negated; ranges = ranges })

-- The part behind the first `trim`, with the sign.
unfoldable pub signed_ports : Text → Result PortExpr
signed_ports [] = fail "empty port expression"
signed_ports (c ∷ cs) = if c == b'!' then port_list true (trim cs) else port_list false (c ∷ cs)

unfoldable pub parse_port_expr : Text → Result PortExpr
parse_port_expr token = signed_ports (trim token)
