-- ===== src/Core/Strings.antt =====
-- include/core/strings.hpp and src/core/strings.cpp, less the file reader. The character tests are
-- those of the "C" locale.
pub mod Laws
use packet_guard.Base.{
  ℕ, zero, suc, ◌+◌, ◌-◌, ◌*◌, ◌/◌, ◌%◌, ◌^◌, Bool, true, false, not, ◌&&◌, ◌||◌, List, [], ◌∷◌,
  ◌++◌, map, Option, none, some, Text, codes, ltb, leb, ◌==◌, if◌then◌else◌, all_of, text_eq,
  is_empty, length, keep, take, drop, get_or,
}

-- `<cctype>`
unfoldable pub is_space : ℕ → Bool
is_space c = (leb 9 c && leb c 13) || c == 32

unfoldable pub is_digit : ℕ → Bool
is_digit c = leb b'0' c && leb c b'9'

unfoldable pub is_xdigit : ℕ → Bool
unfolding is_digit
is_xdigit c = is_digit c || (leb b'a' c && leb c b'f') || (leb b'A' c && leb c b'F')

unfoldable pub is_alnum : ℕ → Bool
unfolding is_digit
is_alnum c = is_digit c || (leb b'a' c && leb c b'z') || (leb b'A' c && leb c b'Z')

unfoldable pub lower_char : ℕ → ℕ
lower_char c = if leb b'A' c && leb c b'Z' then c + 32 else c

unfoldable pub upper_char : ℕ → ℕ
upper_char c = if leb b'a' c && leb c b'z' then c - 32 else c

unfoldable pub to_lower : Text → Text
unfolding lower_char
to_lower value = map lower_char value

unfoldable pub to_upper : Text → Text
unfolding upper_char
to_upper value = map upper_char value

-- `std::find_if_not(begin, end, isspace)`, and the same from the end.
unfoldable pub trim_front : Text → Text
unfolding is_space
trim_front [] = []
trim_front (c ∷ cs) = if is_space c then trim_front cs else c ∷ cs

unfoldable pub trim_back : Text → Text
unfolding is_space
trim_back [] = []
trim_back (c ∷ cs) = let rest = trim_back cs in if is_space c && is_empty rest then [] else c ∷ rest

unfoldable pub trim : Text → Text
unfolding trim_front trim_back
trim value = trim_back (trim_front value)

-- The lines of a repeated `std::getline`: at the end, a call that has read nothing fails.
unfoldable pub get_lines : ℕ → Text → Text → List Text
get_lines delim cur [] = if is_empty cur then [] else cur ∷ []
get_lines delim cur (c ∷ cs) =
    let rest = get_lines delim (if c == delim then [] else cur ++ c ∷ []) cs in
    if c == delim then cur ∷ rest else rest

-- `!value.empty() && value.back() == delim`
unfoldable pub ends_in : ℕ → Text → Bool
ends_in delim [] = false
ends_in delim (c ∷ []) = c == delim
ends_in delim (c ∷ d ∷ cs) = ends_in delim (d ∷ cs)

unfoldable pub split : Text → ℕ → Bool → List Text
unfolding get_lines ends_in
split value delim keep_empty =
    keep (λ cur. keep_empty || not (is_empty cur)) (get_lines delim [] value)
    ++ (if keep_empty && ends_in delim value then [] ∷ [] else [])

-- `while (in >> token) out.push_back(token)`
unfoldable pub words : Text → Text → List Text
unfolding is_space
words cur [] = if is_empty cur then [] else cur ∷ []
words cur (c ∷ cs) =
    let rest = words (if is_space c then [] else cur ++ c ∷ []) cs in
    if is_space c && not (is_empty cur) then cur ∷ rest else rest

unfoldable pub split_ws : Text → List Text
unfolding words
split_ws value = words [] value

unfoldable pub starts_with : Text → Text → Bool
starts_with value [] = true
starts_with [] (p ∷ ps) = false
starts_with (v ∷ vs) (p ∷ ps) = v == p && starts_with vs ps

unfoldable pub ends_with : Text → Text → Bool
unfolding text_eq
ends_with value suffix =
    leb (length suffix) (length value) && text_eq (drop (length value - length suffix) value) suffix

unfoldable pub iequals : Text → Text → Bool
unfolding to_lower text_eq
iequals a b = text_eq (to_lower a) (to_lower b)

-- `haystack.find(needle) != npos`
unfoldable pub has_text : Text → Text → Bool
unfolding starts_with
has_text [] needle = starts_with [] needle
has_text (c ∷ cs) needle = starts_with (c ∷ cs) needle || has_text cs needle

unfoldable pub contains_ci : Text → Text → Bool
unfolding to_lower has_text
contains_ci haystack needle = has_text (to_lower haystack) (to_lower needle)

unfoldable pub collapse_loop : Bool → Text → Text
unfolding is_space
collapse_loop prev [] = []
collapse_loop prev (c ∷ cs) =
    let rest = collapse_loop (is_space c) cs in
    if is_space c then (if prev then rest else b' ' ∷ rest) else c ∷ rest

unfoldable pub collapse_spaces : Text → Text
unfolding collapse_loop trim
collapse_spaces value = trim (collapse_loop false value)

-- `value.substr(0, value.size() - 1)`
unfoldable pub drop_last : Text → Text
drop_last [] = []
drop_last (c ∷ []) = []
drop_last (c ∷ d ∷ cs) = c ∷ drop_last (d ∷ cs)

unfoldable pub unquote : Text → Text
unfolding ends_in drop_last
unquote [] = []
unquote (q ∷ []) = q ∷ []
unquote (q ∷ c ∷ cs) =
    if (q == b'"' && ends_in b'"' (c ∷ cs)) || (q == b'\'' && ends_in b'\'' (c ∷ cs))
    then drop_last (c ∷ cs)
    else q ∷ c ∷ cs

unfoldable pub strip_quotes : Text → Text
unfolding unquote trim
strip_quotes value = unquote (trim value)

unfoldable pub is_hex_string : Text → Bool
unfolding is_xdigit
is_hex_string value = not (is_empty value) && all_of is_xdigit value

unfoldable pub is_decimal : Text → Bool
unfolding is_digit
is_decimal value = not (is_empty value) && all_of is_digit value

-- `lut[d]`
unfoldable pub hex_digit : ℕ → ℕ
hex_digit d = if ltb d 10 then b'0' + d else b'a' + (d - 10)

unfoldable pub bytes_to_hex : List ℕ → Text
unfolding hex_digit
bytes_to_hex [] = []
bytes_to_hex (b ∷ bs) = hex_digit (b / 2 ^ 4) ∷ hex_digit (b % 16) ∷ bytes_to_hex bs

-- The value of a digit for `std::stoul(..., 16)`.
unfoldable pub hex_value : ℕ → ℕ
unfolding is_digit
hex_value c =
    if is_digit c
    then c - b'0'
    else if leb b'a' c && leb c b'f'
    then c - b'a' + 10
    else c - b'A' + 10

unfoldable pub hex_pairs : Text → List ℕ
unfolding hex_value
hex_pairs [] = []
hex_pairs (c ∷ []) = []
hex_pairs (c ∷ d ∷ cs) = (hex_value c * 16 + hex_value d) ∷ hex_pairs cs

unfoldable pub hex_to_bytes : Text → List ℕ
unfolding is_space is_hex_string hex_pairs
hex_to_bytes hex =
    let h = keep (λ c. not (is_space c) && not (c == b':') && not (c == b'-')) hex in
    if not (length h % 2 == 0) || not (is_hex_string h) then [] else hex_pairs h

-- `i + 1 < line.size() && line[i + 1] == '/'`
unfoldable pub slash_follows : Text → Bool
slash_follows [] = false
slash_follows (d ∷ ds) = d == b'/'

-- The loop of `remove_comment` from one index on, with the byte before it (0 at the start), whether
-- a quotation is open, and its mark.
unfoldable pub comment_loop : ℕ → Bool → ℕ → Text → Text
unfolding slash_follows
comment_loop prev in_quote quote [] = []
comment_loop prev in_quote quote (c ∷ cs) =
    let mark = (c == b'"' || c == b'\'') && not (prev == b'\\') in
    let in_quote' = if mark then (if in_quote then not (quote == c) else true) else in_quote in
    let quote' = if mark && not in_quote then c else quote in
    let rest = comment_loop c in_quote' quote' cs in
    if not in_quote' && (c == b'#' || (c == b'/' && slash_follows cs)) then [] else c ∷ rest

unfoldable pub remove_comment : Text → Text
unfolding comment_loop
remove_comment line = comment_loop 0 false 0 line

-- `std::to_string` of an unsigned number; each round takes a digit, so `suc n` rounds are enough.
unfoldable pub digits_loop : ℕ → ℕ → Text → Text
digits_loop zero n acc = acc
digits_loop (suc fuel) n acc =
    let rest = digits_loop fuel (n / 10) ((b'0' + n % 10) ∷ acc) in
    if ltb n 10 then (b'0' + n) ∷ acc else rest

unfoldable pub to_decimal : ℕ → Text
unfolding digits_loop
to_decimal n = digits_loop (suc n) n []

-- The number that decimal digits stand for, as `std::stoi` reads them.
unfoldable pub from_decimal : ℕ → Text → ℕ
from_decimal acc [] = acc
from_decimal acc (c ∷ cs) = from_decimal (acc * 10 + (c - b'0')) cs
