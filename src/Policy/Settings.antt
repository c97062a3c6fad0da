-- ===== src/Policy/Settings.antt =====
-- The settings of a policy as INI or CSV text, of src/policy/policy.cpp.
use packet_guard.Base.{
  ℕ, suc, Bool, true, false, not, ◌&&◌, ◌||◌, List, [], ◌∷◌, ◌++◌, map, some, none, if◌then◌else◌,
  Text, codes, is_empty, length, drop, get_or, ◌==◌,
}
use packet_guard.Core.Diagnostics.{Sink, warn_to}
use packet_guard.Core.Strings.{
  trim, to_lower, strip_quotes, remove_comment, get_lines, ends_in, drop_last, to_decimal,
}
use packet_guard.Ioc.Normalize.{cut_first}
use packet_guard.Policy.Types.{PolicyKv}

abbrev setting : Text → Text → Text → ℕ → PolicyKv
setting section key value line = record { section = section; key = key; value = value; line = line }

abbrev is_section : Text → Bool
is_section clean = get_or clean 0 0 == b'[' && ends_in b']' clean

-- The loop of `parse_ini_policy` over the lines, with the number of lines read and the section.
unfoldable pub ini_loop : List Text → ℕ → Text → Sink → List PolicyKv × Sink
ini_loop [] n section d = ([], d)
ini_loop (line ∷ rest) n section d =
    let clean = trim (remove_comment line) in
    elim (is_empty clean) [
      | true ↦ ini_loop rest (suc n) section d
      | false ↦ elim (is_section clean) [
        | true ↦ ini_loop rest (suc n) (trim (drop_last (drop 1 clean))) d
        | false ↦ elim (cut_first b'=' clean) [
          | none ↦
              ini_loop rest (suc n) section
                (warn_to d "policy.ini" "line lacks key/value separator" (suc n))
          | some (key, value) ↦
              let (found, d') = ini_loop rest (suc n) section d in
              (
                setting section (to_lower (trim key)) (strip_quotes (trim value)) (suc n) ∷ found,
                d',
              )
        ]
      ]
    ]

unfoldable pub parse_ini_policy : Text → Sink → List PolicyKv × Sink
parse_ini_policy text d = ini_loop (get_lines b'\n' [] text) 0 [] d

-- The loop of `csv_split_line`: whether the byte is the second of two quotes, whether it stands in
-- quotes, and the field so far.
unfoldable pub csv_loop : Bool → Bool → Text → Text → List Text
csv_loop skip quote cur [] = trim cur ∷ []
csv_loop skip quote cur (c ∷ cs) =
    let mark = not skip && c == b'"' in
    let pair = mark && (quote && get_or cs 0 0 == b'"') in
    let ends = not skip && (c == b',' && not quote) in
    let quote' = if mark && not pair then not quote else quote in
    let cur' = if ends then [] else if skip || (mark && not pair) then cur else cur ++ c ∷ [] in
    let rest = csv_loop pair quote' cur' cs in if ends then trim cur ∷ rest else rest

unfoldable pub csv_split_line : Text → List Text
csv_split_line line = csv_loop false false [] line

-- The fields of one row under the headers.
unfoldable pub row_settings : ℕ → List Text → List Text → List PolicyKv
row_settings n [] headers = []
row_settings n (col ∷ cols) [] = []
row_settings n (col ∷ cols) (h ∷ headers) =
    setting (codes "row" ++ to_decimal n) h (strip_quotes col) n ∷ row_settings n cols headers

unfoldable pub csv_rows : List Text → ℕ → List Text → Sink → List PolicyKv × Sink
csv_rows [] n headers d = ([], d)
csv_rows (line ∷ rest) n headers d =
    let clean = trim line in
    let cols = csv_split_line clean in
    elim (is_empty clean) [
      | true ↦ csv_rows rest (suc n) headers d
      | false ↦ elim (is_empty headers) [
        | true ↦ csv_rows rest (suc n) (map (λ c. to_lower (strip_quotes c)) cols) d
        | false ↦
            let (found, d') = csv_rows rest (suc n) headers (
              if length cols == length headers
              then d
              else warn_to d "policy.csv" "row column count differs from header" (suc n)) in
            (row_settings (suc n) cols headers ++ found, d')
      ]
    ]

unfoldable pub parse_csv_policy : Text → Sink → List PolicyKv × Sink
parse_csv_policy text d = csv_rows (get_lines b'\n' [] text) 0 [] d
