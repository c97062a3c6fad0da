-- ===== src/Ioc/Normalize.antt =====
-- The normal forms of domains, addresses of pages and hashes, and the tests on them, of
-- src/ioc/ioc.cpp.
use packet_guard.Base.{
  ℕ, Bool, true, false, not, ◌&&◌, ◌||◌, List, [], ◌∷◌, ◌++◌, map, Option, some, none, ltb, leb,
  ◌==◌, if◌then◌else◌, Text, codes, text_eq, is_empty, length, keep, drop, any_of, all_of, get_or,
}
use packet_guard.Core.Strings.{
  to_lower, trim, split, starts_with, ends_with, is_alnum, is_xdigit, lower_char, is_hex_string,
  ends_in,
}
use packet_guard.Core.IpText.{parse_cidr}
use packet_guard.Ioc.Types.{IocType, ip, cidr, domain, url, hash}

unfoldable pub strip_trailing_dot : Text → Text
strip_trailing_dot [] = []
strip_trailing_dot (c ∷ cs) =
    let rest = strip_trailing_dot cs in if c == b'.' && is_empty rest then [] else c ∷ rest

-- `if (starts_with(v, "*.")) v = v.substr(2);`, and the same with `.`
abbrev drop_start : Text → ℕ → Text → Text
drop_start prefix n v = if starts_with v prefix then drop n v else v

unfoldable pub normalize_domain : Text → Text
normalize_domain text =
    drop_start (codes ".") 1 (drop_start (codes "*.") 2 (to_lower (strip_trailing_dot (trim text))))

unfoldable pub is_valid_label : Text → Bool
is_valid_label label =
    not (
      is_empty label || (ltb 63 (length label) || (get_or label 0 0 == b'-' || ends_in b'-' label)))
    && all_of (λ c. is_alnum c || c == b'-') label

unfoldable pub is_valid_domain : Text → Bool
is_valid_domain text =
    let d = normalize_domain text in
    if is_empty d || (ltb 253 (length d) || not (any_of (λ c. c == b'.') d))
    then false
    else all_of is_valid_label (split d b'.' true)

-- `v.find(c)`: the part before the first `c` and the part behind it.
unfoldable pub cut_first : ℕ → Text → Option (Text × Text)
cut_first c [] = none
cut_first c (x ∷ xs) =
    if x == c
    then some ([], xs)
    else elim (cut_first c xs) [ none ↦ none | some (l, r) ↦ some (x ∷ l, r) ]

-- `v.rfind(c)`
unfoldable pub cut_last : ℕ → Text → Option (Text × Text)
cut_last c [] = none
cut_last c (x ∷ xs) = elim (cut_last c xs) [
  | some (l, r) ↦ some (x ∷ l, r)
  | none ↦ if x == c then some ([], xs) else none
]

-- `v.find("://")`
unfoldable pub cut_scheme : Text → Option (Text × Text)
cut_scheme [] = none
cut_scheme (x ∷ xs) =
    if starts_with (x ∷ xs) (codes "://")
    then some ([], drop 2 xs)
    else elim (cut_scheme xs) [ none ↦ none | some (l, r) ↦ some (x ∷ l, r) ]

-- The loop that replaces each run of slashes by one; it ends after one round.
unfoldable pub squeeze_slashes : Text → Text
squeeze_slashes [] = []
squeeze_slashes (c ∷ cs) =
    let rest = squeeze_slashes cs in if c == b'/' && get_or cs 0 0 == b'/' then rest else c ∷ rest

-- The part behind the last `@` of a host, if there is one.
unfoldable pub behind_at : Text → Text
behind_at host = elim (cut_last b'@' host) [ none ↦ host | some (user, rest) ↦ rest ]

-- The host and the port behind its last colon; an address in brackets has none.
unfoldable pub host_port : Text → Text × Text
host_port host = elim (cut_last b':' host) [
  | none ↦ (host, [])
  | some (name, port) ↦ if any_of (λ c. c == b']') host then (host, []) else (name, port)
]

abbrev is_default_port : Text → Text → Bool
is_default_port scheme port =
    text_eq scheme (codes "http") && text_eq port (codes "80")
    || text_eq scheme (codes "https") && text_eq port (codes "443")

-- Host and path around the first slash.
unfoldable pub host_path : Text → Text × Text
host_path rest = elim (cut_first b'/' rest) [
  | none ↦ (rest, b'/' ∷ [])
  | some (host, path) ↦ (host, b'/' ∷ path)
]

-- The part of `normalize_url` behind the scheme.
unfoldable pub url_of : Text → Text → Text
url_of scheme rest =
    let (host, path) = host_path rest in
    let (name, port) = host_port (behind_at host) in
    let kept = if is_default_port scheme port then [] else port in
    scheme
    ++ (codes "://"
        ++ (normalize_domain name
            ++ ((if is_empty kept then [] else b':' ∷ kept) ++ squeeze_slashes path)))

unfoldable pub normalize_url : Text → Text
normalize_url text = elim (cut_scheme (trim text)) [
  | none ↦ url_of (codes "http") (trim text)
  | some (scheme, rest) ↦ url_of (to_lower scheme) rest
]

-- The host of a normal form, as the matching and the index take it.
unfoldable pub url_host : Text → Text
url_host n =
    let rest : Text = elim (cut_scheme n) [ none ↦ n | some (scheme, rest) ↦ rest ] in
    (elim (cut_first b'/' rest) [ none ↦ rest | some (host, path) ↦ host ])

unfoldable pub hash_digits : Text → Text
hash_digits v = map lower_char (keep is_xdigit v)

unfoldable pub normalize_hash : Text → Text
normalize_hash value = elim (cut_first b':' (to_lower (trim value))) [
  | none ↦ hash_digits (to_lower (trim value))
  | some (name, rest) ↦ hash_digits rest
]

unfoldable pub hash_length_is_known : Text → Bool
hash_length_is_known text =
    let len = length (normalize_hash text) in
    len == 32 || (len == 40 || (len == 56 || (len == 64 || (len == 96 || len == 128))))

unfoldable pub domain_matches : Text → Text → Bool
domain_matches indicator_domain observed_domain =
    let ind = normalize_domain indicator_domain in
    let obs = normalize_domain observed_domain in
    if is_empty ind || is_empty obs then false else text_eq obs ind || ends_with obs (b'.' ∷ ind)

unfoldable pub infer_ioc_type : Text → Option IocType
infer_ioc_type value =
    let v = trim value in
    let h = normalize_hash v in
    let low = to_lower v in
    if is_empty v then none else elim (parse_cidr v) [
      | some r ↦ if any_of (λ c. c == b'/') v then some cidr else some ip
      | none ↦
          if leb 32 (length h) && (is_hex_string h && hash_length_is_known h)
          then some hash
          else if starts_with low (codes "http://") || starts_with low (codes "https://")
          then some url
          else if is_valid_domain v || (starts_with v (codes "*.") && is_valid_domain (drop 2 v))
          then some domain
          else none
    ]

abbrev compound_suffixes : List Text
compound_suffixes =
    codes "co.uk"
    ∷ codes "org.uk"
    ∷ codes "com.au"
    ∷ codes "net.au"
    ∷ codes "co.jp"
    ∷ codes "com.br"
    ∷ codes "com.mx"
    ∷ codes "co.in"
    ∷ []

-- The last three of three or more parts.
unfoldable pub last_three : Text → Text → Text → List Text → Text × Text × Text
last_three a b c [] = (a, b, c)
last_three a b c (d ∷ rest) = last_three b c d rest

unfoldable pub domain_hint : Text → List Text → Text
domain_hint n (a ∷ b ∷ c ∷ rest) =
    let (x, y, z) = last_three a b c rest in
    let last_two = y ++ (b'.' ∷ z) in
    if any_of (text_eq last_two) compound_suffixes then x ++ (b'.' ∷ last_two) else last_two
domain_hint n _ = n

unfoldable pub registrable_domain_hint : Text → Text
registrable_domain_hint text = let n = normalize_domain text in domain_hint n (split n b'.' false)
