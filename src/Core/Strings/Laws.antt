-- ===== src/Core/Strings/Laws.antt =====
-- What `split` and `trim` do on texts made of known parts.
use packet_guard.Base.{
  ℕ, Bool, true, false, not, ◌||◌, List, [], ◌∷◌, ◌++◌, Text, ◌==◌, if◌then◌else◌, ==_iff, all_of,
  is_empty, keep, All, ◌≡◌, refl, ◌∙◌, ap, arith, append-nil, append_assoc,
}
use packet_guard.Core.Strings.{is_space, trim_front, trim_back, trim, get_lines, ends_in, split}

-- The byte does not occur.
abbrev pub lacks : ℕ → Text → Bool
lacks d = all_of (λ c. not (c == d))

-- The parts with the delimiter between them.
abbrev pub join : ℕ → Text → List Text → Text
join d p [] = p
join d p (q ∷ qs) = p ++ (d ∷ join d q qs)

last_part : Text → List Text → Text
last_part p [] = p
last_part p (q ∷ qs) = last_part q qs

abbrev spare : Text → List Text
spare p = if is_empty p then [] ∷ [] else []

get_lines_part :
    (d : ℕ) (cur p rest : Text)
    → lacks d p ≡ true
    → get_lines d cur (p ++ (d ∷ rest)) ≡ (cur ++ p) ∷ get_lines d [] rest
unfolding get_lines
get_lines_part d cur [] rest h = rw append-nil (ground arith)
get_lines_part d cur (c ∷ p) rest h =
    let e : (c == d) ≡ false = ground arith in
    rw e (
      get_lines_part d (cur ++ c ∷ []) p rest (ground arith)
      ∙ ap (λ t. t ∷ get_lines d [] rest) (append_assoc cur (c ∷ []) p))

get_lines_last :
    (d : ℕ) (cur p : Text)
    → lacks d p ≡ true
    → get_lines d cur p ++ spare (cur ++ p) ≡ (cur ++ p) ∷ []
unfolding get_lines
get_lines_last d [] [] h = refl
get_lines_last d (x ∷ cur) [] h = simp append-nil
get_lines_last d cur (c ∷ p) h =
    let e : (c == d) ≡ false = ground arith in
    rw e (rw (append_assoc cur (c ∷ []) p) at (get_lines_last d (cur ++ c ∷ []) p (ground arith)))

get_lines-join :
    (d : ℕ) (p : Text) (ps : List Text)
    → lacks d p ≡ true
    → All (λ q. lacks d q ≡ true) ps
    → get_lines d [] (join d p ps) ++ spare (last_part p ps) ≡ p ∷ ps
unfolding last_part
get_lines-join d p [] h hs = get_lines_last d [] p h
get_lines-join d p (q ∷ qs) h hs =
    rw (get_lines_part d [] p (join d q qs) h) (ap (◌∷◌ p) (get_lines-join d q qs hs.0 hs.1))

ends_in-append :
    (d : ℕ) (xs : Text) (y : ℕ) (ys : Text) → ends_in d (xs ++ (y ∷ ys)) ≡ ends_in d (y ∷ ys)
unfolding ends_in
ends_in-append d [] y ys = refl
ends_in-append d (x ∷ []) y ys = refl
ends_in-append d (x ∷ z ∷ xs) y ys = ends_in-append d (z ∷ xs) y ys

ends_in-lacks : (d : ℕ) (xs : Text) → lacks d xs ≡ true → ends_in d xs ≡ false
unfolding ends_in
ends_in-lacks d [] h = refl
ends_in-lacks d (x ∷ []) h = ground arith
ends_in-lacks d (x ∷ y ∷ xs) h = ends_in-lacks d (y ∷ xs) (ground arith)

ends_in_last :
    (d : ℕ) (p : Text) (ps : List Text)
    → lacks d p ≡ true
    → All (λ q. lacks d q ≡ true) ps
    → ends_in d (d ∷ join d p ps) ≡ is_empty (last_part p ps)
unfolding last_part
ends_in_last d [] [] h hs = unfold ends_in in (==_iff d d).1 refl
ends_in_last d (c ∷ p) [] h hs = ends_in-append d (d ∷ []) c p ∙ ends_in-lacks d (c ∷ p) h
ends_in_last d p (q ∷ qs) h hs =
    ends_in-append d (d ∷ p) d (join d q qs) ∙ ends_in_last d q qs hs.0 hs.1

keep_all : (xs : List Text) → keep (λ x. true || not (is_empty x)) xs ≡ xs
keep_all [] = refl
keep_all (x ∷ xs) = ap (◌∷◌ x) (keep_all xs)

-- Two or more parts, empty ones among them, that lack the delimiter are what `split` with
-- `keep_empty` makes of their join.
pub split-join :
    (d : ℕ) (p q : Text) (ps : List Text)
    → lacks d p ≡ true
    → lacks d q ≡ true
    → All (λ r. lacks d r ≡ true) ps
    → split (join d p (q ∷ ps)) d true ≡ p ∷ q ∷ ps
unfolding split last_part
split-join d p q ps h k hs =
    rw (keep_all (get_lines d [] (join d p (q ∷ ps))), ends_in-append d p d (join d q ps))
      (rw (ends_in_last d q ps k hs) (get_lines-join d p (q ∷ ps) h (k, hs)))

trim_back_plain : (xs : Text) → all_of (λ c. not (is_space c)) xs ≡ true → trim_back xs ≡ xs
unfolding trim_back
trim_back_plain [] h = refl
trim_back_plain (x ∷ xs) h = ground (arith, trim_back_plain xs)

-- A text without white space is its own trim.
pub trim_plain : (xs : Text) → all_of (λ c. not (is_space c)) xs ≡ true → trim xs ≡ xs
unfolding trim trim_front
trim_plain [] h = refl
trim_plain (x ∷ xs) h =
    let e : is_space x ≡ false = ground arith in rw e (trim_back_plain (x ∷ xs) h)
