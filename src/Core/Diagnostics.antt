-- ===== src/Core/Diagnostics.antt =====
-- include/core/diagnostics.hpp and src/core/diagnostics.cpp. A `Diagnostics*` is an option, `none`
-- for the null pointer, and a function that takes one passes it on as a state.
use Prim.Native.String.{String}
use packet_guard.Base.{
  ◌≡◌, refl, if◌then◌else◌, ℕ, Bool, true, false, List, [], ◌∷◌, ◌++◌, Option, none, some, codes,
  Text, any_of,
}
use packet_guard.Core.Result.{
  Result, ok, failed, overrun, stuck, Status, Severity, info, warning, error, Ensures,
}

pub record Diagnostic : Type 0 where
  pub severity : Severity
  pub code : Text
  pub message : Text
  pub offset : ℕ

pub record Diagnostics : Type 0 where
  pub entries : List Diagnostic

abbrev pub no_diagnostics : Diagnostics
no_diagnostics = record { entries = [] }

unfoldable pub add : Diagnostics → Severity → Text → Text → ℕ → Diagnostics
add d severity code message offset = record {
  entries =
      d.entries
      ++ record { severity = severity; code = code; message = message; offset = offset } ∷ [];
}

-- `info`, `warn` and `error` of the class.
unfoldable pub add_info : Diagnostics → Text → Text → ℕ → Diagnostics
unfolding add
add_info d = add d info

unfoldable pub add_warning : Diagnostics → Text → Text → ℕ → Diagnostics
unfolding add
add_warning d = add d warning

unfoldable pub add_error : Diagnostics → Text → Text → ℕ → Diagnostics
unfolding add
add_error d = add d error

abbrev pub is_error : Severity → Bool
is_error error = true
is_error _ = false

unfoldable pub has_errors : Diagnostics → Bool
has_errors d = any_of (λ e. is_error e.severity) d.entries

-- `Diagnostics*` of a parser.
abbrev pub Sink : Type 0
Sink = Option Diagnostics

-- `if (diagnostics) diagnostics->warn(...)`
unfoldable pub warn_to : Sink → String → String → ℕ → Sink
unfolding add_warning
warn_to none code message offset = none
warn_to (some d) code message offset = some (add_warning d (codes code) (codes message) offset)

unfoldable pub info_to : Sink → String → String → ℕ → Sink
unfolding add_info
info_to none code message offset = none
info_to (some d) code message offset = some (add_info d (codes code) (codes message) offset)

unfoldable pub error_to : Sink → String → String → ℕ → Sink
unfolding add_error
error_to none code message offset = none
error_to (some d) code message offset = some (add_error d (codes code) (codes message) offset)

-- A parser with a diagnostics argument returns a result and leaves the diagnostics changed.
abbrev pub Parser : Type 0 → Type 0
Parser A = Sink → Result A × Sink

abbrev pub after : {A B : Type 0} → Result A × Sink → (A → Parser B) → Result B × Sink
after (ok a, d) f = f a d
after (failed s, d) f = (failed s, d)
after (overrun, d) f = (overrun, d)
after (stuck, d) f = (stuck, d)

infixl 5 ◌>>=◌ ◌>>◌
abbrev pub ◌>>=◌ : {A B : Type 0} → Parser A → (A → Parser B) → Parser B
◌>>=◌ m f d = after (m d) f

abbrev pub ◌>>◌ : {B : Type 0} → Parser (Unit {0}) → Parser B → Parser B
◌>>◌ m f = m >>= λ _. f

abbrev pub lift : {A : Type 0} → Result A → Parser A
lift r d = (r, d)

-- `auto x = m; if (x) ... else ...`, the failed case with its status.
abbrev pub attempt_after :
    {A B : Type 0} → Result A × Sink → (A → Parser B) → (Status → Parser B) → Result B × Sink
attempt_after (ok a, d) f g = f a d
attempt_after (failed s, d) f g = g s d
attempt_after (overrun, d) f g = (overrun, d)
attempt_after (stuck, d) f g = (stuck, d)

abbrev pub attempt : {A B : Type 0} → Parser A → (A → Parser B) → (Status → Parser B) → Parser B
attempt m f g d = attempt_after (m d) f g

-- `if (test && diagnostics) diagnostics->warn(...)`
abbrev pub warn_if : Bool → String → String → ℕ → Parser (Unit {0})
warn_if true code message offset d = (ok tt, warn_to d code message offset)
warn_if false code message offset d = (ok tt, d)

abbrev pub info_if : Bool → String → String → ℕ → Parser (Unit {0})
info_if true code message offset d = (ok tt, info_to d code message offset)
info_if false code message offset d = (ok tt, d)

-- Whatever the diagnostics, the parser returns, and what it returns satisfies `P`.
abbrev pub Always : {A : Type 0} → (A → Type 0) → Parser A → Type 0
Always P m = (d : Sink) → Ensures P (m d).0

-- Whatever the diagnostics, the parser returns a value, and it satisfies `P`.
abbrev pub Delivers : {A : Type 0} → (A → Type 0) → Result A → Type 0
Delivers P (ok a) = P a
Delivers P _ = ⊥

abbrev pub Surely : {A : Type 0} → (A → Type 0) → Parser A → Type 0
Surely P m = (d : Sink) → Delivers P (m d).0

pub Delivers-weaken :
    {A : Type 0} (P Q : A → Type 0) (r : Result A)
    → Delivers P r
    → ((a : A) → P a → Q a)
    → Delivers Q r
Delivers-weaken P Q (ok a) h k = k a h
Delivers-weaken P Q (failed s) h k = h
Delivers-weaken P Q overrun h k = h
Delivers-weaken P Q stuck h k = h

-- With the equation, for what the value is.
pub Delivers-Ensures :
    {A : Type 0} (P : A → Type 0) (r : Result A) → Delivers P r → Ensures (λ a. P a × (r ≡ ok a)) r
Delivers-Ensures P (ok a) h = (h, refl)
Delivers-Ensures P (failed s) h = tt
Delivers-Ensures P overrun h = h
Delivers-Ensures P stuck h = h

pub Surely-if :
    {B : Type 0} (Q : B → Type 0) (b : Bool) (m k : Parser B)
    → (b ≡ true → Surely Q m)
    → (b ≡ false → Surely Q k)
    → Surely Q (if b then m else k)
Surely-if Q true m k h g = h refl
Surely-if Q false m k h g = g refl

-- The parser returns this value, or a failure, with some diagnostics.
abbrev pub Reads : {A : Type 0} → Parser A → A → Type 0
Reads m a = (d : Sink) × ((m d).0 ≡ ok a)

abbrev pub Fails : {A : Type 0} → Parser A → Type 0
Fails m = (d : Sink) × (s : Status) × ((m d).0 ≡ failed s)

module _ {A B : Type 0} where
  attempt_after-Delivers :
      (P : A → Type 0) (Q : B → Type 0) (r : Result A × Sink) (f : A → Parser B)
      (g : Status → Parser B)
      → Ensures P r.0
      → ((a : A) → P a → r.0 ≡ ok a → Surely Q (f a))
      → ((s : Status) → r.0 ≡ failed s → Surely Q (g s))
      → Delivers Q (attempt_after r f g).0
  attempt_after-Delivers P Q (ok a, d) f g h k l = k a h refl d
  attempt_after-Delivers P Q (failed s, d) f g h k l = l s refl d
  attempt_after-Delivers P Q (overrun, d) f g h k l = h
  attempt_after-Delivers P Q (stuck, d) f g h k l = h

  pub Surely-attempt :
      (P : A → Type 0) (Q : B → Type 0) (m : Parser A) (f : A → Parser B) (g : Status → Parser B)
      → Always P m
      → ((a : A) → P a → Reads m a → Surely Q (f a))
      → ((s : Status) → Fails m → Surely Q (g s))
      → Surely Q (attempt m f g)
  Surely-attempt P Q m f g h k l d =
      attempt_after-Delivers P Q (m d) f g (h d) (λ a q e. k a q (d, e)) (λ s e. l s (d, s, e))

module _ {A B : Type 0} where
  after-Ensures :
      (P : A → Type 0) (Q : B → Type 0) (r : Result A × Sink) (f : A → Parser B)
      → Ensures P r.0
      → ((a : A) → P a → Always Q (f a))
      → Ensures Q (after r f).0
  after-Ensures P Q (ok a, d) f h k = k a h d
  after-Ensures P Q (failed s, d) f h k = tt
  after-Ensures P Q (overrun, d) f h k = h
  after-Ensures P Q (stuck, d) f h k = h

  pub Always-bind :
      (P : A → Type 0) (Q : B → Type 0) (m : Parser A) (f : A → Parser B)
      → Always P m
      → ((a : A) → P a → Always Q (f a))
      → Always Q (m >>= f)
  Always-bind P Q m f h k d = after-Ensures P Q (m d) f (h d) k

  attempt_after-Ensures :
      (P : A → Type 0) (Q : B → Type 0) (r : Result A × Sink) (f : A → Parser B)
      (g : Status → Parser B)
      → Ensures P r.0
      → ((a : A) → P a → Always Q (f a))
      → ((s : Status) → Always Q (g s))
      → Ensures Q (attempt_after r f g).0
  attempt_after-Ensures P Q (ok a, d) f g h k l = k a h d
  attempt_after-Ensures P Q (failed s, d) f g h k l = l s d
  attempt_after-Ensures P Q (overrun, d) f g h k l = h
  attempt_after-Ensures P Q (stuck, d) f g h k l = h

  pub Always-attempt :
      (P : A → Type 0) (Q : B → Type 0) (m : Parser A) (f : A → Parser B) (g : Status → Parser B)
      → Always P m
      → ((a : A) → P a → Always Q (f a))
      → ((s : Status) → Always Q (g s))
      → Always Q (attempt m f g)
  Always-attempt P Q m f g h k l d = attempt_after-Ensures P Q (m d) f g (h d) k l

module _ {B : Type 0} (Q : B → Type 0) where
  pub Always-warn_if :
      (b : Bool) (code message : String) (offset : ℕ) (k : Parser B)
      → Always Q k
      → Always Q (warn_if b code message offset >> k)
  Always-warn_if true code message offset k h d = h _
  Always-warn_if false code message offset k h d = h d

  pub Always-info_if :
      (b : Bool) (code message : String) (offset : ℕ) (k : Parser B)
      → Always Q k
      → Always Q (info_if b code message offset >> k)
  Always-info_if true code message offset k h d = h _
  Always-info_if false code message offset k h d = h d

  pub Always-if :
      (b : Bool) (m k : Parser B)
      → (b ≡ true → Always Q m)
      → (b ≡ false → Always Q k)
      → Always Q (if b then m else k)
  Always-if true m k h g = h refl
  Always-if false m k h g = g refl
