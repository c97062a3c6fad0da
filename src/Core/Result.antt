-- ===== src/Core/Result.antt =====
-- include/core/result.hpp: `Status` and `Result<T>`. Two outcomes are no C++ values: `overrun` is a
-- read outside the bytes of a view, and `stuck` is a loop whose fuel ran out.
use packet_guard.Base.{Bool, true, false, ◌≡◌, refl, ◌⊎◌, inl, inr, [], codes, Text}
use Prim.Native.String.{String}

pub data Severity : Type 0 where
  info warning error : Severity

pub record Status : Type 0 where
  pub okay : Bool
  pub message : Text
  pub severity : Severity

abbrev pub success : Status
success = record { okay = true; message = []; severity = info }

abbrev pub warned : Text → Status
warned text = record { okay = true; message = text; severity = warning }

abbrev pub failure : Text → Status
failure text = record { okay = false; message = text; severity = error }

pub data Result {ℓ} (A : Type ℓ) : Type ℓ where
  ok : A → Result A
  failed : Status → Result A
  overrun : Result A
  stuck : Result A

-- `Status::failure("...")` as a returned result.
abbrev pub fail {ℓ} : {A : Type ℓ} → String → Result A
fail text = failed (failure (codes text))

-- `Result::ok`.
abbrev pub is_ok {ℓ} : {A : Type ℓ} → Result A → Bool
is_ok (ok a) = true
is_ok _ = false

-- `auto x = m; if (!x) return x.status();`
infixl 5 ◌>>=◌
abbrev pub ◌>>=◌ {ℓ κ} : {A : Type ℓ} {B : Type κ} → Result A → (A → Result B) → Result B
ok a >>= f = f a
failed s >>= f = failed s
overrun >>= f = overrun
stuck >>= f = stuck

-- The code returns, and a value that it returns satisfies `P`.
abbrev pub Ensures : {A : Type 0} → (A → Type 0) → Result A → Type 0
Ensures P (ok a) = P a
Ensures P (failed s) = Unit
Ensures P overrun = ⊥
Ensures P stuck = ⊥

module _ {A B : Type 0} where
  pub Ensures-bind :
      (P : A → Type 0) (Q : B → Type 0) (m : Result A) (f : A → Result B)
      → Ensures P m
      → ((a : A) → P a → Ensures Q (f a))
      → Ensures Q (m >>= f)
  Ensures-bind P Q (ok a) f h k = k a h
  Ensures-bind P Q (failed s) f h k = tt
  Ensures-bind P Q overrun f h k = h
  Ensures-bind P Q stuck f h k = h

module _ {A : Type 0} where
  pub Ensures-weaken :
      (P Q : A → Type 0) (m : Result A) → Ensures P m → ((a : A) → P a → Q a) → Ensures Q m
  Ensures-weaken P Q (ok a) h k = k a h
  Ensures-weaken P Q (failed s) h k = tt
  Ensures-weaken P Q overrun h k = h
  Ensures-weaken P Q stuck h k = h

  pub Ensures-ok : (P : A → Type 0) (m : Result A) (a : A) → Ensures P m → m ≡ ok a → P a
  Ensures-ok P m a h e = rw e at h

  -- The cases of a result that is no fault.
  pub Ensures-cases :
      (P : A → Type 0) (m : Result A)
      → Ensures P m
      → ((a : A) × (m ≡ ok a) × P a) ⊎ ((s : Status) × (m ≡ failed s))
  Ensures-cases P (ok a) h = inl (a, refl, h)
  Ensures-cases P (failed s) h = inr (s, refl)
  Ensures-cases P overrun h = absurd h
  Ensures-cases P stuck h = absurd h
