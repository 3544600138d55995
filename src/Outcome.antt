-- ===== src/Outcome.antt =====
-- What a Python call ends in: a value, an exception that `except Exception` catches, or a
-- cancellation, which no handler of the program catches.
use xian_dex_automation.Base.{◌≡◌, refl, ◌⊎◌, inl, inr, String, text_append, Bool, true, false}

-- The name of the exception's class, and its message.
pub record Exn : Type 0 where
  pub type_name : String
  pub message : String

abbrev pub exn : String → String → Exn
exn t m = record { type_name = t; message = m }

abbrev pub value_error : String → Exn
value_error = exn "ValueError"

abbrev pub dex_error : String → Exn
dex_error = exn "DexAutomationError"

-- `f"{type(exc).__name__}: {exc}"`.
pub describe : Exn → String
describe e = text_append e.type_name (text_append ": " e.message)

pub data Outcome {ℓ} (A : Type ℓ) : Type ℓ where
  ok : A → Outcome A
  raised : Exn → Outcome A
  cancelled : Outcome A

infixl 5 ◌>>=◌ ◌>>◌
abbrev pub ◌>>=◌ {ℓ κ} : {A : Type ℓ} {B : Type κ} → Outcome A → (A → Outcome B) → Outcome B
ok a >>= f = f a
raised e >>= f = raised e
cancelled >>= f = cancelled

abbrev pub ◌>>◌ {ℓ} : {B : Type ℓ} → Outcome (Unit {0}) → Outcome B → Outcome B
m >> k = m >>= λ _. k

abbrev pub raise_if : Bool → Exn → Outcome (Unit {0})
raise_if true e = raised e
raise_if false e = ok tt

pub Outcome-cases {ℓ} :
    {A : Type ℓ} (o : Outcome A)
    → ((a : A) × (o ≡ ok a)) ⊎ ((o ≡ cancelled) ⊎ ((x : Exn) × (o ≡ raised x)))
Outcome-cases (ok a) = inl (a, refl)
Outcome-cases (raised x) = inr (inr (x, refl))
Outcome-cases cancelled = inr (inl refl)
