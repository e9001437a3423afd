-- ===== src/Failure.antt =====
-- Go's `error` values as the program makes and inspects them: the three structured errors of
-- internal/contract/openapi.go and internal/control/contract_manager.go, and `plain` for the errors
-- of fmt.Errorf and of the standard library, which carry a text only. `out_of_fuel` belongs to the
-- model: it is no value of the program. `Result` is the pair
-- `(value, error)` of a function that returns exactly one of the two.
use echo_mcp.Prelude.{
  String, ◌≡◌, refl, ◌⊎◌, inl, inr, Bool, true, false, Option, none, some, List, ◌==◌, ◌+s◌,
  if◌then◌else◌,
}

-- The fields Code, Message and Diagnostics. The cause that a LoadError wraps is an error of the
-- standard library and is read nowhere.
pub record Diagnostic : Type 0 where
  pub code : String
  pub message : String
  pub diagnostics : List String

pub data Failure : Type 0 where
  plain : String → Failure
  load_error : Diagnostic → Failure
  validation_error : Diagnostic → Failure
  operation_error : Diagnostic → Failure
  out_of_fuel : Failure

-- (*OperationError).Error
abbrev operation_error_text : Diagnostic → String
operation_error_text d = if d.code == "" then d.message else d.code +s ": " +s d.message

-- err.Error()
unfoldable pub error_text : Failure → String
error_text (plain text) = text
error_text (load_error d) = d.message
error_text (validation_error d) = d.message
error_text (operation_error d) = operation_error_text d
error_text out_of_fuel = ""

pub data Result {ℓ} (A : Type ℓ) : Type ℓ where
  ok : A → Result A
  err : Failure → Result A

-- The early return on `err != nil`.
infixl 5 ◌>>=◌
abbrev pub ◌>>=◌ {ℓ κ} : {B : Type ℓ} {C : Type κ} → Result B → (B → Result C) → Result C
err failure >>= next = err failure
ok value >>= next = next value

infixl 5 ◌>>◌
abbrev pub ◌>>◌ {ℓ} : {C : Type ℓ} → Result (Unit {0}) → Result C → Result C
check >> rest = check >>= λ _. rest

-- A split on a computed result that keeps the equation.
pub Result-cases {ℓ} :
    {A : Type ℓ} (r : Result A) → ((a : A) × (r ≡ ok a)) ⊎ ((e : Failure) × (r ≡ err e))
Result-cases (ok a) = inl (a, refl)
Result-cases (err e) = inr (e, refl)

-- What a chain that succeeds went through.
pub bind-ok {ℓ κ} :
    {B : Type ℓ} {C : Type κ} (r : Result B) (next : B → Result C) (c : C)
    → (r >>= next) ≡ ok c
    → (b : B) × (r ≡ ok b) × (next b ≡ ok c)
bind-ok (ok b) next c h = (b, refl, h)
bind-ok (err e) next c h = cc h

abbrev pub is_ok {ℓ} : {A : Type ℓ} → Result A → Bool
is_ok (ok a) = true
is_ok (err e) = false

-- What a function of a library answers: a value, or an error of which only the text is known.
abbrev pub Answer {ℓ} : Type ℓ → Type ℓ
Answer A = String ⊎ A

abbrev pub or_plain {ℓ} : {A : Type ℓ} → Answer A → Result A
or_plain (inl text) = err (plain text)
or_plain (inr a) = ok a

pub Answer-cases {ℓ} :
    {A : Type ℓ} (r : Answer A) → ((a : A) × (r ≡ inr a)) ⊎ ((text : String) × (r ≡ inl text))
Answer-cases (inr a) = inl (a, refl)
Answer-cases (inl text) = inr (text, refl)

-- A value that was looked up, or the error that tells it is missing.
abbrev pub some_or {ℓ} : {A : Type ℓ} → Option A → Failure → Result A
some_or none e = err e
some_or (some a) e = ok a
