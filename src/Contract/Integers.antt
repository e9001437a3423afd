-- ===== src/Contract/Integers.antt =====
-- internal/contract/openapi.go: which integers the type "integer" accepts.
use echo_mcp.Prelude.{
  ◌<◌, String, ◌≡◌, refl, sym, ◌∙◌, ap, ◌↔◌, Bool, true, false, Option, none, some, ◌+s◌, ℤ, pos,
  negsuc, itoa, fits_int64, parse_int-itoa, int64_cutoff, is_some, ltb→lt, arith, if◌then◌else◌,
}
use echo_mcp.Failure.{plain, Result, ok, err}
use echo_mcp.Json.{number}
use echo_mcp.Contract.Validate.{validate_integer}

-- At least -(2 ^ 63) and below 2 ^ 63.
abbrev pub IsInt64 : ℤ → Type 0
IsInt64 (pos n) = n < int64_cutoff
IsInt64 (negsuc n) = n < int64_cutoff

fits-IsInt64 : (z : ℤ) → fits_int64 z ≡ true ↔ IsInt64 z
fits-IsInt64 (pos n) = (ltb→lt n int64_cutoff, λ h. ground (arith, h))
fits-IsInt64 (negsuc n) = (ltb→lt n int64_cutoff, λ h. ground (arith, h))

checked : (path : String) → Option ℤ → Result (Unit {0})
checked path o = if is_some o then ok tt else err (plain (path +s " must be an integer"))

checked_iff :
    (path : String) (z : ℤ) (b : Bool)
    → checked path (if b then some z else none) ≡ ok tt ↔ b ≡ true
unfolding checked
checked_iff path z true = (λ _. refl, λ _. refl)
checked_iff path z false = (λ k. cc k, λ k. cc k)

-- The decimal text of an integer is accepted as an integer exactly if the integer is at least
-- -(2 ^ 63) and below 2 ^ 63.
pub validate_integer_iff :
    (z : ℤ) (path : String) → validate_integer (number (itoa z)) path ≡ ok tt ↔ IsInt64 z
unfolding validate_integer checked
validate_integer_iff z path =
    let read = ap (checked path) (parse_int-itoa z) in
    let accepts = checked_iff path z (fits_int64 z) in
    let fits = fits-IsInt64 z in
    (λ h. fits.0 (accepts.0 (sym read ∙ h)), λ h. read ∙ accepts.1 (fits.1 h))
