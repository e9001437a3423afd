-- ===== src/Prelude/Numbers.antt =====
-- What the program uses of Go's `strconv`.
use Prim.Native.Nat.{ℕ, zero, suc, ◌-◌, ◌+◌, ◌*◌, ◌/◌, ◌%◌}
use Prim.Native.Char.{code}
use Prim.Native.String.{String, char_at}
use mathlib.Core.Path.{◌≡◌, refl}
use mathlib.Core.Bool.{◌&&◌}
use mathlib.Core.Option.{Option, none, some}
use echo_mcp.Prelude.Tests.{leb, ltb, eqb, if◌then◌else◌}
use echo_mcp.Prelude.Int.{ℤ, pos, negsuc}
use echo_mcp.Prelude.Text.{◌+s◌}

abbrev pub digit : ℕ → String
digit n = String.◌∷◌ (char_at "0123456789" n) String.[]

-- The digits of n in front of a text; the fuel n + 1 is more than n has digits.
unfoldable pub decimal_onto : ℕ → ℕ → String → String
decimal_onto zero n s = s
decimal_onto (suc fuel) n s =
    let rest = decimal_onto fuel (n / 10) (digit (n % 10) +s s) in
    if ltb n 10 then digit n +s s else rest

unfoldable pub decimal : ℕ → String
unfolding decimal_onto
decimal n = decimal_onto (suc n) n ""

-- strconv.Itoa
unfoldable pub itoa : ℤ → String
unfolding decimal
itoa (pos n) = decimal n
itoa (negsuc n) = "-" +s decimal (suc n)

unfoldable pub digits_from : ℕ → String → Option ℕ
digits_from n String.[] = some n
digits_from n (String.◌∷◌ c s) =
    if leb b'0' (code c) && leb (code c) b'9'
    then digits_from (n * 10 + (code c - b'0')) s
    else none

-- strconv.ParseUint without its bound: `none` on an empty text or a character that is no digit
unfoldable pub parse_digits : String → Option ℕ
unfolding digits_from
parse_digits String.[] = none
parse_digits (String.◌∷◌ c s) = digits_from 0 (String.◌∷◌ c s)

-- 2 ^ 63, the cut-off of ParseInt for 64 bits
abbrev pub int64_cutoff : ℕ
int64_cutoff = 9223372036854775808

unfoldable pub positive : Option ℕ → Option ℤ
positive none = none
positive (some n) = if ltb n int64_cutoff then some (pos n) else none

unfoldable pub negative : Option ℕ → Option ℤ
negative none = none
negative (some zero) = some (pos 0)
negative (some (suc n)) = if ltb n int64_cutoff then some (negsuc n) else none

-- strconv.ParseInt(s, 10, 64) and strconv.Atoi; `none` is an error
unfoldable pub parse_int : String → Option ℤ
unfolding parse_digits positive negative
parse_int String.[] = none
parse_int (String.◌∷◌ c s) =
    if eqb (code c) b'+'
    then positive (parse_digits s)
    else if eqb (code c) b'-'
    then negative (parse_digits s)
    else positive (parse_digits (String.◌∷◌ c s))

itoa_tests : (itoa (pos 404) ≡ "404") × (itoa (negsuc 6) ≡ "-7") × (itoa (pos 0) ≡ "0")
unfolding itoa
itoa_tests = (refl, refl, refl)

parse_int_tests :
    (parse_int "-9223372036854775808" ≡ some (negsuc 9223372036854775807))
    × (parse_int "9223372036854775808" ≡ none)
    × (parse_int "+12" ≡ some (pos 12))
    × (parse_int "1.5" ≡ none)
unfolding parse_int
parse_int_tests = (refl, refl, refl, refl)
