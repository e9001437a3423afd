-- ===== src/Prelude/Decimal.antt =====
-- What `parse_int` reads of the digits that `itoa` prints.
use Prim.Native.Nat.{ℕ, zero, suc, ◌+◌, ◌-◌, ◌*◌, ◌/◌, ◌%◌, ◌≤◌, ◌<◌}
use Prim.Native.Char.{Char, code}
use Prim.Native.String.{String, char_at}
use mathlib.Core.Path.{◌≡◌, refl, ap, ◌∙◌}
use mathlib.Core.Logic.{inl, inr}
use mathlib.Core.Bool.{Bool, true, false, ◌&&◌}
use mathlib.Core.Option.{none, some}
use native.Mathlib.Omega.{arith}
use text.Mathlib.TextLemmas.{nil-append, cons-append, nil≢cons, head-eq_of_cons-eq}
use echo_mcp.Prelude.Tests.{leb, ltb, eqb, if◌then◌else◌, Bool-cases, ltb→lt}
use echo_mcp.Prelude.Int.{ℤ, pos, negsuc}
use echo_mcp.Prelude.Text.{◌+s◌}
use echo_mcp.Prelude.Numbers.{
  digit, decimal_onto, decimal, itoa, digits_from, parse_digits, int64_cutoff, positive, negative,
  parse_int,
}

digit_char : ℕ → Char
digit_char d = char_at "0123456789" d

code-digit : (d : ℕ) → d < 10 → code (digit_char d) ≡ 48 + d
unfolding digit_char
code-digit zero h = refl
code-digit (suc zero) h = refl
code-digit (suc (suc zero)) h = refl
code-digit (suc (suc (suc zero))) h = refl
code-digit (suc (suc (suc (suc zero)))) h = refl
code-digit (suc (suc (suc (suc (suc zero))))) h = refl
code-digit (suc (suc (suc (suc (suc (suc zero)))))) h = refl
code-digit (suc (suc (suc (suc (suc (suc (suc zero))))))) h = refl
code-digit (suc (suc (suc (suc (suc (suc (suc (suc zero)))))))) h = refl
code-digit (suc (suc (suc (suc (suc (suc (suc (suc (suc zero))))))))) h = refl
code-digit (suc (suc (suc (suc (suc (suc (suc (suc (suc (suc n)))))))))) h =
    absurd (omega (arith, h))

digits_from-cons :
    (n : ℕ) (c : Char) (s : String)
    → (leb 48 (code c) && leb (code c) 57) ≡ true
    → digits_from n (String.◌∷◌ c s) ≡ digits_from (n * 10 + (code c - 48)) s
unfolding digits_from
digits_from-cons n c s h = rw (h) refl

is_digit : (k d : ℕ) → d < 10 → k ≡ 48 + d → (leb 48 k && leb k 57) ≡ true
is_digit k d h e = ground (arith, h, e)

digits_from-char :
    (n d : ℕ) (c : Char) (s : String)
    → d < 10
    → code c ≡ 48 + d
    → digits_from n (String.◌∷◌ c s) ≡ digits_from (n * 10 + d) s
digits_from-char n d c s h e =
    digits_from-cons n c s (is_digit (code c) d h e) ∙ ap (λ m. digits_from m s) (omega (arith, e))

digit-append : (d : ℕ) (s : String) → digit d +s s ≡ String.◌∷◌ (digit_char d) s
unfolding digit_char
digit-append d s =
    cons-append (digit_char d) String.[] s ∙ ap (String.◌∷◌ (digit_char d)) (nil-append s)

digits_from-digit :
    (n d : ℕ) (s : String) → d < 10 → digits_from n (digit d +s s) ≡ digits_from (n * 10 + d) s
unfolding digit_char
digits_from-digit n d s h =
    ap (digits_from n) (digit-append d s) ∙ digits_from-char n d (digit_char d) s h (code-digit d h)

digits_from-decimal :
    (fuel n : ℕ) (s : String) → n < fuel → digits_from 0 (decimal_onto fuel n s) ≡ digits_from n s
unfolding decimal_onto
digits_from-decimal zero n s h = absurd (omega arith)
digits_from-decimal (suc fuel) n s h = elim (Bool-cases (ltb n 10)) [
  | inl e ↦
      rw (e) (digits_from-digit 0 n s (ltb→lt n 10 e) ∙ ap (λ m. digits_from m s) (omega arith))
  | inr e ↦
      let large = not_below n e in
      rw (e) (
        digits_from-decimal fuel (n / 10) (digit (n % 10) +s s) (omega (arith, large))
        ∙ digits_from-digit (n / 10) (n % 10) s (omega arith)
        ∙ ap (λ m. digits_from m s) (omega arith))
]
  where
    not_below : (n : ℕ) → ltb n 10 ≡ false → 10 ≤ n
    not_below n e = ground (arith, e)

-- The first character that is printed is a digit.
record IsPrinted (text : String) : Type 0 where
  d : ℕ
  t : String
  d_bound : d < 10
  shape : text ≡ String.◌∷◌ (digit_char d) t

first-IsPrinted : (fuel n : ℕ) (s : String) → IsPrinted (decimal_onto (suc fuel) n s)
unfolding decimal_onto
first-IsPrinted zero n s = elim (Bool-cases (ltb n 10)) [
  | inl e ↦ rw (e) (record { d = n; t = s; d_bound = ltb→lt n 10 e; shape = digit-append n s })
  | inr e ↦
      rw (e) (record { d = n % 10; t = s; d_bound = omega arith; shape = digit-append (n % 10) s })
]
first-IsPrinted (suc fuel) n s = elim (Bool-cases (ltb n 10)) [
  | inl e ↦ rw (e) (record { d = n; t = s; d_bound = ltb→lt n 10 e; shape = digit-append n s })
  | inr e ↦ rw (e) (first-IsPrinted fuel (n / 10) (digit (n % 10) +s s))
]

parse_digits-text :
    (text : String) (n : ℕ)
    → IsPrinted text
    → digits_from 0 text ≡ some n
    → parse_digits text ≡ some n
unfolding parse_digits
parse_digits-text String.[] n p h = absurd (nil≢cons p.shape)
parse_digits-text (String.◌∷◌ c s) n p h = h

parse_digits-decimal : (n : ℕ) → parse_digits (decimal n) ≡ some n
unfolding decimal digits_from
parse_digits-decimal n =
    parse_digits-text _ n (first-IsPrinted n n "") (digits_from-decimal (suc n) n "" (omega arith))

not_sign : (k d : ℕ) → k ≡ 48 + d → (eqb k 43 ≡ false) × (eqb k 45 ≡ false)
not_sign k d e = (ground (arith, e), ground (arith, e))

parse_int-text : (text : String) → IsPrinted text → parse_int text ≡ positive (parse_digits text)
unfolding parse_int
parse_int-text String.[] p = absurd (nil≢cons p.shape)
parse_int-text (String.◌∷◌ c s) p =
    let e =
      not_sign (code c) p.d (ap code (head-eq_of_cons-eq p.shape) ∙ code-digit p.d p.d_bound) in
    rw (e.0, e.1) refl

parse_int-minus : (text : String) → parse_int ("-" +s text) ≡ negative (parse_digits text)
unfolding parse_int
parse_int-minus text = rw (cons-append "-" "" text, nil-append text) refl

-- The integers of 64 bits, from -(2 ^ 63) to 2 ^ 63 - 1.
abbrev pub fits_int64 : ℤ → Bool
fits_int64 (pos n) = ltb n int64_cutoff
fits_int64 (negsuc n) = ltb n int64_cutoff

-- The text of an integer is parsed as this integer, if it is one of 64 bits, and is else refused.
pub parse_int-itoa : (z : ℤ) → parse_int (itoa z) ≡ (if fits_int64 z then some z else none)
unfolding itoa positive negative
parse_int-itoa (pos n) =
    parse_int-text (decimal n) (first-IsPrinted n n "") ∙ ap positive (parse_digits-decimal n)
parse_int-itoa (negsuc n) =
    parse_int-minus (decimal (suc n)) ∙ ap negative (parse_digits-decimal (suc n))
