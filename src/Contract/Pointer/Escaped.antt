-- ===== src/Contract/Pointer/Escaped.antt =====
-- internal/contract/openapi.go: the escaping of RFC 6901, and how resolveJSONPointer undoes it.
use Prim.Native.Char.{Char, code}
use text.Mathlib.TextLemmas.{nil-append, cons-append}
use text.Mathlib.TextEquality.{Char-path}
use echo_mcp.Prelude.{
  ℕ, String, ◌≡◌, refl, sym, ap, ◌∙◌, inl, inr, true, false, ◌+s◌, eqb, arith, if◌then◌else◌,
  Bool-cases,
}
use echo_mcp.Contract.Pointer.{replace_pair, unescape_token}

-- "~" stands as "~0", and "/" as "~1".
escape_char : Char → String
escape_char c =
    if eqb (code c) b'~' then "~0" else if eqb (code c) b'/' then "~1" else String.◌∷◌ c String.[]

unfoldable pub escape : String → String
unfolding escape_char
escape String.[] = String.[]
escape (String.◌∷◌ c s) = escape_char c +s escape s

-- The text with "~0" for "~" only.
tilde_char : Char → String
tilde_char c = if eqb (code c) b'~' then "~0" else String.◌∷◌ c String.[]

tildes : String → String
unfolding tilde_char
tildes String.[] = String.[]
tildes (String.◌∷◌ c s) = tilde_char c +s tildes s

pub one : (c : Char) (s : String) → String.◌∷◌ c String.[] +s s ≡ String.◌∷◌ c s
one c s = cons-append c "" s ∙ ap (String.◌∷◌ c) (nil-append s)

two :
    (c d : Char) (s : String)
    → String.◌∷◌ c (String.◌∷◌ d String.[]) +s s ≡ String.◌∷◌ c (String.◌∷◌ d s)
two c d s = cons-append c (String.◌∷◌ d String.[]) s ∙ ap (String.◌∷◌ c) (one d s)

-- A character that does not begin the pair stays.
replace-other :
    (a b : ℕ) (new : String) (c : Char) (s : String)
    → eqb (code c) a ≡ false
    → replace_pair a b new (String.◌∷◌ c s) ≡ String.◌∷◌ c (replace_pair a b new s)
unfolding replace_pair
replace-other a b new c String.[] h = refl
replace-other a b new c (String.◌∷◌ d s) h = rw (h) refl

-- A pair that begins like it stays as well.
replace-half :
    (a b : ℕ) (new : String) (c d : Char) (s : String)
    → eqb (code d) b ≡ false
    → replace_pair a b new (String.◌∷◌ c (String.◌∷◌ d s))
      ≡ String.◌∷◌ c (replace_pair a b new (String.◌∷◌ d s))
unfolding replace_pair
replace-half a b new c d s h = elim (Bool-cases (eqb (code c) a)) [
  | inl e ↦ rw (h, e) refl
  | inr e ↦ rw (h, e) refl
]

replace-pair :
    (a b : ℕ) (new : String) (c d : Char) (s : String)
    → eqb (code c) a ≡ true
    → eqb (code d) b ≡ true
    → replace_pair a b new (String.◌∷◌ c (String.◌∷◌ d s)) ≡ new +s replace_pair a b new s
unfolding replace_pair
replace-pair a b new c d s h k = rw (h, k) refl

slash_char : (c : Char) → eqb (code c) b'/' ≡ true → c ≡ "/"
slash_char c h = Char-path c "/" (ground (arith, h))

tilde_is : (c : Char) → eqb (code c) b'~' ≡ true → c ≡ "~"
tilde_is c h = Char-path c "~" (ground (arith, h))

-- The first replacement, of "~1" by "/".
slashes : String → String
slashes = replace_pair b'~' b'1' "/"

slashes-char :
    (c : Char) (t u : String) → slashes t ≡ u → slashes (escape_char c +s t) ≡ tilde_char c +s u
unfolding escape_char tilde_char slashes
slashes-char c t u h = elim (Bool-cases (eqb (code c) b'~')) [
  | inl e ↦
      rw (e, two "~" "0" t, two "~" "0" u)
        (replace-half b'~' b'1' "/" "~" "0" t refl
          ∙ ap (String.◌∷◌ "~") (replace-other b'~' b'1' "/" "0" t refl ∙ ap (String.◌∷◌ "0") h))
  | inr e ↦ elim (Bool-cases (eqb (code c) b'/')) [
    | inl f ↦
        rw (e, f, two "~" "1" t)
          (replace-pair b'~' b'1' "/" "~" "1" t refl refl
            ∙ ap (λ x. "/" +s x) h
            ∙ ap (λ x. String.◌∷◌ x "" +s u) (sym (slash_char c f)))
    | inr f ↦ rw (e, f, one c t, one c u) (replace-other b'~' b'1' "/" c t e ∙ ap (String.◌∷◌ c) h)
  ]
]

slashes-escape : (s : String) → slashes (escape s) ≡ tildes s
unfolding escape tildes slashes replace_pair
slashes-escape String.[] = refl
slashes-escape (String.◌∷◌ c s) = slashes-char c (escape s) (tildes s) (slashes-escape s)

-- The second replacement, of "~0" by "~".
zeros : String → String
zeros = replace_pair b'~' b'0' "~"

zeros-char : (c : Char) (t u : String) → zeros t ≡ u → zeros (tilde_char c +s t) ≡ String.◌∷◌ c u
unfolding tilde_char zeros
zeros-char c t u h = elim (Bool-cases (eqb (code c) b'~')) [
  | inl e ↦
      rw (e, two "~" "0" t)
        (replace-pair b'~' b'0' "~" "~" "0" t refl refl
          ∙ ap (λ x. "~" +s x) h
          ∙ one "~" u
          ∙ ap (λ x. String.◌∷◌ x u) (sym (tilde_is c e)))
  | inr e ↦ rw (e, one c t) (replace-other b'~' b'0' "~" c t e ∙ ap (String.◌∷◌ c) h)
]

zeros-tildes : (s : String) → zeros (tildes s) ≡ s
unfolding tildes zeros replace_pair
zeros-tildes String.[] = refl
zeros-tildes (String.◌∷◌ c s) = zeros-char c (tildes s) s (zeros-tildes s)

pub unescape_token-escape : (s : String) → unescape_token (escape s) ≡ s
unfolding unescape_token slashes zeros
unescape_token-escape s = ap zeros (slashes-escape s) ∙ zeros-tildes s

-- No "/" is left in an escaped text.
abbrev pub Lacks : String → Type 0
Lacks String.[] = Unit
Lacks (String.◌∷◌ c s) = (eqb (code c) b'/' ≡ false) × Lacks s

escape_char-Lacks : (c : Char) (t : String) → Lacks t → Lacks (escape_char c +s t)
unfolding escape_char
escape_char-Lacks c t h = elim (Bool-cases (eqb (code c) b'~')) [
  | inl e ↦ rw (e, two "~" "0" t) (refl, (refl, h))
  | inr e ↦ elim (Bool-cases (eqb (code c) b'/')) [
    | inl f ↦ rw (e, f, two "~" "1" t) (refl, (refl, h))
    | inr f ↦ rw (e, f, one c t) (f, h)
  ]
]

pub escape-Lacks : (s : String) → Lacks (escape s)
unfolding escape
escape-Lacks String.[] = tt
escape-Lacks (String.◌∷◌ c s) = escape_char-Lacks c (escape s) (escape-Lacks s)
