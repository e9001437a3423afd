-- ===== src/Contract/Route/Parameter.antt =====
-- internal/contract/openapi.go: which segments of a template are parameters.
use Prim.Native.Char.{Char, code}
use Prim.Native.String.len
use Prim.Native.String.{len}
use text.Mathlib.TextLemmas.{nil-append, cons-append}
use text.Mathlib.TextEquality.{Char-path}
use text.Mathlib.TextPositions.{len-append, len_utf8-pos}
use echo_mcp.Prelude.{
  ◌<◌, String, ◌≡◌, ◌≢◌, refl, sym, ap, ◌∙◌, ◌↔◌, true, false, ◌+s◌, eqb, arith, has_prefix,
  ends_with,
}
use echo_mcp.Contract.Pointer.Escaped.{one}
use echo_mcp.Contract.Route.{is_parameter}

-- {name}
abbrev pub IsParameter : String → Type 0
IsParameter t = (name : String) × (name ≢ "") × (t ≡ "{" +s name +s "}")

pub char_is : (c d : Char) → eqb (code c) (code d) ≡ true → c ≡ d
char_is c d h = Char-path c d (ground (arith, h))

ends_with-found :
    (c : Char) (s : String)
    → ends_with b'}' (String.◌∷◌ c s) ≡ true
    → (t : String) × (String.◌∷◌ c s ≡ t +s "}")
unfolding ends_with
ends_with-found c String.[] h =
    ("", ap (λ x. String.◌∷◌ x "") (char_is c "}" h) ∙ sym (nil-append "}"))
ends_with-found c (String.◌∷◌ d s) h =
    let (t, e) = ends_with-found d s h in
    (String.◌∷◌ c t, ap (String.◌∷◌ c) e ∙ sym (cons-append c t "}"))

ends_with-append : (t : String) → ends_with b'}' (t +s "}") ≡ true
unfolding ends_with
ends_with-append String.[] = ap (ends_with b'}') (nil-append "}")
ends_with-append (String.◌∷◌ c String.[]) = rw (one c "}") refl
ends_with-append (String.◌∷◌ c (String.◌∷◌ d t)) =
    rw (cons-append c (String.◌∷◌ d t) "}", cons-append d t "}")
      (ap (ends_with b'}') (sym (cons-append d t "}")) ∙ ends_with-append (String.◌∷◌ d t))

len-nonempty : (c : Char) (s : String) → 0 < len (String.◌∷◌ c s)
len-nonempty c s = let positive = len_utf8-pos c in omega (arith, positive.1, len.cons c s)

braces : (t name : String) → t ≡ "{" +s name +s "}" → name ≡ "" → is_parameter t ≡ false
unfolding is_parameter has_prefix ends_with
braces t name e n = rw (e, n) refl

is_parameter-IsParameter : (t : String) → is_parameter t ≡ true → IsParameter t
unfolding is_parameter has_prefix ends_with
is_parameter-IsParameter String.[] h = cc h
is_parameter-IsParameter (String.◌∷◌ c String.[]) h = absurd (ground (arith, h))
is_parameter-IsParameter (String.◌∷◌ c (String.◌∷◌ d s)) h =
    let opening : c ≡ "{" = char_is c "{" (ground (arith, h)) in
    let (name, closing) = ends_with-found d s (ground (arith, h)) in
    let made : String.◌∷◌ c (String.◌∷◌ d s) ≡ "{" +s name +s "}" =
      ap (λ x. String.◌∷◌ x (String.◌∷◌ d s)) opening
      ∙ ap (String.◌∷◌ "{") closing
      ∙ sym (one "{" (name +s "}")) in
    (name, λ n. cc (h, braces _ name made n), made)

opened : (x : String) → has_prefix ("{" +s x) "{" ≡ true
unfolding has_prefix
opened x = ap (λ y. has_prefix y "{") (one "{" x)

closed : (c : Char) (name : String) → ends_with b'}' ("{" +s String.◌∷◌ c name +s "}") ≡ true
unfolding ends_with
closed c name =
    ap (ends_with b'}')
      (one "{" (String.◌∷◌ c name +s "}") ∙ ap (String.◌∷◌ "{") (cons-append c name "}"))
    ∙ ap (ends_with b'}') (sym (cons-append c name "}"))
    ∙ ends_with-append (String.◌∷◌ c name)

len-braces : (c : Char) (name : String) → 2 < len ("{" +s String.◌∷◌ c name +s "}")
len-braces c name = omega (
  arith,
  len-append "{" (String.◌∷◌ c name +s "}"),
  len-append (String.◌∷◌ c name) "}",
  len-nonempty c name,
)

IsParameter-is_parameter :
    (c : Char) (name : String) → is_parameter ("{" +s String.◌∷◌ c name +s "}") ≡ true
unfolding is_parameter
IsParameter-is_parameter c name =
    rw (opened (String.◌∷◌ c name +s "}"), closed c name) (ground (arith, len-braces c name))

pub is_parameter_iff : (t : String) → is_parameter t ≡ true ↔ IsParameter t
is_parameter_iff t = (is_parameter-IsParameter t, λ h. back h.0 h.1 h.2)
  where
    back : (name : String) → name ≢ "" → t ≡ "{" +s name +s "}" → is_parameter t ≡ true
    back String.[] n e = absurd (n refl)
    back (String.◌∷◌ c name) n e = ap is_parameter e ∙ IsParameter-is_parameter c name
