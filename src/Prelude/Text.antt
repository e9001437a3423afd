-- ===== src/Prelude/Text.antt =====
-- What the program uses of Go's `strings` and `fmt`, over texts as lists of code points.
use Prim.Native.Nat.{ℕ, suc, ◌/◌, ◌%◌}
use Prim.Native.Char.{Char, code}
use Prim.Native.String
use Prim.Native.String.{String, char_at}
use text.Mathlib.Text.{◌==◌}
use mathlib.Core.Bool.{Bool, true, false, ◌&&◌, ◌||◌}
use mathlib.Core.List.{List, [], ◌∷◌}
use echo_mcp.Prelude.Lower.{lower_char}
use echo_mcp.Prelude.Tests.{leb, eqb, ltb, if◌then◌else◌}

infixr 65 ◌+s◌
abbrev pub ◌+s◌ : String → String → String
s +s t = String.◌++◌ s t

-- unicode.IsSpace
unfoldable pub is_space : ℕ → Bool
is_space c =
    (leb 9 c && leb c 13)
    || eqb c 32
    || eqb c 0x85
    || eqb c 0xA0
    || eqb c 0x1680
    || (leb 0x2000 c && leb c 0x200A)
    || eqb c 0x2028
    || eqb c 0x2029
    || eqb c 0x202F
    || eqb c 0x205F
    || eqb c 0x3000

unfoldable pub trim_left : (ℕ → Bool) → String → String
trim_left p String.[] = String.[]
trim_left p (String.◌∷◌ c s) = if p (code c) then trim_left p s else String.◌∷◌ c s

-- A character in front of a trimmed rest: it goes too if nothing but cut characters follows.
unfoldable pub trim_cons : (ℕ → Bool) → Char → String → String
trim_cons p c String.[] = if p (code c) then String.[] else String.◌∷◌ c String.[]
trim_cons p c (String.◌∷◌ d s) = String.◌∷◌ c (String.◌∷◌ d s)

unfoldable pub trim_right : (ℕ → Bool) → String → String
unfolding trim_cons
trim_right p String.[] = String.[]
trim_right p (String.◌∷◌ c s) = trim_cons p c (trim_right p s)

-- strings.TrimSpace
unfoldable pub trim_space : String → String
unfolding trim_left trim_right is_space
trim_space s = trim_right is_space (trim_left is_space s)

-- strings.Trim(s, "/")
unfoldable pub trim_slashes : String → String
unfolding trim_left trim_right
trim_slashes s = trim_right (λ c. eqb c b'/') (trim_left (λ c. eqb c b'/') s)

-- strings.ToLower
unfoldable pub to_lower : String → String
unfolding lower_char
to_lower String.[] = String.[]
to_lower (String.◌∷◌ c s) = String.◌∷◌ (lower_char c) (to_lower s)

-- strings.HasPrefix(s, prefix)
unfoldable pub has_prefix : String → String → Bool
has_prefix s String.[] = true
has_prefix String.[] (String.◌∷◌ d t) = false
has_prefix (String.◌∷◌ c s) (String.◌∷◌ d t) = eqb (code c) (code d) && has_prefix s t

-- strings.TrimPrefix(s, prefix), for a prefix of one character
unfoldable pub trim_first : ℕ → String → String
trim_first k String.[] = String.[]
trim_first k (String.◌∷◌ c s) = if eqb (code c) k then s else String.◌∷◌ c s

-- strings.HasSuffix(s, suffix), for a suffix of one character
unfoldable pub ends_with : ℕ → String → Bool
ends_with k String.[] = false
ends_with k (String.◌∷◌ c String.[]) = eqb (code c) k
ends_with k (String.◌∷◌ c (String.◌∷◌ d s)) = ends_with k (String.◌∷◌ d s)

-- A character in front of the parts of the rest.
unfoldable pub split_cons : ℕ → Char → List String → List String
split_cons k c [] =
    if eqb (code c) k then String.[] ∷ String.[] ∷ [] else String.◌∷◌ c String.[] ∷ []
split_cons k c (part ∷ parts) =
    if eqb (code c) k then String.[] ∷ part ∷ parts else String.◌∷◌ c part ∷ parts

-- strings.Split(s, sep), for a separator of one character: never an empty list
unfoldable pub split : ℕ → String → List String
unfolding split_cons
split k String.[] = String.[] ∷ []
split k (String.◌∷◌ c s) = split_cons k c (split k s)

-- strings.Join(parts, sep)
unfoldable pub join : String → List String → String
join sep [] = String.[]
join sep (s ∷ []) = s
join sep (s ∷ t ∷ ts) = s +s sep +s join sep (t ∷ ts)

-- The text before the first separator: `before` of strings.Cut(s, sep).
unfoldable pub cut_before : ℕ → String → String
cut_before k String.[] = String.[]
cut_before k (String.◌∷◌ c s) = if eqb (code c) k then String.[] else String.◌∷◌ c (cut_before k s)

abbrev hex_digit : ℕ → String
hex_digit n = String.◌∷◌ (char_at "0123456789abcdef" n) String.[]

-- One character inside a text that the verb %q prints.
unfoldable pub quote_char : Char → String
quote_char c =
    if eqb (code c) 34
    then "\\\""
    else if eqb (code c) 92
    then "\\\\"
    else if eqb (code c) 7
    then "\\a"
    else if eqb (code c) 8
    then "\\b"
    else if eqb (code c) 12
    then "\\f"
    else if eqb (code c) 10
    then "\\n"
    else if eqb (code c) 13
    then "\\r"
    else if eqb (code c) 9
    then "\\t"
    else if eqb (code c) 11
    then "\\v"
    else if ltb (code c) 32 || eqb (code c) 127
    then "\\x" +s hex_digit (code c / 16) +s hex_digit (code c % 16)
    else String.◌∷◌ c String.[]

unfoldable pub quote_chars : String → String
unfolding quote_char
quote_chars String.[] = String.[]
quote_chars (String.◌∷◌ c s) = quote_char c +s quote_chars s

-- The verb %q.
unfoldable pub quote : String → String
unfolding quote_chars
quote s = "\"" +s quote_chars s +s "\""

-- How many characters a text has.
unfoldable pub characters : String → ℕ
characters String.[] = 0
characters (String.◌∷◌ c s) = suc (characters s)

-- strings.TrimSuffix(s, suffix)
unfoldable pub trim_suffix : String → String → String
trim_suffix String.[] suffix = String.[]
trim_suffix (String.◌∷◌ c s) suffix =
    let rest = String.◌∷◌ c (trim_suffix s suffix) in
    if String.◌∷◌ c s == suffix then String.[] else rest
