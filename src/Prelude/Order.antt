-- ===== src/Prelude/Order.antt =====
-- The order of `sort.Strings`, and that a sorted list does not depend on the order of the input.
use Prim.Native.Char.{code}
use Prim.Native.String.{String}
use mathlib.Core.Path.{◌≡◌, refl, ◌∙◌}
use mathlib.Core.Bool.{Bool, true, false}
use mathlib.Core.List.{List, [], ◌∷◌, Permᴰ}
use native.Mathlib.Omega.{arith}
use text.Mathlib.TextEquality.{Char-path}
use echo_mcp.Prelude.Tests.{ltb, if◌then◌else◌}

-- Lexicographic by code points, which is the order of the bytes of UTF-8.
unfoldable pub str_leb : String → String → Bool
str_leb String.[] t = true
str_leb (String.◌∷◌ c s) String.[] = false
str_leb (String.◌∷◌ c s) (String.◌∷◌ d t) =
    if ltb (code c) (code d) then true else if ltb (code d) (code c) then false else str_leb s t

str_leb_total : (s t : String) → str_leb s t ≡ false → str_leb t s ≡ true
unfolding str_leb
str_leb_total String.[] t h = cc
str_leb_total (String.◌∷◌ c s) String.[] h = refl
str_leb_total (String.◌∷◌ c s) (String.◌∷◌ d t) h = ground (arith, str_leb_total s t)

str_leb_antisymm : (s t : String) → str_leb s t ≡ true → str_leb t s ≡ true → s ≡ t
unfolding str_leb
str_leb_antisymm String.[] String.[] h k = refl
str_leb_antisymm String.[] (String.◌∷◌ d t) h k = cc
str_leb_antisymm (String.◌∷◌ c s) String.[] h k = cc
str_leb_antisymm (String.◌∷◌ c s) (String.◌∷◌ d t) h k =
    let heads : c ≡ d = Char-path c d (ground arith) in
    let tails : s ≡ t = str_leb_antisymm s t (ground arith) (ground arith) in cc

str_leb_trans : (s t u : String) → str_leb s t ≡ true → str_leb t u ≡ true → str_leb s u ≡ true
unfolding str_leb
str_leb_trans String.[] t u h k = refl
str_leb_trans (String.◌∷◌ c s) String.[] u h k = cc
str_leb_trans (String.◌∷◌ c s) (String.◌∷◌ d t) String.[] h k = cc
str_leb_trans (String.◌∷◌ c s) (String.◌∷◌ d t) (String.◌∷◌ e u) h k =
    ground (arith, str_leb_trans s t u)

unfoldable pub insert_string : String → List String → List String
insert_string s [] = s ∷ []
insert_string s (t ∷ ts) =
    let rest = insert_string s ts in if str_leb s t then s ∷ t ∷ ts else t ∷ rest

-- sort.Strings
unfoldable pub sort_strings : List String → List String
unfolding insert_string str_leb
sort_strings [] = []
sort_strings (s ∷ ss) = insert_string s (sort_strings ss)

insert_string_comm :
    (s t : String) (l : List String)
    → insert_string s (insert_string t l) ≡ insert_string t (insert_string s l)
unfolding insert_string
insert_string_comm s t [] =
    ground (arith, str_leb_total s t, str_leb_antisymm s t, str_leb_total t s)
insert_string_comm s t (u ∷ l) = ground (
  arith,
  insert_string_comm s t l,
  str_leb_total s t,
  str_leb_total t s,
  str_leb_antisymm s t,
  str_leb_trans s t u,
  str_leb_trans t s u,
)

-- Two listings of the same strings are sorted alike.
pub sort_strings-eq_of_perm :
    {xs ys : List String} → Permᴰ xs ys → sort_strings xs ≡ sort_strings ys
unfolding sort_strings
sort_strings-eq_of_perm Permᴰ.nil = refl
sort_strings-eq_of_perm (Permᴰ.cons e p) = cc (e, sort_strings-eq_of_perm p)
sort_strings-eq_of_perm (Permᴰ.swap {a} {b} {l} e f) =
    cc (e, f, insert_string_comm a b (sort_strings l))
sort_strings-eq_of_perm (Permᴰ.trans p q) = sort_strings-eq_of_perm p ∙ sort_strings-eq_of_perm q

sorted_keys : sort_strings ("b" ∷ "" ∷ "ab" ∷ "a" ∷ []) ≡ "" ∷ "a" ∷ "ab" ∷ "b" ∷ []
unfolding sort_strings
sorted_keys = refl
