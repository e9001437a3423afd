-- ===== src/Contract/Pointer/Printed.antt =====
-- internal/contract/openapi.go: JSON pointers as they are printed, and what resolveJSONPointer finds.
use Prim.Native.Char.{Char}
use text.Mathlib.TextLemmas.{nil-append, cons-append, append-nil, cons≢nil}
use echo_mcp.Prelude.{
  ℕ, ◌<◌, String, ◌≡◌, refl, ap, ◌∙◌, inl, inr, true, false, some, List, [], ◌∷◌, ◌==◌, ◌+s◌, arith,
  pos, split, split_cons, trim_first, has_prefix, lookup, get_elem?, itoa, parse_int-itoa,
  fits_int64, int64_cutoff, Bool-cases, eq_iff,
}
use echo_mcp.Failure.{ok}
use echo_mcp.Json.{Json, object, array, Fields, Items, items, entries}
use echo_mcp.Contract.Pointer.{found_or, element_at, step_into, walk, resolve_json_pointer}
use echo_mcp.Contract.Pointer.Escaped.{one, escape, Lacks, escape-Lacks, unescape_token-escape}

-- A step down: to a field of an object, or to an element of an array.
pub data Step : Type 0 where
  field_named : String → Step
  element_number : ℕ → Step

abbrev token : Step → String
token (field_named name) = name
token (element_number i) = itoa (pos i)

-- The pointer of RFC 6901 for a path of steps.
unfoldable pub pointer : List Step → String
pointer [] = ""
pointer (s ∷ ss) = "/" +s escape (token s) +s pointer ss

-- The steps lead from one value to another.
pub data Leads : Json → List Step → Json → Type 0 where
  arrived : {v : Json} → Leads v [] v
  to_field :
      {fs : Fields} {name : String} {v w : Json} {ss : List Step}
      → lookup name (entries fs) ≡ some v
      → Leads v ss w
      → Leads (object fs) (field_named name ∷ ss) w
  to_element :
      {vs : Items} {i : ℕ} {v w : Json} {ss : List Step}
      → i < int64_cutoff
      → get_elem? (items vs) i ≡ some v
      → Leads v ss w
      → Leads (array vs) (element_number i ∷ ss) w

raws : List Step → List String
raws [] = []
raws (s ∷ ss) = escape (token s) ∷ raws ss

split-append :
    (t rest part : String) (parts : List String)
    → Lacks t
    → split b'/' rest ≡ part ∷ parts
    → split b'/' (t +s rest) ≡ (t +s part) ∷ parts
unfolding split split_cons
split-append String.[] rest part parts l h = rw (nil-append rest, nil-append part) h
split-append (String.◌∷◌ c t) rest part parts l h =
    rw (cons-append c t rest, cons-append c t part, split-append t rest part parts l.1 h, l.0) refl

-- The pointer behind a first token, taken apart.
split-pointer : (t : String) (ss : List Step) → Lacks t → split b'/' (t +s pointer ss) ≡ t ∷ raws ss
unfolding pointer raws split split_cons
split-pointer t [] l = split-append t "" "" [] l refl ∙ ap (λ x. x ∷ []) (append-nil t)
split-pointer t (s ∷ ss) l =
    split-append t ("/" +s escape (token s) +s pointer ss) "" (escape (token s) ∷ raws ss) l (
      rw
        (
          one "/" (escape (token s) +s pointer ss),
          split-pointer (escape (token s)) ss (escape-Lacks (token s)),
        )
        refl)
    ∙ ap (λ x. x ∷ escape (token s) ∷ raws ss) (append-nil t)

fits : (i : ℕ) → i < int64_cutoff → fits_int64 (pos i) ≡ true
fits i h = ground (arith, h)

step_into-element :
    (vs : Items) (i : ℕ) (v : Json)
    → i < int64_cutoff
    → get_elem? (items vs) i ≡ some v
    → step_into (array vs) (itoa (pos i)) ≡ ok v
unfolding step_into element_at found_or
step_into-element vs i v b h = rw (parse_int-itoa (pos i), fits i b, h) refl

step_into-field :
    (fs : Fields) (name : String) (v : Json)
    → lookup name (entries fs) ≡ some v
    → step_into (object fs) name ≡ ok v
unfolding step_into found_or
step_into-field fs name v h = rw (h) refl

walk-raws : (v w : Json) (ss : List Step) → Leads v ss w → walk v (raws ss) ≡ ok w
unfolding walk raws
walk-raws v _ _ arrived = refl
walk-raws _ w _ (to_field {fs} {name} {v} {ss} h l) =
    rw (unescape_token-escape name, step_into-field fs name v h) (walk-raws v w ss l)
walk-raws _ w _ (to_element {vs} {i} {v} {ss} b h l) =
    rw (unescape_token-escape (itoa (pos i)), step_into-element vs i v b h) (walk-raws v w ss l)

not_empty : (c : Char) (x : String) → (String.◌∷◌ c x == "") ≡ false
not_empty c x = elim (Bool-cases (String.◌∷◌ c x == "")) [
  | inl e ↦ absurd (cons≢nil ((eq_iff (String.◌∷◌ c x) "").0 e))
  | inr e ↦ e
]

resolve-slash :
    (document : Json) (x : String)
    → resolve_json_pointer document (String.◌∷◌ "/" x) ≡ walk document (split b'/' x)
unfolding resolve_json_pointer has_prefix trim_first
resolve-slash document x = rw (not_empty "/" x) refl

-- The pointer that is printed for a path of field names and element numbers, with "~" and "/" in the
-- names escaped as in RFC 6901, resolves to the value that the path leads to.
pub resolve_json_pointer-pointer :
    (document w : Json) (ss : List Step)
    → Leads document ss w
    → resolve_json_pointer document (pointer ss) ≡ ok w
unfolding pointer resolve_json_pointer raws
resolve_json_pointer-pointer document w [] l = walk-raws document w [] l
resolve_json_pointer-pointer document w (s ∷ ss) l =
    ap (resolve_json_pointer document) (one "/" (escape (token s) +s pointer ss))
    ∙ resolve-slash document (escape (token s) +s pointer ss)
    ∙ ap (walk document) (split-pointer (escape (token s)) ss (escape-Lacks (token s)))
    ∙ walk-raws document w (s ∷ ss) l
