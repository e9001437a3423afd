-- ===== src/Contract/Route/Segments.antt =====
-- internal/contract/openapi.go: the segments of a path.
use Prim.Native.Char.{Char, code}
use text.Mathlib.TextLemmas.{nil-append, cons-append}
use echo_mcp.Prelude.{
  ℕ, zero, suc, String, ◌≡◌, ◌≢◌, refl, sym, ap, ◌∙◌, ◌⊎◌, inl, inr, false, List, [], ◌∷◌, Bool,
  ◌==◌, ◌+s◌, eqb, arith, All, eq_iff, has_prefix, ends_with, trim_left, trim_cons, trim_right,
  trim_slashes, split, split_cons, join, Bool-cases,
}
use echo_mcp.Contract.Pointer.Escaped.{one, Lacks}
use echo_mcp.Contract.Route.{split_path}
use echo_mcp.Contract.Route.Parameter.{char_is}

unfoldable pub slashes : ℕ → String
slashes zero = ""
slashes (suc n) = String.◌∷◌ "/" (slashes n)

abbrev is_slash : ℕ → Bool
is_slash c = eqb c b'/'

-- The segments of a path are what stands between its slashes, those at its ends aside.
pub record IsSegments (path : String) (parts : List String) : Type 0 where
  pub core : String
  pub before : ℕ
  pub behind : ℕ
  pub whole : path ≡ slashes before +s core +s slashes behind
  pub no_slash_first : has_prefix core "/" ≡ false
  pub no_slash_last : ends_with b'/' core ≡ false
  pub joined : join "/" parts ≡ core
  pub separated : All Lacks parts
  pub none_if_empty : ((core ≡ "") × (parts ≡ [])) ⊎ (core ≢ "")

trim_left-whole : (s : String) → (n : ℕ) × (s ≡ slashes n +s trim_left is_slash s)
unfolding trim_left slashes
trim_left-whole String.[] = (0, sym (nil-append ""))
trim_left-whole (String.◌∷◌ c s) = elim (Bool-cases (is_slash (code c))) [
  | inl e ↦
      let (n, whole) = trim_left-whole s in
      (
        suc n,
        rw (e) (
            ap (λ x. String.◌∷◌ x s) (char_is c "/" e)
            ∙ ap (String.◌∷◌ "/") whole
            ∙ sym (cons-append "/" (slashes n) (trim_left is_slash s))),
      )
  | inr e ↦ (0, rw (e) (sym (nil-append (String.◌∷◌ c s))))
]

first_char :
    (c : Char) (s : String) → is_slash (code c) ≡ false → has_prefix (String.◌∷◌ c s) "/" ≡ false
unfolding has_prefix
first_char c s e = ground (arith, e)

trim_left-first : (s : String) → has_prefix (trim_left is_slash s) "/" ≡ false
unfolding trim_left has_prefix
trim_left-first String.[] = refl
trim_left-first (String.◌∷◌ c s) = elim (Bool-cases (is_slash (code c))) [
  | inl e ↦ rw (e) (trim_left-first s)
  | inr e ↦ rw (e) (first_char c s e)
]

trim_cons-whole :
    (c : Char) (t : String) (n : ℕ)
    → (m : ℕ) × (String.◌∷◌ c (t +s slashes n) ≡ trim_cons is_slash c t +s slashes m)
unfolding trim_cons slashes
trim_cons-whole c String.[] n = elim (Bool-cases (is_slash (code c))) [
  | inl e ↦ (
    suc n,
    rw (e) (
        ap (λ x. String.◌∷◌ x ("" +s slashes n)) (char_is c "/" e)
        ∙ ap (String.◌∷◌ "/") (nil-append (slashes n))
        ∙ sym (nil-append (slashes (suc n)))),
  )
  | inr e ↦ (n, rw (e) (sym (cons-append c "" (slashes n))))
]
trim_cons-whole c (String.◌∷◌ d t) n = (n, sym (cons-append c (String.◌∷◌ d t) (slashes n)))

trim_right-whole : (s : String) → (n : ℕ) × (s ≡ trim_right is_slash s +s slashes n)
unfolding trim_right slashes
trim_right-whole String.[] = (0, sym (nil-append ""))
trim_right-whole (String.◌∷◌ c s) =
    let (n, whole) = trim_right-whole s in
    let (m, more) = trim_cons-whole c (trim_right is_slash s) n in
    (m, ap (String.◌∷◌ c) whole ∙ more)

trim_right-last : (s : String) → ends_with b'/' (trim_right is_slash s) ≡ false
unfolding trim_right trim_cons ends_with
trim_right-last String.[] = refl
trim_right-last (String.◌∷◌ c s) = last (trim_right is_slash s) (trim_right-last s)
  where
    last : (t : String) → ends_with b'/' t ≡ false → ends_with b'/' (trim_cons is_slash c t) ≡ false
    last String.[] h = elim (Bool-cases (is_slash (code c))) [
      | inl e ↦ rw (e) refl
      | inr e ↦ rw (e) e
    ]
    last (String.◌∷◌ d t) h = h

trim_right-first :
    (s : String) → has_prefix s "/" ≡ false → has_prefix (trim_right is_slash s) "/" ≡ false
unfolding trim_right trim_cons has_prefix
trim_right-first String.[] h = refl
trim_right-first (String.◌∷◌ c s) h = first (trim_right is_slash s)
  where
    first : (t : String) → has_prefix (trim_cons is_slash c t) "/" ≡ false
    first String.[] = elim (Bool-cases (is_slash (code c))) [
      | inl e ↦ rw (e) refl
      | inr e ↦ rw (e) h
    ]
    first (String.◌∷◌ d t) = h

join-cons :
    (c : Char) (parts : List String)
    → join "/" (split_cons b'/' c parts) ≡ String.◌∷◌ c (join "/" parts)
unfolding split_cons join
join-cons c [] = elim (Bool-cases (is_slash (code c))) [
  | inl e ↦
      rw (e)
        (nil-append ("/" +s "") ∙ one "/" "" ∙ ap (λ x. String.◌∷◌ x "") (sym (char_is c "/" e)))
  | inr e ↦ rw (e) refl
]
join-cons c (part ∷ parts) = elim (Bool-cases (is_slash (code c))) [
  | inl e ↦ rw (e) (
      nil-append ("/" +s join "/" (part ∷ parts))
      ∙ one "/" (join "/" (part ∷ parts))
      ∙ ap (λ x. String.◌∷◌ x (join "/" (part ∷ parts))) (sym (char_is c "/" e)))
  | inr e ↦ rw (e) (joined part parts)
]
  where
    joined :
        (part : String) (parts : List String)
        → join "/" (String.◌∷◌ c part ∷ parts) ≡ String.◌∷◌ c (join "/" (part ∷ parts))
    joined part [] = refl
    joined part (q ∷ qs) = cons-append c part ("/" +s join "/" (q ∷ qs))

join-split : (s : String) → join "/" (split b'/' s) ≡ s
unfolding split join
join-split String.[] = refl
join-split (String.◌∷◌ c s) = join-cons c (split b'/' s) ∙ ap (String.◌∷◌ c) (join-split s)

Lacks-split_cons :
    (c : Char) (parts : List String) → All Lacks parts → All Lacks (split_cons b'/' c parts)
unfolding split_cons
Lacks-split_cons c [] h = elim (Bool-cases (is_slash (code c))) [
  | inl e ↦ rw (e) (tt, (tt, tt))
  | inr e ↦ rw (e) ((e, tt), tt)
]
Lacks-split_cons c (part ∷ parts) h = elim (Bool-cases (is_slash (code c))) [
  | inl e ↦ rw (e) (tt, h)
  | inr e ↦ rw (e) ((e, h.0), h.1)
]

Lacks-split : (s : String) → All Lacks (split b'/' s)
unfolding split
Lacks-split String.[] = (tt, tt)
Lacks-split (String.◌∷◌ c s) = Lacks-split_cons c (split b'/' s) (Lacks-split s)

pub split_path-IsSegments : (path : String) → IsSegments path (split_path path)
unfolding split_path trim_slashes join
split_path-IsSegments path =
    let (n, before) = trim_left-whole path in
    let (m, behind) = trim_right-whole (trim_left is_slash path) in
    let core = trim_slashes path in
    elim (Bool-cases (core == "")) [
      | inl e ↦ rw (e) (record {
        core = core;
        before = n;
        behind = m;
        whole = before ∙ ap (λ x. slashes n +s x) behind;
        no_slash_first = trim_right-first (trim_left is_slash path) (trim_left-first path);
        no_slash_last = trim_right-last (trim_left is_slash path);
        joined = sym ((eq_iff core "").0 e);
        separated = tt;
        none_if_empty = inl ((eq_iff core "").0 e, refl);
      })
      | inr e ↦ rw (e) (record {
        core = core;
        before = n;
        behind = m;
        whole = before ∙ ap (λ x. slashes n +s x) behind;
        no_slash_first = trim_right-first (trim_left is_slash path) (trim_left-first path);
        no_slash_last = trim_right-last (trim_left is_slash path);
        joined = join-split core;
        separated = Lacks-split core;
        none_if_empty = inr (λ k. cc (e, (eq_iff core "").1 k));
      })
    ]
