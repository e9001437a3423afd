-- ===== src/Prelude/Sorting.antt =====
-- What sorting strings keeps.
use mathlib.Core.Logic.{inl, inr, ◌≢◌}
use mathlib.Core.Path.{sym}
use mathlib.Core.List.{List, [], ◌∷◌}
use Prim.Native.String.{String}
use echo_mcp.Prelude.Tests.{Bool-cases}
use echo_mcp.Prelude.Lists.{All, In}
use echo_mcp.Prelude.Maps.{Distinct}
use echo_mcp.Prelude.Order.{str_leb, insert_string, sort_strings}

In-insert_string : (x s : String) (l : List String) → In x (s ∷ l) → In x (insert_string s l)
unfolding insert_string
In-insert_string x s [] h = h
In-insert_string x s (t ∷ l) h = elim (Bool-cases (str_leb s t)) [
  | inl le ↦ rw (le, insert_string) h
  | inr gt ↦
      rw (gt, insert_string)
        (elim h [
          | inl e ↦ inr (In-insert_string x s l (inl e))
          | inr (inl e) ↦ inl e
          | inr (inr i) ↦ inr (In-insert_string x s l (inr i))
        ])
]

-- A string of the input is in the sorted list.
pub In-sort_strings : (x : String) (l : List String) → In x l → In x (sort_strings l)
unfolding sort_strings
In-sort_strings x [] h = h
In-sort_strings x (s ∷ l) (inl e) = In-insert_string x s (sort_strings l) (inl e)
In-sort_strings x (s ∷ l) (inr i) =
    In-insert_string x s (sort_strings l) (inr (In-sort_strings x l i))

All-insert_string {ℓ} :
    (P : String → Type ℓ) (s : String) (l : List String) → P s → All P l → All P (insert_string s l)
unfolding insert_string
All-insert_string P s [] p h = (p, tt)
All-insert_string P s (t ∷ l) p (q, h) = elim (Bool-cases (str_leb s t)) [
  | inl le ↦ rw (le, insert_string) (p, (q, h))
  | inr gt ↦ rw (gt, insert_string) (q, All-insert_string P s l p h)
]

-- What holds of every string of the input holds of every string of the sorted list.
pub All-sort_strings {ℓ} :
    (P : String → Type ℓ) (l : List String) → All P l → All P (sort_strings l)
unfolding sort_strings
All-sort_strings P [] h = tt
All-sort_strings P (s ∷ l) (p, h) =
    All-insert_string P s (sort_strings l) p (All-sort_strings P l h)

Distinct-insert_string :
    (s : String) (l : List String) → All (λ y. y ≢ s) l → Distinct l → Distinct (insert_string s l)
unfolding insert_string
Distinct-insert_string s [] h d = (tt, tt)
Distinct-insert_string s (t ∷ l) (n, h) (m, d) = elim (Bool-cases (str_leb s t)) [
  | inl le ↦ rw (le, insert_string) ((n, h), (m, d))
  | inr gt ↦
      rw (gt, insert_string)
        (All-insert_string (λ y. y ≢ t) s l (λ e. n (sym e)) m, Distinct-insert_string s l h d)
]

pub Distinct-sort_strings : (l : List String) → Distinct l → Distinct (sort_strings l)
unfolding sort_strings
Distinct-sort_strings [] d = tt
Distinct-sort_strings (s ∷ l) (h, d) =
    Distinct-insert_string s (sort_strings l) (All-sort_strings (λ y. y ≢ s) l h)
      (Distinct-sort_strings l d)
