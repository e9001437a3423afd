-- ===== src/Prelude/Maps.antt =====
-- Go's maps with string keys, as lists of entries in the order of one iteration. A map holds a key
-- once; where a theorem needs that, it says so.
use Prim.Native.String.{String}
use mathlib.Core.Option.{Option, none, some}
use mathlib.Core.Bool.{Bool}
use mathlib.Core.Path.{◌≡◌, sym}
use mathlib.Core.Logic.{inl, inr, ◌≢◌}
use mathlib.Core.List.{List, [], ◌∷◌, Permᴰ}
use text.Mathlib.TextEquality.{eq_iff}
use echo_mcp.Prelude.Lists.{All, In}
use text.Mathlib.Text.{◌==◌}
use echo_mcp.Prelude.Tests.{if◌then◌else◌, is_some, Bool-cases}

module _ {ℓ} {V : Type ℓ} where
  -- v, ok := m[key]
  unfoldable pub lookup : String → List (String × V) → Option V
  lookup key [] = none
  lookup key ((k, v) ∷ entries) = if k == key then some v else lookup key entries

  -- _, ok := m[key]
  unfoldable pub has_key : String → List (String × V) → Bool
  unfolding lookup
  has_key key entries = is_some (lookup key entries)

  abbrev pub keys : List (String × V) → List String
  keys [] = []
  keys ((k, v) ∷ entries) = k ∷ keys entries

-- Two listings of one map: the same keys in some order, and the same value at each key.
pub record SameMap {ℓ} {V : Type ℓ} (xs ys : List (String × V)) : Type ℓ where
  pub same_keys : Permᴰ (keys xs) (keys ys)
  pub same_values : (k : String) → lookup k xs ≡ lookup k ys

-- No two entries are equal.
abbrev pub Distinct : List String → Type 0
Distinct [] = Unit
Distinct (x ∷ xs) = All (λ y. y ≢ x) xs × Distinct xs

pub In-keys {ℓ} :
    {V : Type ℓ} (k : String) (v : V) (xs : List (String × V))
    → lookup k xs ≡ some v
    → In k (keys xs)
unfolding lookup
In-keys k v [] h = cc
In-keys k v ((j, w) ∷ xs) h = elim (Bool-cases (j == k)) [
  | inl same ↦ inl (sym ((eq_iff j k).0 same))
  | inr other ↦ inr (In-keys k v xs (rw other at h))
]
