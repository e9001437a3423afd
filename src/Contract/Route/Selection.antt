-- ===== src/Contract/Route/Selection.antt =====
-- internal/contract/openapi.go: what findOperation selects.
use echo_mcp.Prelude.{
  String, ◌≡◌, ◌≢◌, refl, sym, ap, ◌⊎◌, inl, inr, false, none, some, List, [], ◌∷◌, arith, eq_iff,
  to_lower, lookup, keys, sort_strings, sort_strings-eq_of_perm, SameMap, In, In-keys, All,
  Distinct, In-sort_strings, Distinct-sort_strings, Option-cases,
}
use echo_mcp.Failure.{Result, ok, is_ok}
use echo_mcp.Contract.Document.{Operation, Paths}
use echo_mcp.Contract.Route.{
  split_path, operation_at, template_operation, matched, collect, exact_or, of_operations,
  no_operation, choose, find_operation,
}
use echo_mcp.Contract.Route.Template.{Fits, path_matches_iff}

operation_at-SameMap :
    (xs ys : Paths) (path method : String)
    → SameMap xs ys
    → operation_at xs path method ≡ operation_at ys path method
unfolding operation_at
operation_at-SameMap xs ys path method h = rw (h.same_values path)

template_operation-SameMap :
    (xs ys : Paths) (method path template : String)
    → SameMap xs ys
    → template_operation xs method path template ≡ template_operation ys method path template
unfolding template_operation
template_operation-SameMap xs ys method path t h = rw (operation_at-SameMap xs ys t method h)

matched-SameMap :
    (xs ys : Paths) (method path : String) (templates : List String)
    → SameMap xs ys
    → matched xs method path templates ≡ matched ys method path templates
unfolding matched
matched-SameMap xs ys method path [] h = refl
matched-SameMap xs ys method path (t ∷ ts) h =
    cc (template_operation-SameMap xs ys method path t h, matched-SameMap xs ys method path ts h)

-- The operation, or the error with its text, does not depend on the order in which Go's map
-- iteration lists the paths.
pub find_operation-SameMap :
    (xs ys : Paths) (method path : String)
    → SameMap xs ys
    → find_operation xs method path ≡ find_operation ys method path
unfolding find_operation
find_operation-SameMap xs ys method path h = cc (
  operation_at-SameMap xs ys path (to_lower method) h,
  sort_strings-eq_of_perm h.same_keys,
  matched-SameMap xs ys (to_lower method) path (sort_strings (keys ys)) h,
)

operation_at-In :
    (paths : Paths) (path method : String) (o : Operation)
    → operation_at paths path method ≡ some o
    → In path (keys paths)
unfolding operation_at of_operations
operation_at-In paths path method o h = elim (Option-cases (lookup path paths)) [
  | inl missing ↦ absurd (ground (arith, missing))
  | inr (operations, found) ↦ In-keys path operations paths found
]

-- A template that counts: it is not the path itself, it fits it, and it has the method.
pub record IsCandidate (paths : Paths) (method path template : String) (operation : Operation)
    : Type 0 where
  pub differs : template ≢ path
  pub fits : Fits (split_path template) (split_path path)
  pub defined : operation_at paths template method ≡ some operation

module _ (paths : Paths) (method path : String) where
  template_operation-IsCandidate :
      (t : String) (o : Operation)
      → template_operation paths method path t ≡ some o
      → IsCandidate paths method path t o
  unfolding template_operation
  template_operation-IsCandidate t o h = record {
    differs = ground (arith, eq_iff t path);
    fits = (path_matches_iff t path).0 (ground arith);
    defined = ground arith;
  }

  IsCandidate-template_operation :
      (t : String) (o : Operation)
      → IsCandidate paths method path t o
      → template_operation paths method path t ≡ some o
  unfolding template_operation
  IsCandidate-template_operation t o c =
      ground (arith, eq_iff t path, (path_matches_iff t path).1 c.fits, c.defined, c.differs)

  -- The loop collects exactly the candidates of its templates.
  IsCandidate-matched :
      (t : String) (o : Operation) (ts : List String)
      → In t ts
      → IsCandidate paths method path t o
      → In (t, o) (matched paths method path ts)
  unfolding matched collect
  IsCandidate-matched t o (u ∷ ts) (inl e) c =
      let h = IsCandidate-template_operation t o c in
      rw (← e, h, collect) (inl (ap (λ x. (x, o)) e))
  IsCandidate-matched t o (u ∷ ts) (inr i) c =
      let ih = IsCandidate-matched t o ts i c in
      elim (Option-cases (template_operation paths method path u)) [
        | inl e ↦ rw (e, collect) ih
        | inr (p, e) ↦ rw (e, collect) (inr ih)
      ]
  IsCandidate-matched t o [] i c = absurd i

  matched-IsCandidate :
      (ts : List String)
      → All (λ e. IsCandidate paths method path e.0 e.1) (matched paths method path ts)
  unfolding matched collect
  matched-IsCandidate [] = tt
  matched-IsCandidate (u ∷ ts) = elim (Option-cases (template_operation paths method path u)) [
    | inl e ↦ rw (e, collect) (matched-IsCandidate ts)
    | inr (p, e) ↦ rw (e, collect) (template_operation-IsCandidate u p e, matched-IsCandidate ts)
  ]

  All-matched :
      (t : String) (ts : List String)
      → All (λ y. y ≢ t) ts
      → All (λ y. y ≢ t) (keys (matched paths method path ts))
  unfolding matched collect
  All-matched t [] h = tt
  All-matched t (u ∷ ts) (n, h) = elim (Option-cases (template_operation paths method path u)) [
    | inl none_here ↦ rw (none_here, collect) (All-matched t ts h)
    | inr (p, here) ↦ rw (here, collect) (n, All-matched t ts h)
  ]

  matched-Distinct :
      (ts : List String) → Distinct ts → Distinct (keys (matched paths method path ts))
  unfolding matched collect
  matched-Distinct [] d = tt
  matched-Distinct (u ∷ ts) (h, d) = elim (Option-cases (template_operation paths method path u)) [
    | inl none_here ↦ rw (none_here, collect) (matched-Distinct ts d)
    | inr (p, here) ↦ rw (here, collect) (All-matched u ts h, matched-Distinct ts d)
  ]

-- The four ways in which findOperation ends.
module _ (paths : Paths) (method path : String) where
  -- A candidate for the method in lower case.
  abbrev pub Candidate : String → Operation → Type 0
  Candidate = IsCandidate paths (to_lower method) path

  abbrev pub Exact : Result Operation → Type 0
  Exact r = (o : Operation) × (operation_at paths path (to_lower method) ≡ some o) × (r ≡ ok o)

  abbrev pub NoExact : Type 0
  NoExact = operation_at paths path (to_lower method) ≡ none

  abbrev pub Missing : Result Operation → Type 0
  Missing r = ((t : String) (o : Operation) → ¬ Candidate t o) × (r ≡ ok no_operation)

  abbrev pub OnlyOne : Result Operation → Type 0
  OnlyOne r =
      (t : String) × (o : Operation) × Candidate t o
      × ((u : String) (p : Operation) → Candidate u p → u ≡ t)
      × (r ≡ ok o)

  abbrev pub Ambiguous : Result Operation → Type 0
  Ambiguous r =
      (t u : String) × (o p : Operation) × Candidate t o
      × Candidate u p
      × (t ≢ u)
      × (is_ok r ≡ false)

  abbrev pub Selected : Result Operation → Type 0
  Selected r = Exact r ⊎ (NoExact × (Missing r ⊎ OnlyOne r ⊎ Ambiguous r))

  -- A candidate is in the collected list.
  Candidate-listed :
      (t : String) (o : Operation)
      → Candidate t o
      → In (t, o) (matched paths (to_lower method) path (sort_strings (keys paths)))
  Candidate-listed t o c =
      IsCandidate-matched paths (to_lower method) path t o (sort_strings (keys paths))
        (In-sort_strings t (keys paths) (operation_at-In paths t (to_lower method) o c.defined)) c

  choose-Selected :
      (l : List (String × Operation))
      → ((t : String) (o : Operation) → Candidate t o → In (t, o) l)
      → All (λ e. Candidate e.0 e.1) l
      → Distinct (keys l)
      → Missing (choose method path l)
        ⊎ OnlyOne (choose method path l)
        ⊎ Ambiguous (choose method path l)
  unfolding choose
  choose-Selected [] listed h d = inl (listed, refl)
  choose-Selected ((t, o) ∷ []) listed (c, h) d = inr (inl (t, o, c, only, refl))
    where
      only : (u : String) (p : Operation) → Candidate u p → u ≡ t
      only u p k = elim (listed u p k) [ inl e ↦ ap (λ x. x.0) e | inr i ↦ absurd i ]
  choose-Selected ((t, o) ∷ (u, p) ∷ more) listed (c, (k, h)) ((n, m), d) =
      inr (inr (t, u, o, p, c, k, (λ e. n (sym e)), refl))

-- For a map of paths, which has each key once: the operation of the path itself is selected if it
-- has the method; else, of the other templates that fit the path and have the method, there is none
-- and the answer is the empty operation, or one, whose operation is selected, or two different
-- ones, and the answer is an error.
pub find_operation-Selected :
    (paths : Paths) (method path : String)
    → Distinct (keys paths)
    → Selected paths method path (find_operation paths method path)
unfolding find_operation exact_or
find_operation-Selected paths method path d =
    elim (Option-cases (operation_at paths path (to_lower method))) [
      | inr (o, found) ↦ inl (o, found, rw (found, exact_or) refl)
      | inl missing ↦ inr (
        missing,
        rw (missing, exact_or)
            (choose-Selected paths method path _ (Candidate-listed paths method path)
              (matched-IsCandidate paths (to_lower method) path (sort_strings (keys paths)))
              (matched-Distinct paths (to_lower method) path (sort_strings (keys paths))
                (Distinct-sort_strings (keys paths) d))),
      )
    ]
