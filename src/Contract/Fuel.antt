-- ===== src/Contract/Fuel.antt =====
-- internal/contract/openapi.go: the measure of validateSchema. Each reference is resolved at most once on the
-- way down, since one that is being resolved is refused, and between two references the schema gets
-- smaller; so the calls nest to a depth that the references and the depth of the schemas bound.
use mathlib.Core.Path.{subst}
use echo_mcp.Prelude.{
  ap, ℕ, suc, ◌+◌, ◌≤◌, ◌<◌, String, ◌≡◌, ◌≢◌, refl, inl, inr, false, some, List, [], ◌∷◌, ◌==◌,
  arith, eq_iff, In, lookup, keys, Bool-cases, if◌then◌else◌,
}
use echo_mcp.Contract.Schema.{
  Schema, schema, Properties, no_property, property, MaybeSchema, absent, present, head, properties,
  items, property_list,
}
use echo_mcp.Contract.Validate.{contains, property_schema, property_of}

-- How deep a schema nests, through properties and items.
unfoldable mutual
  pub depth : Schema → ℕ
  depth (schema h ps i o a l n) = suc (depth_properties ps + depth_maybe i)

  pub depth_properties : Properties → ℕ
  depth_properties no_property = 0
  depth_properties (property k s ps) = depth s + depth_properties ps

  pub depth_maybe : MaybeSchema → ℕ
  depth_maybe absent = 0
  depth_maybe (present s) = depth s

-- Every reference at which validation may arrive, in the schema, its properties and its items.
unfoldable mutual
  pub Refs : (String → Type 0) → Schema → Type 0
  Refs P (schema h ps i o a l n) = (h.ref ≢ "" → P h.ref) × (RefsProperties P ps × RefsMaybe P i)

  pub RefsProperties : (String → Type 0) → Properties → Type 0
  RefsProperties P no_property = Unit
  RefsProperties P (property k s ps) = Refs P s × RefsProperties P ps

  pub RefsMaybe : (String → Type 0) → MaybeSchema → Type 0
  RefsMaybe P absent = Unit
  RefsMaybe P (present s) = Refs P s

-- How many references of a list are not being resolved.
unfoldable pub unresolved : List String → List String → ℕ
unresolved [] resolving = 0
unresolved (r ∷ rs) resolving = (if contains r resolving then 0 else 1) + unresolved rs resolving

pub unresolved-le :
    (rs resolving : List String) (r : String)
    → unresolved rs (r ∷ resolving) ≤ unresolved rs resolving
unfolding unresolved contains
unresolved-le [] resolving r = omega arith
unresolved-le (q ∷ rs) resolving r = ground (arith, unresolved-le rs resolving r)

pub unresolved-lt :
    (rs resolving : List String) (r : String)
    → In r rs
    → contains r resolving ≡ false
    → unresolved rs (r ∷ resolving) < unresolved rs resolving
unfolding unresolved contains
unresolved-lt (q ∷ rs) resolving r (inl e) h =
    ground (arith, unresolved-le rs resolving r, eq_iff r q)
unresolved-lt (q ∷ rs) resolving r (inr i) h = ground (arith, unresolved-lt rs resolving r i h)
unresolved-lt [] resolving r i h = absurd i

pub depth-pos : (s : Schema) → 0 < depth s
unfolding depth
depth-pos (schema h ps i o a l n) = omega arith

property_of-depth :
    (name : String) (ps : Properties)
    → In name (keys (property_list ps))
    → depth (property_of (lookup name (property_list ps))) ≤ depth_properties ps
unfolding depth property_of lookup
property_of-depth name (property k s ps) (inl e) = ground (arith, eq_iff k name, depth-pos s)
property_of-depth name (property k s ps) (inr i) = elim (Bool-cases (k == name)) [
  | inl same ↦ rw (same, property_of) (omega arith)
  | inr other ↦ rw (other, property_of) (omega (arith, property_of-depth name ps i))
]
property_of-depth name no_property i = absurd i

-- The schema of a declared property is less deep.
pub depth-property :
    (s : Schema) (name : String)
    → In name (keys (properties s))
    → depth (property_schema s name) < depth s
unfolding depth property_schema
depth-property (schema h ps i o a l n) name m = omega (arith, property_of-depth name ps m)

same : (u t : Schema) → some u ≡ some t → u ≡ t
same u t e = cc

pub depth-item : (s t : Schema) → items s ≡ some t → depth t < depth s
unfolding depth
depth-item (schema h ps absent o a l n) t e = cc
depth-item (schema h ps (present u) o a l n) t e = omega (arith, ap depth (same u t e))

module _ (P : String → Type 0) where
  property_of-Refs :
      (name : String) (ps : Properties)
      → RefsProperties P ps
      → Refs P (property_of (lookup name (property_list ps)))
  unfolding Refs property_of lookup
  property_of-Refs name no_property r = (λ h. absurd (h refl), (tt, tt))
  property_of-Refs name (property k s ps) r = elim (Bool-cases (k == name)) [
    | inl same ↦ rw (same, property_of) r.0
    | inr other ↦ rw (other, property_of) (property_of-Refs name ps r.1)
  ]

  pub Refs-property : (s : Schema) (name : String) → Refs P s → Refs P (property_schema s name)
  unfolding Refs property_schema
  Refs-property (schema h ps i o a l n) name r = property_of-Refs name ps r.1.0

  pub Refs-item : (s t : Schema) → items s ≡ some t → Refs P s → Refs P t
  unfolding Refs
  Refs-item (schema h ps absent o a l n) t e r = cc
  Refs-item (schema h ps (present u) o a l n) t e r = subst (Refs P) (same u t e) r.1.1

  pub Refs-head : (s : Schema) → Refs P s → (head s).ref ≢ "" → P (head s).ref
  unfolding Refs
  Refs-head (schema h ps i o a l n) r = r.0
