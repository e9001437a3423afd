-- ===== src/Contract/Load/Counts.antt =====
-- internal/contract/openapi.go: the features of a document that scanUnsupportedFeatures counts.
use echo_mcp.Prelude.{
  ℕ, ◌+◌, String, ◌≡◌, refl, ap, ◌∙◌, Bool, true, false, List, [], ◌∷◌, ◌++◌, ◌==◌, arith, eq_iff,
  is_some, lookup, if◌then◌else◌,
}
use echo_mcp.Json.{
  Json, null, boolean, number, text, array, object, Items, nil, cons, Fields, end, field, entries,
}
use echo_mcp.Contract.Load.{
  Counts, increment_if, count_of, increment, non_local, not_boolean, scan_object,
  scan_unsupported_feature_value, scan_items, scan_fields,
}

-- The objects of a value, each with its members.
unfoldable mutual
  pub objects : Json → List (List (String × Json))
  objects (object fs) = entries fs ∷ objects_fields fs
  objects (array vs) = objects_items vs
  objects null = []
  objects (boolean b) = []
  objects (number n) = []
  objects (text t) = []

  pub objects_items : Items → List (List (String × Json))
  objects_items nil = []
  objects_items (cons v vs) = objects v ++ objects_items vs

  pub objects_fields : Fields → List (List (String × Json))
  objects_fields end = []
  objects_fields (field k v fs) = objects v ++ objects_fields fs

-- The features, by the keys of the counts, and when an object has one.
pub data Feature : Type 0 where
  non_local_refs : Feature
  all_of : Feature
  one_of : Feature
  any_of : Feature
  additional_properties_schema : Feature

abbrev pub feature_name : Feature → String
feature_name non_local_refs = "non_local_refs"
feature_name all_of = "allOf"
feature_name one_of = "oneOf"
feature_name any_of = "anyOf"
feature_name additional_properties_schema = "additional_properties_schema"

abbrev pub has_feature : Feature → List (String × Json) → Bool
has_feature non_local_refs members = non_local (lookup "$ref" members)
has_feature all_of members = is_some (lookup "allOf" members)
has_feature one_of members = is_some (lookup "oneOf" members)
has_feature any_of members = is_some (lookup "anyOf" members)
has_feature additional_properties_schema members =
    not_boolean (lookup "additionalProperties" members)

-- How many of the objects have a feature.
unfoldable pub having : Feature → List (List (String × Json)) → ℕ
having feature [] = 0
having feature (members ∷ rest) =
    (if has_feature feature members then 1 else 0) + having feature rest

having-append :
    (f : Feature) (xs ys : List (List (String × Json)))
    → having f (xs ++ ys) ≡ having f xs + having f ys
unfolding having
having-append f [] ys = omega arith
having-append f (x ∷ xs) ys = omega (arith, having-append f xs ys)

count_of-increment :
    (f g : String) (counts : Counts)
    → count_of f (increment g counts) ≡ (if g == f then 1 else 0) + count_of f counts
unfolding count_of increment lookup
count_of-increment f g [] = ground arith
count_of-increment f g ((k, n) ∷ counts) =
    ground (arith, count_of-increment f g counts, eq_iff k g, eq_iff k f, eq_iff g f)

miss :
    (b : Bool) (f g : String) (counts : Counts)
    → (g == f) ≡ false
    → count_of f (increment_if b g counts) ≡ count_of f counts
unfolding increment_if
miss true f g counts e = let i = count_of-increment f g counts in ground (arith, e, i)
miss false f g counts e = refl

hit :
    (b : Bool) (f : String) (counts : Counts)
    → count_of f (increment_if b f counts) ≡ (if b then 1 else 0) + count_of f counts
unfolding increment_if
hit true f counts = let i = count_of-increment f f counts in ground (arith, eq_iff f f, i)
hit false f counts = omega arith

count_of-scan_object :
    (f : Feature) (members : List (String × Json)) (counts : Counts)
    → count_of (feature_name f) (scan_object members counts)
      ≡ (if has_feature f members then 1 else 0) + count_of (feature_name f) counts
unfolding scan_object
count_of-scan_object non_local_refs members counts =
    miss _ _ _ _ refl ∙ miss _ _ _ _ refl ∙ miss _ _ _ _ refl ∙ miss _ _ _ _ refl ∙ hit _ _ _
count_of-scan_object all_of members counts =
    miss _ _ _ _ refl
    ∙ miss _ _ _ _ refl
    ∙ miss _ _ _ _ refl
    ∙ hit _ _ _
    ∙ ap (λ n. (if is_some (lookup "allOf" members) then 1 else 0) + n) (miss _ _ _ _ refl)
count_of-scan_object one_of members counts =
    miss _ _ _ _ refl
    ∙ miss _ _ _ _ refl
    ∙ hit _ _ _
    ∙ ap (λ n. (if is_some (lookup "oneOf" members) then 1 else 0) + n)
        (miss _ _ _ _ refl ∙ miss _ _ _ _ refl)
count_of-scan_object any_of members counts =
    miss _ _ _ _ refl
    ∙ hit _ _ _
    ∙ ap (λ n. (if is_some (lookup "anyOf" members) then 1 else 0) + n)
        (miss _ _ _ _ refl ∙ miss _ _ _ _ refl ∙ miss _ _ _ _ refl)
count_of-scan_object additional_properties_schema members counts =
    hit _ _ _
    ∙ ap (λ n. (if not_boolean (lookup "additionalProperties" members) then 1 else 0) + n)
        (miss _ _ _ _ refl ∙ miss _ _ _ _ refl ∙ miss _ _ _ _ refl ∙ miss _ _ _ _ refl)

mutual
  unfolding scan_unsupported_feature_value objects having

  count_of-scan :
      (f : Feature) (v : Json) (counts : Counts)
      → count_of (feature_name f) (scan_unsupported_feature_value v counts)
        ≡ having f (objects v) + count_of (feature_name f) counts
  count_of-scan f (object fs) counts = omega (
    arith,
    count_of-scan_fields f fs (scan_object (entries fs) counts),
    count_of-scan_object f (entries fs) counts,
  )
  count_of-scan f (array vs) counts = count_of-scan_items f vs counts
  count_of-scan f null counts = omega arith
  count_of-scan f (boolean b) counts = omega arith
  count_of-scan f (number n) counts = omega arith
  count_of-scan f (text t) counts = omega arith

  count_of-scan_items :
      (f : Feature) (vs : Items) (counts : Counts)
      → count_of (feature_name f) (scan_items vs counts)
        ≡ having f (objects_items vs) + count_of (feature_name f) counts
  count_of-scan_items f nil counts = omega arith
  count_of-scan_items f (cons v vs) counts = omega (
    arith,
    count_of-scan_items f vs (scan_unsupported_feature_value v counts),
    count_of-scan f v counts,
    having-append f (objects v) (objects_items vs),
  )

  count_of-scan_fields :
      (f : Feature) (fs : Fields) (counts : Counts)
      → count_of (feature_name f) (scan_fields fs counts)
        ≡ having f (objects_fields fs) + count_of (feature_name f) counts
  count_of-scan_fields f end counts = omega arith
  count_of-scan_fields f (field k v fs) counts = omega (
    arith,
    count_of-scan_fields f fs (scan_unsupported_feature_value v counts),
    count_of-scan f v counts,
    having-append f (objects v) (objects_fields fs),
  )

-- For each of the five features, the count that the scan of a document reports is the number of the
-- objects in it, at every depth, that have the feature.
pub scan_unsupported_feature_value-counts :
    (f : Feature) (root : Json)
    → count_of (feature_name f) (scan_unsupported_feature_value root []) ≡ having f (objects root)
unfolding count_of lookup having
scan_unsupported_feature_value-counts f root = omega (arith, count_of-scan f root [])
