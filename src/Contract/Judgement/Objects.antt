-- ===== src/Contract/Judgement/Objects.antt =====
-- internal/contract/openapi.go: what validateSchema decides of objects and arrays.
use mathlib.Core.Path.{subst}
use echo_mcp.Prelude.{
  ℕ, String, ◌≡◌, refl, inl, inr, true, some, List, All, All-at, All-of_In, All-sort_strings,
  In-sort_strings, keys, sort_strings, get_elem?, has_key, Option-cases,
}
use echo_mcp.Failure.{◌>>◌}
use echo_mcp.Json.{Json, Fields, null, array, object, items as json_items, entries}
use echo_mcp.Contract.Schema.{Schema, head, properties, items}
use echo_mcp.Contract.Document.{Codec}
use echo_mcp.Contract.Additional.{validate_additional_properties}
use echo_mcp.Contract.Validate.{
  Check, validate_required, property_schema, validate_properties, validate_object, validate_each,
  validate_array,
}
use echo_mcp.Contract.Decides.{Decides, Decides-map, Decides->>}
use echo_mcp.Contract.Conforms.{Conforms, HasType, AllowsMembers}
use echo_mcp.Contract.Verdicts.{validate_required-Decides, validate_additional_properties-Decides}
use echo_mcp.Contract.Typed.{IsObject, IsArray}
use echo_mcp.Contract.Judgement.Loops.{
  Judges, PropertyHolds, validate_properties-Decides, validate_items-Decides, JudgesParts,
}

module _ (codec : Codec) (raw_document : Json) (check : Check) (path : String)
    (resolving : List String) where
  abbrev Fits : Schema → Json → Type 0
  Fits = Conforms codec raw_document resolving

  abbrev Typed : String → Schema → Json → Type 0
  Typed = HasType codec raw_document resolving

  abbrev Object : Schema → Json → Type 0
  Object = IsObject codec raw_document resolving

  -- The declared properties that the object has conform, in the order of the loop.
  abbrev PropertiesHold : Schema → List (String × Json) → Type 0
  PropertiesHold s members =
      All (PropertyHolds check Fits path resolving s members) (sort_strings (keys (properties s)))

  sorted_properties :
      (s : Schema) (members : List (String × Json))
      → JudgesParts codec raw_document check path resolving s
      → Decides
          (PropertiesHold s members)
          (validate_properties check s (sort_strings (keys (properties s))) members path resolving)
  sorted_properties s members j =
      validate_properties-Decides check Fits path resolving s members
        (sort_strings (keys (properties s)))
        (All-sort_strings (λ name. Judges check Fits path resolving (property_schema s name))
          (keys (properties s))
          (All-of_In (λ name. Judges check Fits path resolving (property_schema s name))
            (keys (properties s)) j.on_property))

  validate_members-Decides :
      (s : Schema) (members : List (String × Json))
      → JudgesParts codec raw_document check path resolving s
      → Decides
          (All (λ name. has_key name members ≡ true) (head s).required
            × (PropertiesHold s members × AllowsMembers s members))
          (do
            validate_required (head s).required members path
            validate_properties check s (sort_strings (keys (properties s))) members path resolving
            validate_additional_properties s members path)
  validate_members-Decides s members j =
      Decides->> _ _ (validate_required (head s).required members path) _
        (validate_required-Decides (head s).required members path)
        (λ _.
          Decides->> (PropertiesHold s members) (AllowsMembers s members)
            (validate_properties check s (sort_strings (keys (properties s))) members path
              resolving)
            (validate_additional_properties s members path) (sorted_properties s members j)
            (λ _. validate_additional_properties-Decides s members path))

  -- An object's members fit exactly if the loop's three parts hold.
  Object-members :
      (s : Schema) (fs : Fields)
      → Object s (object fs)
      → All (λ name. has_key name (entries fs) ≡ true) (head s).required
        × (PropertiesHold s (entries fs) × AllowsMembers s (entries fs))
  Object-members s fs (members, e, required, declared, allowed) =
      let m : members ≡ fs = cc in
      (
        subst (λ x. All (λ name. has_key name (entries x) ≡ true) (head s).required) m required,
        (
          All-sort_strings (PropertyHolds check Fits path resolving s (entries fs))
              (keys (properties s))
              (All-of_In (PropertyHolds check Fits path resolving s (entries fs))
                (keys (properties s)) (λ name i w q. declared name w i (rw m q))),
          subst (λ x. AllowsMembers s (entries x)) m allowed,
        ),
      )

  pub validate_object-Decides :
      (s : Schema) (v : Json)
      → JudgesParts codec raw_document check path resolving s
      → Decides (Object s v) (validate_object check s v path resolving)
  unfolding validate_object
  validate_object-Decides s (object fs) j =
      Decides-map
        (All (λ name. has_key name (entries fs) ≡ true) (head s).required
          × (PropertiesHold s (entries fs) × AllowsMembers s (entries fs)))
        (Object s (object fs)) _
        (λ h. (
          fs,
          refl,
          h.0,
          (λ name w i e.
              All-at (PropertyHolds check Fits path resolving s (entries fs)) name _ h.1.0
                (In-sort_strings name (keys (properties s)) i) w e),
          h.1.1,
        ))
        (Object-members s fs) (validate_members-Decides s (entries fs) j)
  validate_object-Decides s null j = λ h. cc (h.1)
  validate_object-Decides s _ j = λ h. cc (h.1)

  pub validate_array-Decides :
      (s : Schema) (v : Json)
      → JudgesParts codec raw_document check path resolving s
      → Decides (IsArray codec raw_document resolving s v) (validate_array check s v path resolving)
  unfolding validate_array validate_each
  validate_array-Decides s (array vs) j = elim (Option-cases (items s)) [
    | inl none_here ↦ rw (none_here, validate_each) (vs, refl, λ t i w e q. cc e)
    | inr (t, given) ↦
        rw (given, validate_each)
          (Decides-map ((i : ℕ) (w : Json) → get_elem? (json_items vs) i ≡ some w → Fits t w) _ _
            (λ h. (vs, refl, λ u i w e q. let m : t ≡ u = cc in subst (λ x. Fits x w) m (h i w q)))
            (λ h i w q. let m : h.0 ≡ vs = cc (h.1) in h.2 t i w refl (rw m q))
            (validate_items-Decides check Fits path resolving t 0 (json_items vs)
              (j.on_item t given)))
  ]
  validate_array-Decides s null j = λ h. cc (h.1)
  validate_array-Decides s _ j = λ h. cc (h.1)
