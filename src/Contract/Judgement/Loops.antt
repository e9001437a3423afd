-- ===== src/Contract/Judgement/Loops.antt =====
-- internal/contract/openapi.go: what the loops of validateSchema over properties and items decide.
use mathlib.Core.Path.{subst}
use echo_mcp.Prelude.{
  ℕ, zero, suc, ◌+◌, String, ◌≡◌, refl, inl, inr, some, List, [], ◌∷◌, ◌+s◌, In, All, lookup, keys,
  get_elem?, decimal, Option-cases,
}
use echo_mcp.Failure.{◌>>◌}
use echo_mcp.Json.{Json}
use echo_mcp.Contract.Schema.{Schema, properties, items}
use echo_mcp.Contract.Document.{Codec}
use echo_mcp.Contract.Validate.{Check, property_schema, validate_properties, validate_items}
use echo_mcp.Contract.Decides.{Decides, Decides-map, Decides->>}
use echo_mcp.Contract.Conforms.{Conforms, HasType}

pub same : (v w : Json) → some v ≡ some w → v ≡ w
same v w e = cc

-- The loops over properties and items decide what the calls in them decide.
module _ (check : Check) (C : Schema → Json → Type 0) (path : String)
    (resolving : List String) where
  -- The check decides C on the values of one schema.
  abbrev pub Judges : Schema → Type 0
  Judges t = (w : Json) (p : String) → Decides (C t w) (check t w p resolving)

  -- A property, if the object has it.
  abbrev pub PropertyHolds : Schema → List (String × Json) → String → Type 0
  PropertyHolds s members name =
      (w : Json) → lookup name members ≡ some w → C (property_schema s name) w

  pub validate_properties-Decides :
      (s : Schema) (members : List (String × Json)) (names : List String)
      → All (λ name. Judges (property_schema s name)) names
      → Decides
          (All (PropertyHolds s members) names)
          (validate_properties check s names members path resolving)
  unfolding validate_properties
  validate_properties-Decides s members [] j = tt
  validate_properties-Decides s members (name ∷ names) j =
      elim (Option-cases (lookup name members)) [
        | inl missing ↦
            rw (missing, validate_properties)
              (Decides-map (All (PropertyHolds s members) names) _ _ (λ h. ((λ w e. cc e), h))
                (λ h. h.1) (validate_properties-Decides s members names j.1))
        | inr (v, found) ↦
            rw (found, validate_properties)
              (let p = property_schema s name in
                let Rest = All (PropertyHolds s members) names in
                let here = check p v (path +s "." +s name) resolving in
                let rest = validate_properties check s names members path resolving in
                Decides-map (C p v × Rest) (((w : Json) → some v ≡ some w → C p w) × Rest)
                  (here >> rest) (λ h. ((λ w e. subst (C p) (same v w e) h.0), h.1))
                  (λ h. (h.0 v refl, h.1))
                  (Decides->> (C p v) Rest here rest (j.0 v (path +s "." +s name))
                    (λ _. validate_properties-Decides s members names j.1)))
      ]

  pub validate_items-Decides :
      (t : Schema) (index : ℕ) (vs : List Json)
      → Judges t
      → Decides
          ((i : ℕ) (w : Json) → get_elem? vs i ≡ some w → C t w)
          (validate_items check t index vs path resolving)
  unfolding validate_items
  validate_items-Decides t index [] j = λ i w e. cc e
  validate_items-Decides t index (v ∷ vs) j =
      Decides-map (C t v × ((i : ℕ) (w : Json) → get_elem? vs i ≡ some w → C t w)) _ _
        (λ h. split h.0 h.1) (λ h. (h 0 v refl, λ i w e. h (suc i) w e))
        (Decides->> (C t v) ((i : ℕ) (w : Json) → get_elem? vs i ≡ some w → C t w)
          (check t v (path +s "[" +s decimal index +s "]") resolving)
          (validate_items check t (index + 1) vs path resolving)
          (j v (path +s "[" +s decimal index +s "]"))
          (λ _. validate_items-Decides t (index + 1) vs j))
    where
      split :
          C t v
          → ((i : ℕ) (w : Json) → get_elem? vs i ≡ some w → C t w)
          → (i : ℕ) (w : Json) → get_elem? (v ∷ vs) i ≡ some w
          → C t w
      split h f zero w e = subst (C t) (same v w e) h
      split h f (suc i) w e = f i w e

module _ (codec : Codec) (raw_document : Json) (check : Check) (path : String)
    (resolving : List String) where
  abbrev pub Fits : Schema → Json → Type 0
  Fits = Conforms codec raw_document resolving

  abbrev pub Typed : String → Schema → Json → Type 0
  Typed = HasType codec raw_document resolving

  -- The check decides conformance to the declared properties of a schema and to its items.
  pub record JudgesParts (s : Schema) : Type 0 where
    pub on_property :
        (name : String)
        → In name (keys (properties s))
        → Judges check Fits path resolving (property_schema s name)
    pub on_item : (t : Schema) → items s ≡ some t → Judges check Fits path resolving t
