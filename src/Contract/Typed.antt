-- ===== src/Contract/Typed.antt =====
-- internal/contract/openapi.go: what a typed value is, one statement for each type name, and
-- `HasType` as a choice between them.
use echo_mcp.Prelude.{
  ℕ, String, ◌≡◌, refl, sym, ◌∙◌, ◌⊎◌, inl, inr, Bool, true, false, List, ◌==◌, eq_iff, some, In,
  All, is_some, get_elem?, [], ◌∷◌, has_key, keys, lookup, parse_int, arith,
}
use echo_mcp.Json.{
  Json, boolean, number, text, array, object, Items, Fields, items as json_items, entries,
}
use echo_mcp.Contract.Schema.{Schema, head, properties, items}
use echo_mcp.Contract.Document.{Codec}
use echo_mcp.Contract.Validate.{property_schema}
use echo_mcp.Contract.Conforms.{
  Conforms, HasType, an_object, an_array, a_string, an_integer, a_number, a_boolean, AllowsMembers,
}

-- A text is one of two different texts only.
clash : (a b : String) {c : String} → (a == b) ≡ false → c ≡ a → c ≡ b → ⊥
clash a b {c} differ e f = ground (arith, differ, eq_iff a b, sym e ∙ f)

module _ (codec : Codec) (raw_document : Json) (resolving : List String) where
  abbrev pub IsObject : Schema → Json → Type 0
  IsObject s v =
      (members : Fields) × (v ≡ object members)
      × All (λ name. has_key name (entries members) ≡ true) (head s).required
      × ((name : String) (w : Json)
          → In name (keys (properties s))
          → lookup name (entries members) ≡ some w
          → Conforms codec raw_document resolving (property_schema s name) w)
      × AllowsMembers s (entries members)

  abbrev pub IsArray : Schema → Json → Type 0
  IsArray s v =
      (vs : Items) × (v ≡ array vs)
      × ((t : Schema) (i : ℕ) (w : Json)
          → items s ≡ some t
          → get_elem? (json_items vs) i ≡ some w
          → Conforms codec raw_document resolving t w)

  abbrev pub IsText : Schema → Json → Type 0
  IsText s v = (t : String) × (v ≡ text t)

  abbrev pub IsInteger : Schema → Json → Type 0
  IsInteger s v = (n : String) × (v ≡ number n) × (is_some (parse_int n) ≡ true)

  abbrev pub IsNumber : Schema → Json → Type 0
  IsNumber s v = (n : String) × (v ≡ number n) × (codec.parse_float n ≡ true)

  abbrev pub IsBoolean : Schema → Json → Type 0
  IsBoolean s v = (b : Bool) × (v ≡ boolean b)

  -- The choice that the type's name makes.
  abbrev Choice : String → Schema → Json → Type 0
  Choice type_name s v =
      ((type_name ≡ "object") × IsObject s v)
      ⊎ ((type_name ≡ "array") × IsArray s v)
      ⊎ ((type_name ≡ "string") × IsText s v)
      ⊎ ((type_name ≡ "integer") × IsInteger s v)
      ⊎ ((type_name ≡ "number") × IsNumber s v)
      ⊎ ((type_name ≡ "boolean") × IsBoolean s v)

  HasType-Choice :
      {type_name : String} {s : Schema} {v : Json}
      → HasType codec raw_document resolving type_name s v
      → Choice type_name s v
  HasType-Choice (an_object {members} c e h p a) = inl (c, (members, e, h, p, a))
  HasType-Choice (an_array {vs} c e h) = inr (inl (c, (vs, e, h)))
  HasType-Choice (a_string {t} c e) = inr (inr (inl (c, (t, e))))
  HasType-Choice (an_integer {n} c e h) = inr (inr (inr (inl (c, (n, e, h)))))
  HasType-Choice (a_number {n} c e h) = inr (inr (inr (inr (inl (c, (n, e, h))))))
  HasType-Choice (a_boolean {b} c e) = inr (inr (inr (inr (inr ((c, (b, e)))))))

  Choice-IsObject :
      {type_name : String} (s : Schema) (v : Json)
      → type_name ≡ "object"
      → Choice type_name s v
      → IsObject s v
  Choice-IsObject s v e (inl (_, h)) = h
  Choice-IsObject s v e (inr (inl (f, _))) = absurd (clash "object" "array" refl e f)
  Choice-IsObject s v e (inr (inr (inl (f, _)))) = absurd (clash "object" "string" refl e f)
  Choice-IsObject s v e (inr (inr (inr (inl (f, _))))) = absurd (clash "object" "integer" refl e f)
  Choice-IsObject s v e (inr (inr (inr (inr (inl (f, _)))))) =
      absurd (clash "object" "number" refl e f)
  Choice-IsObject s v e (inr (inr (inr (inr (inr ((f, _))))))) =
      absurd (clash "object" "boolean" refl e f)

  Choice-IsArray :
      {type_name : String} (s : Schema) (v : Json)
      → type_name ≡ "array"
      → Choice type_name s v
      → IsArray s v
  Choice-IsArray s v e (inl (f, _)) = absurd (clash "array" "object" refl e f)
  Choice-IsArray s v e (inr (inl (_, h))) = h
  Choice-IsArray s v e (inr (inr (inl (f, _)))) = absurd (clash "array" "string" refl e f)
  Choice-IsArray s v e (inr (inr (inr (inl (f, _))))) = absurd (clash "array" "integer" refl e f)
  Choice-IsArray s v e (inr (inr (inr (inr (inl (f, _)))))) =
      absurd (clash "array" "number" refl e f)
  Choice-IsArray s v e (inr (inr (inr (inr (inr ((f, _))))))) =
      absurd (clash "array" "boolean" refl e f)

  Choice-IsText :
      {type_name : String} (s : Schema) (v : Json)
      → type_name ≡ "string"
      → Choice type_name s v
      → IsText s v
  Choice-IsText s v e (inl (f, _)) = absurd (clash "string" "object" refl e f)
  Choice-IsText s v e (inr (inl (f, _))) = absurd (clash "string" "array" refl e f)
  Choice-IsText s v e (inr (inr (inl (_, h)))) = h
  Choice-IsText s v e (inr (inr (inr (inl (f, _))))) = absurd (clash "string" "integer" refl e f)
  Choice-IsText s v e (inr (inr (inr (inr (inl (f, _)))))) =
      absurd (clash "string" "number" refl e f)
  Choice-IsText s v e (inr (inr (inr (inr (inr ((f, _))))))) =
      absurd (clash "string" "boolean" refl e f)

  Choice-IsInteger :
      {type_name : String} (s : Schema) (v : Json)
      → type_name ≡ "integer"
      → Choice type_name s v
      → IsInteger s v
  Choice-IsInteger s v e (inl (f, _)) = absurd (clash "integer" "object" refl e f)
  Choice-IsInteger s v e (inr (inl (f, _))) = absurd (clash "integer" "array" refl e f)
  Choice-IsInteger s v e (inr (inr (inl (f, _)))) = absurd (clash "integer" "string" refl e f)
  Choice-IsInteger s v e (inr (inr (inr (inl (_, h))))) = h
  Choice-IsInteger s v e (inr (inr (inr (inr (inl (f, _)))))) =
      absurd (clash "integer" "number" refl e f)
  Choice-IsInteger s v e (inr (inr (inr (inr (inr ((f, _))))))) =
      absurd (clash "integer" "boolean" refl e f)

  Choice-IsNumber :
      {type_name : String} (s : Schema) (v : Json)
      → type_name ≡ "number"
      → Choice type_name s v
      → IsNumber s v
  Choice-IsNumber s v e (inl (f, _)) = absurd (clash "number" "object" refl e f)
  Choice-IsNumber s v e (inr (inl (f, _))) = absurd (clash "number" "array" refl e f)
  Choice-IsNumber s v e (inr (inr (inl (f, _)))) = absurd (clash "number" "string" refl e f)
  Choice-IsNumber s v e (inr (inr (inr (inl (f, _))))) = absurd (clash "number" "integer" refl e f)
  Choice-IsNumber s v e (inr (inr (inr (inr (inl (_, h)))))) = h
  Choice-IsNumber s v e (inr (inr (inr (inr (inr ((f, _))))))) =
      absurd (clash "number" "boolean" refl e f)

  Choice-IsBoolean :
      {type_name : String} (s : Schema) (v : Json)
      → type_name ≡ "boolean"
      → Choice type_name s v
      → IsBoolean s v
  Choice-IsBoolean s v e (inl (f, _)) = absurd (clash "boolean" "object" refl e f)
  Choice-IsBoolean s v e (inr (inl (f, _))) = absurd (clash "boolean" "array" refl e f)
  Choice-IsBoolean s v e (inr (inr (inl (f, _)))) = absurd (clash "boolean" "string" refl e f)
  Choice-IsBoolean s v e (inr (inr (inr (inl (f, _))))) =
      absurd (clash "boolean" "integer" refl e f)
  Choice-IsBoolean s v e (inr (inr (inr (inr (inl (f, _)))))) =
      absurd (clash "boolean" "number" refl e f)
  Choice-IsBoolean s v e (inr (inr (inr (inr (inr ((_, h))))))) = h

  pub IsObject-iff :
      (type_name : String) (s : Schema) (v : Json)
      → type_name ≡ "object"
      → (IsObject s v → HasType codec raw_document resolving type_name s v)
        × (HasType codec raw_document resolving type_name s v → IsObject s v)
  IsObject-iff type_name s v c =
      (λ (members, e, h, p, a). an_object c e h p a, λ h. Choice-IsObject s v c (HasType-Choice h))

  pub IsArray-iff :
      (type_name : String) (s : Schema) (v : Json)
      → type_name ≡ "array"
      → (IsArray s v → HasType codec raw_document resolving type_name s v)
        × (HasType codec raw_document resolving type_name s v → IsArray s v)
  IsArray-iff type_name s v c =
      (λ (vs, e, h). an_array c e h, λ h. Choice-IsArray s v c (HasType-Choice h))

  pub IsText-iff :
      (type_name : String) (s : Schema) (v : Json)
      → type_name ≡ "string"
      → (IsText s v → HasType codec raw_document resolving type_name s v)
        × (HasType codec raw_document resolving type_name s v → IsText s v)
  IsText-iff type_name s v c = (λ (t, e). a_string c e, λ h. Choice-IsText s v c (HasType-Choice h))

  pub IsInteger-iff :
      (type_name : String) (s : Schema) (v : Json)
      → type_name ≡ "integer"
      → (IsInteger s v → HasType codec raw_document resolving type_name s v)
        × (HasType codec raw_document resolving type_name s v → IsInteger s v)
  IsInteger-iff type_name s v c =
      (λ (n, e, h). an_integer c e h, λ h. Choice-IsInteger s v c (HasType-Choice h))

  pub IsNumber-iff :
      (type_name : String) (s : Schema) (v : Json)
      → type_name ≡ "number"
      → (IsNumber s v → HasType codec raw_document resolving type_name s v)
        × (HasType codec raw_document resolving type_name s v → IsNumber s v)
  IsNumber-iff type_name s v c =
      (λ (n, e, h). a_number c e h, λ h. Choice-IsNumber s v c (HasType-Choice h))

  pub IsBoolean-iff :
      (type_name : String) (s : Schema) (v : Json)
      → type_name ≡ "boolean"
      → (IsBoolean s v → HasType codec raw_document resolving type_name s v)
        × (HasType codec raw_document resolving type_name s v → IsBoolean s v)
  IsBoolean-iff type_name s v c =
      (λ (b, e). a_boolean c e, λ h. Choice-IsBoolean s v c (HasType-Choice h))

  -- No other name is a type's.
  pub HasType-name :
      {type_name : String} {s : Schema} {v : Json}
      → HasType codec raw_document resolving type_name s v
      → In type_name ("object" ∷ "array" ∷ "string" ∷ "integer" ∷ "number" ∷ "boolean" ∷ [])
  HasType-name (an_object c _ _ _ _) = inl c
  HasType-name (an_array c _ _) = inr (inl c)
  HasType-name (a_string c _) = inr (inr (inl c))
  HasType-name (an_integer c _ _) = inr (inr (inr (inl c)))
  HasType-name (a_number c _ _) = inr (inr (inr (inr (inl c))))
  HasType-name (a_boolean c _) = inr (inr (inr (inr (inr (inl c)))))
