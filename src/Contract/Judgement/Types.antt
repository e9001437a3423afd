-- ===== src/Contract/Judgement/Types.antt =====
-- internal/contract/openapi.go: what the switch of validateSchema over the type decides.
use echo_mcp.Prelude.{
  quote, String, ◌≡◌, ◌≢◌, refl, false, List, [], ◌∷◌, ◌==◌, ◌+s◌, arith, eq_iff, All-at, is_some,
  parse_int, if◌then◌else◌,
}
use echo_mcp.Failure.{plain, Result, err}
use echo_mcp.Json.{Json, null, boolean, number, text}
use echo_mcp.Contract.Schema.{Schema}
use echo_mcp.Contract.Document.{Codec}
use echo_mcp.Contract.Validate.{
  Check, validate_string, validate_integer, validate_number, validate_boolean, validate_type,
}
use echo_mcp.Contract.Decides.{Decides, Decides-map, Decides-if}
use echo_mcp.Contract.Conforms.{Conforms, HasType}
use echo_mcp.Contract.Typed.{
  IsText, IsInteger, IsNumber, IsBoolean, IsObject-iff, IsArray-iff, IsText-iff, IsInteger-iff,
  IsNumber-iff, IsBoolean-iff, HasType-name,
}
use echo_mcp.Contract.Judgement.Loops.{JudgesParts}
use echo_mcp.Contract.Judgement.Objects.{validate_object-Decides, validate_array-Decides}

pub unequal : {a b : String} → (a == b) ≡ false → a ≢ b
unequal {a} {b} h e = ground (arith, h, eq_iff a b)

module _ (codec : Codec) (raw_document : Json) (check : Check) (path : String)
    (resolving : List String) where
  abbrev Fits : Schema → Json → Type 0
  Fits = Conforms codec raw_document resolving

  abbrev Typed : String → Schema → Json → Type 0
  Typed = HasType codec raw_document resolving

  validate_string-Decides :
      (s : Schema) (v : Json)
      → Decides (IsText codec raw_document resolving s v) (validate_string v path)
  unfolding validate_string
  validate_string-Decides s (text t) = (t, refl)
  validate_string-Decides s null = λ h. cc (h.1)
  validate_string-Decides s _ = λ h. cc (h.1)

  validate_integer-Decides :
      (s : Schema) (v : Json)
      → Decides (IsInteger codec raw_document resolving s v) (validate_integer v path)
  unfolding validate_integer
  validate_integer-Decides s (number n) =
      Decides-if _ (is_some (parse_int n)) _ _ (λ e. (n, refl, e))
        (λ e h. absurd (ground (arith, e, h.1, h.2)))
  validate_integer-Decides s null = λ h. cc (h.1)
  validate_integer-Decides s _ = λ h. cc (h.1)

  validate_number-Decides :
      (s : Schema) (v : Json)
      → Decides (IsNumber codec raw_document resolving s v) (validate_number codec v path)
  unfolding validate_number
  validate_number-Decides s (number n) =
      Decides-if _ (codec.parse_float n) _ _ (λ e. (n, refl, e))
        (λ e h. absurd (ground (arith, e, h.1, h.2)))
  validate_number-Decides s null = λ h. cc (h.1)
  validate_number-Decides s _ = λ h. cc (h.1)

  validate_boolean-Decides :
      (s : Schema) (v : Json)
      → Decides (IsBoolean codec raw_document resolving s v) (validate_boolean v path)
  unfolding validate_boolean
  validate_boolean-Decides s (boolean b) = (b, refl)
  validate_boolean-Decides s null = λ h. cc (h.1)
  validate_boolean-Decides s _ = λ h. cc (h.1)

  -- One branch of the switch: the type's name is given, and what it means is decided.
  branch :
      (type_name : String) (s : Schema) (v : Json) (G : Type 0) (m : Result (Unit {0}))
      → (G → Typed type_name s v) × (Typed type_name s v → G)
      → Decides G m
      → Decides (Typed type_name s v) m
  branch type_name s v G m both d = Decides-map G (Typed type_name s v) m both.0 both.1 d

  pub validate_type-Decides :
      (type_name : String) (s : Schema) (v : Json)
      → JudgesParts codec raw_document check path resolving s
      → Decides (Typed type_name s v) (validate_type codec check type_name s v path resolving)
  unfolding validate_type
  validate_type-Decides type_name s v j =
      Decides-if _ (type_name == "object") _ _
        (λ e.
          branch type_name s v _ _
            (IsObject-iff codec raw_document resolving type_name s v ((eq_iff _ _).0 e))
            (validate_object-Decides codec raw_document check path resolving s v j))
        (λ o.
          Decides-if _ (type_name == "array") _ _
            (λ e.
              branch type_name s v _ _
                (IsArray-iff codec raw_document resolving type_name s v ((eq_iff _ _).0 e))
                (validate_array-Decides codec raw_document check path resolving s v j))
            (λ a. scalar_Decides o a))
    where
      scalar_Decides :
          (type_name == "object") ≡ false
          → (type_name == "array") ≡ false
          → Decides (Typed type_name s v) (
              if type_name == "string"
              then validate_string v path
              else if type_name == "integer"
              then validate_integer v path
              else if type_name == "number"
              then validate_number codec v path
              else if type_name == "boolean"
              then validate_boolean v path
              else err (plain (path +s " uses unsupported schema type " +s quote type_name)))
      scalar_Decides o a =
          Decides-if _ (type_name == "string") _ _
            (λ e.
              branch type_name s v _ _
                (IsText-iff codec raw_document resolving type_name s v ((eq_iff _ _).0 e))
                (validate_string-Decides s v))
            (λ t.
              Decides-if _ (type_name == "integer") _ _
                (λ e.
                  branch type_name s v _ _
                    (IsInteger-iff codec raw_document resolving type_name s v ((eq_iff _ _).0 e))
                    (validate_integer-Decides s v))
                (λ i.
                  Decides-if _ (type_name == "number") _ _
                    (λ e.
                      branch type_name s v _ _
                        (IsNumber-iff codec raw_document resolving type_name s v ((eq_iff _ _).0 e))
                        (validate_number-Decides s v))
                    (λ n.
                      Decides-if _ (type_name == "boolean") _ _
                        (λ e.
                          branch type_name s v _ _
                            (IsBoolean-iff codec raw_document resolving type_name s v
                              ((eq_iff _ _).0 e))
                            (validate_boolean-Decides s v))
                        (λ b h.
                          All-at (λ x. type_name ≢ x) type_name
                            ("object" ∷ "array" ∷ "string" ∷ "integer" ∷ "number" ∷ "boolean" ∷ [])
                            (
                              unequal o,
                              (unequal a, (unequal t, (unequal i, (unequal n, (unequal b, tt))))),
                            )
                            (HasType-name codec raw_document resolving h) refl))))
