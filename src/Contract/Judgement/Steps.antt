-- ===== src/Contract/Judgement/Steps.antt =====
-- internal/contract/openapi.go: what one call of validateSchema decides, if the calls that it makes do.
use mathlib.Core.Path.{subst}
use echo_mcp.Prelude.{
  String, ◌≡◌, ◌≢◌, refl, ◌⊎◌, inl, inr, Bool, true, false, not, ◌&&◌, List, ◌∷◌, ◌==◌, eq_iff,
  has_prefix, Bool-cases, if◌then◌else◌,
}
use echo_mcp.Failure.{ok, ◌>>◌, Result-cases}
use echo_mcp.Json.{Json, null}
use echo_mcp.Contract.Schema.{Schema, head}
use echo_mcp.Contract.Document.{Codec}
use echo_mcp.Contract.Errors.{
  unresolved_ref_error, cyclic_ref_error, unsupported_non_local_ref_error,
}
use echo_mcp.Contract.Pointer.{resolve_local_schema_ref}
use echo_mcp.Contract.Enum.{validate_enum}
use echo_mcp.Contract.Validate.{
  Check, is_null, contains, reject_unsupported_schema_constructs, effective_type, validate_type,
  validate_typed, resolved, validate_referenced_schema,
}
use echo_mcp.Contract.Decides.{Decides, Decides-map, Decides->>, Decides-if}
use echo_mcp.Contract.Conforms.{
  Conforms, HasType, by_reference, null_value, any_value, typed, IsSupported, InEnum,
}
use echo_mcp.Contract.Verdicts.{reject-Decides, validate_enum-Decides}
use echo_mcp.Contract.Judgement.Loops.{JudgesParts}
use echo_mcp.Contract.Judgement.Types.{unequal, validate_type-Decides}

null_and : (v : Json) (b : Bool) → (is_null v && b) ≡ true → (b ≡ true) × (v ≡ null)
null_and null b h = (h, refl)
null_and _ b h = cc h

not_null_and : (v : Json) (b : Bool) → (is_null v && b) ≡ false → ¬ ((b ≡ true) × (v ≡ null))
not_null_and null b h k = cc (h, k.0)
not_null_and _ b h k = cc (k.1)

same_schema : (x t : Schema) → ok t ≡ ok x → x ≡ t
same_schema x t e = cc

module _ (codec : Codec) (raw_document : Json) (check : Check) (path : String)
    (resolving : List String) where
  abbrev pub Fits : Schema → Json → Type 0
  Fits = Conforms codec raw_document resolving

  abbrev pub Typed : String → Schema → Json → Type 0
  Typed = HasType codec raw_document resolving

  -- What a value of a schema with a type is, and with none.
  abbrev pub Plain : Schema → Json → Type 0
  Plain s v = (effective_type s ≡ "") ⊎ (Typed (effective_type s) s v × InEnum codec s v)

  validate_typed-Decides :
      (s : Schema) (v : Json)
      → JudgesParts codec raw_document check path resolving s
      → Decides (Plain s v) (validate_typed codec check (effective_type s) s v path resolving)
  unfolding validate_typed
  validate_typed-Decides s v j =
      Decides-if _ (effective_type s == "") _ _ (λ e. inl ((eq_iff _ _).0 e))
        (λ some_type.
          Decides-map (Typed (effective_type s) s v × InEnum codec s v) (Plain s v)
            (validate_type codec check (effective_type s) s v path resolving
              >> validate_enum codec s v path)
            (λ h. inr h) (λ h. elim h [ inl e ↦ absurd (unequal some_type e) | inr k ↦ k ])
            (Decides->> (Typed (effective_type s) s v) (InEnum codec s v)
              (validate_type codec check (effective_type s) s v path resolving)
              (validate_enum codec s v path)
              (validate_type-Decides codec raw_document check path resolving (effective_type s) s v
                j)
              (λ _. validate_enum-Decides codec s v path)))

  -- Conformance to a schema that is no reference.
  abbrev pub Direct : Schema → Json → Type 0
  Direct s v = (((head s).nullable ≡ true) × (v ≡ null)) ⊎ (IsSupported s × Plain s v)

  pub Fits-Direct : (s : Schema) (v : Json) → (head s).ref ≡ "" → Fits s v → Direct s v
  Fits-Direct s v e (by_reference given _ _ _ _) = absurd (given e)
  Fits-Direct s v e (null_value _ nullable null_here) = inl (nullable, null_here)
  Fits-Direct s v e (any_value _ supported no_type) = inr (supported, inl no_type)
  Fits-Direct s v e (typed _ supported has_type listed) = inr (supported, inr (has_type, listed))

  pub Direct-Fits : (s : Schema) (v : Json) → (head s).ref ≡ "" → Direct s v → Fits s v
  Direct-Fits s v e (inl (nullable, null_here)) = null_value e nullable null_here
  Direct-Fits s v e (inr (supported, inl no_type)) = any_value e supported no_type
  Direct-Fits s v e (inr (supported, inr (has_type, listed))) = typed e supported has_type listed

  -- What a reference has to be.
  abbrev pub Resolves : Schema → Json → Type 0
  Resolves s v =
      (t : Schema) × (resolve_local_schema_ref codec raw_document (head s).ref ≡ ok t)
      × (has_prefix (head s).ref "#/" ≡ true)
      × (contains (head s).ref resolving ≡ false)
      × Conforms codec raw_document ((head s).ref ∷ resolving) t v

  pub Fits-Resolves : (s : Schema) (v : Json) → (head s).ref ≢ "" → Fits s v → Resolves s v
  Fits-Resolves s v n (by_reference {t} given local fresh found h) = (t, found, local, fresh, h)
  Fits-Resolves s v n (null_value e _ _) = absurd (n e)
  Fits-Resolves s v n (any_value e _ _) = absurd (n e)
  Fits-Resolves s v n (typed e _ _ _) = absurd (n e)

  pub Direct-Decides :
      (s : Schema) (v : Json)
      → JudgesParts codec raw_document check path resolving s
      → Decides (Direct s v) (
          if is_null v && (head s).nullable then ok tt else do
            reject_unsupported_schema_constructs s path
            validate_typed codec check (effective_type s) s v path resolving)
  Direct-Decides s v j =
      Decides-if _ (is_null v && (head s).nullable) _ _ (λ e. inl (null_and v (head s).nullable e))
        (λ e.
          Decides-map (IsSupported s × Plain s v) (Direct s v)
            (reject_unsupported_schema_constructs s path
              >> validate_typed codec check (effective_type s) s v path resolving)
            (λ h. inr h)
            (λ h. elim h [ inl k ↦ absurd (not_null_and v (head s).nullable e k) | inr k ↦ k ])
            (Decides->> (IsSupported s) (Plain s v) (reject_unsupported_schema_constructs s path)
              (validate_typed codec check (effective_type s) s v path resolving)
              (reject-Decides s path) (λ _. validate_typed-Decides s v j)))

  -- The check decides conformance to what a reference resolves to.
  abbrev pub JudgesTarget : Schema → Json → Type 0
  JudgesTarget s v =
      (t : Schema)
      → resolve_local_schema_ref codec raw_document (head s).ref ≡ ok t
      → contains (head s).ref resolving ≡ false
      → Decides (Conforms codec raw_document ((head s).ref ∷ resolving) t v)
          (check t v path ((head s).ref ∷ resolving))

  pub reference-Decides :
      (s : Schema) (v : Json)
      → JudgesTarget s v
      → Decides
          (Resolves s v)
          (validate_referenced_schema codec raw_document check (head s).ref v path resolving)
  unfolding validate_referenced_schema unsupported_non_local_ref_error cyclic_ref_error
      unresolved_ref_error resolved
  reference-Decides s v j = elim (Bool-cases (has_prefix (head s).ref "#/")) [
    | inr remote ↦ rw (remote, not) (λ h. cc (h.2))
    | inl local ↦ elim (Bool-cases (contains (head s).ref resolving)) [
      | inl cyclic ↦ rw (local, cyclic) (λ h. cc (h.3))
      | inr fresh ↦ elim (Result-cases (resolve_local_schema_ref codec raw_document (head s).ref)) [
        | inr (e, bad) ↦ rw (local, fresh, bad) (λ h. cc (h.1))
        | inl (t, found) ↦
            rw (local, fresh, found)
              (Decides-map (Conforms codec raw_document ((head s).ref ∷ resolving) t v) _
                (check t v path ((head s).ref ∷ resolving)) (λ h. (t, refl, refl, refl, h))
                (λ h.
                  subst (λ x. Conforms codec raw_document ((head s).ref ∷ resolving) x v)
                    (same_schema h.0 t h.1) h.4)
                (j t found fresh))
      ]
    ]
  ]
