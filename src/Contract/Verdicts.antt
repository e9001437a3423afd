-- ===== src/Contract/Verdicts.antt =====
-- internal/contract/openapi.go: what the parts of validateSchema decide that make no call of it.
use mathlib.Core.Path.{subst}
use echo_mcp.Prelude.{
  String, ◌≡◌, refl, sym, ap, ◌⊎◌, ◌↔◌, ◌≢◌, inl, inr, true, false, not, List, [], ◌∷◌, ◌==◌, arith,
  eq_iff, All, any, keep, has_key, keys, is_empty, trim_space, sort_strings, In, In-sort_strings,
  Bool-cases, if◌then◌else◌,
}
use echo_mcp.Failure.{ok, err, ◌>>=◌, Result-cases, Answer-cases}
use echo_mcp.Json.{Json}
use echo_mcp.Contract.Schema.{Schema, schema, no_schema, more, absent, present, head, properties}
use echo_mcp.Contract.Document.{Codec}
use echo_mcp.Contract.Errors.{unsupported_schema_feature_error}
use echo_mcp.Contract.Enum.{
  validate_enum, enum_loop, invalid_enum, canonical_json, decode_raw_json_value,
}
use echo_mcp.Contract.Additional.{
  additional_properties_boolean, extra_names, has_additional_properties, not_allowed,
  validate_additional_properties,
}
use echo_mcp.Contract.Validate.{reject_unsupported_schema_constructs, validate_required}
use echo_mcp.Contract.Decides.{Decides, Decides-map, Decides-if}
use echo_mcp.Contract.Conforms.{IsSupported, AllowsMembers, Listed, here, later, InEnum}

pub reject-Decides :
    (s : Schema) (path : String)
    → Decides (IsSupported s) (reject_unsupported_schema_constructs s path)
unfolding reject_unsupported_schema_constructs unsupported_schema_feature_error
reject-Decides (schema h ps i (more s ss) a l n) path = λ p. cc (p.0)
reject-Decides (schema h ps i no_schema (more s ss) l n) path = λ p. cc (p.1)
reject-Decides (schema h ps i no_schema no_schema (more s ss) n) path = λ p. cc (p.2)
reject-Decides (schema h ps i no_schema no_schema no_schema (present s)) path = λ p. cc (p.3)
reject-Decides (schema h ps i no_schema no_schema no_schema absent) path = (refl, refl, refl, refl)

pub validate_required-Decides :
    (names : List String) (members : List (String × Json)) (path : String)
    → Decides
        (All (λ name. has_key name members ≡ true) names)
        (validate_required names members path)
unfolding validate_required
validate_required-Decides [] members path = tt
validate_required-Decides (name ∷ names) members path =
    let Rest = All (λ n. has_key n members ≡ true) names in
    let rest = validate_required names members path in
    Decides-if ((has_key name members ≡ true) × Rest) (has_key name members) rest _
      (λ h.
        Decides-map Rest _ rest (λ k. (h, k)) (λ p. p.1)
          (validate_required-Decides names members path))
      (λ h p. cc (p.0, h))

is_empty-eq-nil {ℓ} : {A : Type ℓ} (l : List A) → is_empty l ≡ true → l ≡ []
is_empty-eq-nil [] h = refl
is_empty-eq-nil (x ∷ l) h = cc

-- How a list that is not empty can hold the value.
Listed-inv :
    (codec : Codec) (encoded raw : String) (raws : List String)
    → Listed codec encoded (raw ∷ raws)
    → (v : Json) × (decode_raw_json_value codec raw ≡ ok v)
      × ((canonical_json codec v ≡ ok encoded)
          ⊎ ((other : String) × (canonical_json codec v ≡ ok other) × Listed codec encoded raws))
Listed-inv codec encoded raw raws (here {v} d c) = (v, d, inl c)
Listed-inv codec encoded raw raws (later {other} {v} d c l) = (v, d, inr (other, c, l))

module _ (codec : Codec) where
  enum_loop-Decides :
      (encoded : String) (all : List String) (path : String) (raws : List String)
      → Decides (Listed codec encoded raws) (enum_loop codec encoded all path raws)
  unfolding enum_loop canonical_json
  enum_loop-Decides encoded all path [] = λ h. elim h [ ]
  enum_loop-Decides encoded all path (raw ∷ raws) =
      elim (Result-cases (decode_raw_json_value codec raw)) [
        | inr (e, bad) ↦
            rw (bad, invalid_enum) (λ h. cc (bad, (Listed-inv codec encoded raw raws h).1))
        | inl (v, read) ↦ elim (Answer-cases (codec.marshal v)) [
          | inr (text, bad) ↦
              rw (read, invalid_enum, bad)
                (λ h.
                  let (w, d, c) = Listed-inv codec encoded raw raws h in
                  elim c [ inl e ↦ cc (d, read, bad, e) | inr (o, e, _) ↦ cc (d, read, bad, e) ])
          | inl (other, written) ↦
              rw (read, invalid_enum, written)
                (Decides-if _ (encoded == other) _ _
                  (λ same. here read (rw written (ap ok (sym ((eq_iff encoded other).0 same)))))
                  (λ differs.
                    Decides-map (Listed codec encoded raws) _ _
                      (λ l. later {other = other} read (rw written refl) l)
                      (λ h.
                        let (w, d, c) = Listed-inv codec encoded raw raws h in
                        elim c [
                          | inl e ↦
                              absurd (ground (arith, d, read, written, e, eq_iff encoded other))
                          | inr (o, _, l) ↦ l
                        ])
                      (enum_loop-Decides encoded all path raws)))
        ]
      ]

  validate_listed-Decides :
      (s : Schema) (v : Json) (path : String)
      → is_empty (head s).enum ≡ false
      → Decides (InEnum codec s v) (do
        value_json ← canonical_json codec v
        enum_loop codec value_json (head s).enum path (head s).enum)
  unfolding canonical_json
  validate_listed-Decides s v path some_value = elim (Answer-cases (codec.marshal v)) [
    | inr (text, bad) ↦
        rw bad (λ h. elim h [ inl e ↦ cc (e, some_value) | inr (encoded, c, l) ↦ cc c ])
    | inl (encoded, written) ↦ rw written (
        Decides-map (Listed codec encoded (head s).enum) _ _ (λ l. inr (encoded, refl, l))
          (λ h. elim h [
            | inl e ↦ cc (e, some_value)
            | inr (other, c, l) ↦ subst (λ x. Listed codec x (head s).enum) (ground (arith, c)) l
          ])
          (enum_loop-Decides encoded (head s).enum path (head s).enum))
  ]

  pub validate_enum-Decides :
      (s : Schema) (v : Json) (path : String)
      → Decides (InEnum codec s v) (validate_enum codec s v path)
  unfolding validate_enum
  validate_enum-Decides s v path =
      Decides-if _ (is_empty (head s).enum) _ _ (λ e. inl (is_empty-eq-nil (head s).enum e))
        (λ e. validate_listed-Decides s v path e)

-- Every name is declared by the schema.
abbrev Declared : Schema → List String → Type 0
Declared s names = All (λ name. has_key name (properties s) ≡ true) names

any-eq-false :
    (s : Schema) (names : List String)
    → (any (λ name. not (has_key name (properties s))) names ≡ false) ↔ Declared s names
any-eq-false s [] = ground arith
any-eq-false s (name ∷ names) = ground (arith, any-eq-false s names)

keep-eq-nil :
    (s : Schema) (names : List String)
    → (keep (λ name. not (has_key name (properties s))) names ≡ []) ↔ Declared s names
keep-eq-nil s [] = ground arith
keep-eq-nil s (name ∷ names) = ground (arith, keep-eq-nil s names)

sort_strings-eq-nil : (l : List String) → sort_strings l ≡ [] → l ≡ []
sort_strings-eq-nil [] e = refl
sort_strings-eq-nil (x ∷ l) e =
    absurd (subst (λ ys. In x ys) e (In-sort_strings x (x ∷ l) (inl refl)))

not_allowed-Decides :
    (path : String) (names : List String) → Decides (names ≡ []) (not_allowed path names)
unfolding not_allowed
not_allowed-Decides path [] = refl
not_allowed-Decides path (name ∷ names) = λ e. cc e

module _ (s : Schema) (members : List (String × Json)) where
  -- Neither of the first two ways to allow members.
  no_other_names :
      (head s).additional_properties ≢ ""
      → trim_space (head s).additional_properties ≢ "true"
      → AllowsMembers s members
      → Declared s (keys members)
  no_other_names m n (inl e) = absurd (m e)
  no_other_names m n (inr (inl e)) = absurd (n e)
  no_other_names m n (inr (inr d)) = d

  validate_additional_given :
      (path : String)
      → (head s).additional_properties ≢ ""
      → Decides (AllowsMembers s members) (
          if not (additional_properties_boolean (head s).additional_properties).1
          then (if has_additional_properties s members
              then err (unsupported_schema_feature_error path "additionalProperties schema" "")
              else ok tt)
          else if (additional_properties_boolean (head s).additional_properties).0
          then ok tt
          else not_allowed path (sort_strings (extra_names s members)))
  unfolding additional_properties_boolean has_additional_properties extra_names
      unsupported_schema_feature_error sort_strings
  validate_additional_given path given =
      let raw = trim_space (head s).additional_properties in
      elim (Bool-cases (raw == "true")) [
        | inl t ↦ rw t (inr (inl ((eq_iff _ _).0 t)))
        | inr no_true ↦
            let only = no_other_names given (λ e. ground (arith, eq_iff raw "true", no_true, e)) in
            elim (Bool-cases (raw == "false")) [
              | inl f ↦
                  rw (no_true, f)
                    (Decides-map _ _ _
                      (λ e. inr (inr ((keep-eq-nil s (keys members)).0 (sort_strings-eq-nil _ e))))
                      (λ m. ap sort_strings ((keep-eq-nil s (keys members)).1 (only m)))
                      (not_allowed-Decides path (sort_strings (extra_names s members))))
              | inr no_false ↦
                  rw (no_true, no_false)
                    (Decides-if _ (has_additional_properties s members) _ _
                      (λ some_extra m. cc (some_extra, (any-eq-false s (keys members)).1 (only m)))
                      (λ no_extra. inr (inr ((any-eq-false s (keys members)).0 no_extra))))
            ]
      ]

  pub validate_additional_properties-Decides :
      (path : String)
      → Decides (AllowsMembers s members) (validate_additional_properties s members path)
  unfolding validate_additional_properties
  validate_additional_properties-Decides path =
      Decides-if _ ((head s).additional_properties == "") _ _ (λ e. inl ((eq_iff _ _).0 e))
        (λ e.
          validate_additional_given path
            (λ q. ground (arith, eq_iff (head s).additional_properties "")))
