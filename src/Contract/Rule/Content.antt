-- ===== src/Contract/Rule/Content.antt =====
-- internal/contract/openapi.go: what ValidateResponseRule decides about a response's content.
use mathlib.Core.Path.{subst}
use echo_mcp.Prelude.{
  String, ◌≡◌, ◌≢◌, ◌≤◌, refl, ◌∙◌, sym, ◌↔◌, inl, inr, true, false, not, none, some, List, [], ◌∷◌,
  ◌==◌, arith, eq_iff, In, is_empty, lookup, Bool-cases, Option-cases,
}
use echo_mcp.Failure.{◌>>=◌, ◌>>◌}
use echo_mcp.Json.{Json, Decoded, value, eof, malformed}
use echo_mcp.Json.Size.{size}
use echo_mcp.State.{ResponseRule}
use echo_mcp.Contract.Document.{MediaType, Response, OpenApiContract, Codec}
use echo_mcp.Contract.Conforms.{Conforms}
use echo_mcp.Contract.Fuel.{depth, Refs}
use echo_mcp.Contract.Validate.{validate_schema}
use echo_mcp.Contract.Decides.{Decides, Decides-map}
use echo_mcp.Contract.Judgement.Total.{validate_schema-Decides}
use echo_mcp.Contract.Rule.{
  media_type_application_json, normalize_content_type, select_media, check_content_type, only_value,
  first_value, decode_body, fuel_for, validate_content,
}
use echo_mcp.Contract.Rule.Accepted.{IsJsonFor, Fulfils, without_content, with_json, IsFuelled}

same_value : (v w : Json) (r q : String) → value v r ≡ value w q → v ≡ w
same_value v w r q e = cc

same_rest : (v w : Json) (r q : String) → value v r ≡ value w q → r ≡ q
same_rest v w r q e = cc

pub same_response : {A : Type 0} (a b : A) → some a ≡ some b → a ≡ b
same_response a b e = cc

module _ (codec : Codec) (c : OpenApiContract) (fuelled : IsFuelled codec c)
    (rule : ResponseRule) where
  module _ (media : MediaType) (shallow : depth media.schema ≤ size c.raw_document)
      (within : Refs (λ r. In r fuelled.refs) media.schema) where
    judged :
        (v : Json)
        → Decides
            (Conforms codec c.raw_document [] media.schema v)
            (validate_schema codec c.raw_document (fuel_for c) media.schema v "$" [])
    judged v =
        validate_schema-Decides codec c.raw_document fuelled.refs (size c.raw_document)
          fuelled.bounded fuelled.few media.schema shallow within v "$"

    -- The body is one JSON value that conforms.
    abbrev Body : Type 0
    Body =
        (v : Json) × (rest : String) × (codec.decode rule.body ≡ value v rest)
        × (codec.decode rest ≡ eof)
        × Conforms codec c.raw_document [] media.schema v

    only-Decides :
        (v : Json) (rest : String) (d : Decoded)
        → codec.decode rule.body ≡ value v rest
        → codec.decode rest ≡ d
        → Decides Body (
            only_value v d >>= λ b.
            validate_schema codec c.raw_document (fuel_for c) media.schema b "$" [])
    unfolding only_value
    only-Decides v rest eof e f =
        Decides-map (Conforms codec c.raw_document [] media.schema v) Body _
          (λ h. (v, rest, e, f, h))
          (λ h.
            subst (Conforms codec c.raw_document [] media.schema)
              (same_value h.0 v h.1 rest (sym h.2 ∙ e)) h.4)
          (judged v)
    only-Decides v rest (value w more) e f =
        λ h. let q = same_rest h.0 v h.1 rest (sym h.2 ∙ e) in cc (f, q, h.3)
    only-Decides v rest (malformed t) e f =
        λ h. let q = same_rest h.0 v h.1 rest (sym h.2 ∙ e) in cc (f, q, h.3)

    first-Decides :
        (d : Decoded)
        → codec.decode rule.body ≡ d
        → Decides Body (
            first_value codec.decode d >>= λ b.
            validate_schema codec c.raw_document (fuel_for c) media.schema b "$" [])
    unfolding first_value
    first-Decides eof e = λ h. cc (e, h.2)
    first-Decides (malformed t) e = λ h. cc (e, h.2)
    first-Decides (value v rest) e = only-Decides v rest (codec.decode rest) e refl

    json-Decides : Decides (IsJsonFor codec c rule media) (
        check_content_type rule
        >> (decode_body codec rule.body >>= λ b.
            validate_schema codec c.raw_document (fuel_for c) media.schema b "$" []))
    unfolding check_content_type decode_body
    json-Decides =
        elim (Bool-cases
          (normalize_content_type rule.content_type == media_type_application_json)) [
            | inr other ↦
                rw (other, not)
                  (λ h. ground (
                    arith,
                    other,
                    h.is_json,
                    eq_iff (normalize_content_type rule.content_type) media_type_application_json,
                  ))
            | inl same ↦
                rw (same, not)
                  (Decides-map Body (IsJsonFor codec c rule media) _
                    (λ h. record {
                      v = h.0;
                      rest = h.1;
                      is_json = (eq_iff _ _).0 same;
                      decoded = h.2;
                      ended = h.3;
                      conforms = h.4;
                    })
                    (λ h. (h.v, h.rest, h.decoded, h.ended, h.conforms))
                    (first-Decides (codec.decode rule.body) refl))
          ]

  empty_iff : {A : Type 0} (l : List A) → is_empty l ≡ true ↔ l ≡ []
  empty_iff [] = (λ _. refl, λ _. refl)
  empty_iff (x ∷ l) = (λ e. cc e, λ e. cc e)

  pub content-Decides :
      (response : Response)
      → ((media : MediaType)
          → lookup media_type_application_json response.content ≡ some media
          → (depth media.schema ≤ size c.raw_document) × Refs (λ r. In r fuelled.refs) media.schema)
      → Decides (Fulfils codec c rule response) (validate_content codec c rule response)
  unfolding validate_content select_media
  content-Decides response bound = elim (Bool-cases (is_empty response.content)) [
    | inl empty ↦ rw (empty) (without_content ((empty_iff _).0 empty))
    | inr full ↦ elim (Option-cases (lookup media_type_application_json response.content)) [
      | inl missing ↦ rw (full, missing) (λ h. unfulfilled response full missing h)
      | inr (media, found) ↦
          rw (full, found)
            (Decides-map (IsJsonFor codec c rule media) (Fulfils codec c rule response) _
              (λ h. with_json (not_empty response full) found h)
              (json_part response media full found)
              (json-Decides media (bound media found).0 (bound media found).1))
    ]
  ]
    where
      not_empty : (response : Response) → is_empty response.content ≡ false → response.content ≢ []
      not_empty response full e = cc (full, (empty_iff response.content).1 e)

      unfulfilled :
          (response : Response)
          → is_empty response.content ≡ false
          → lookup media_type_application_json response.content ≡ none
          → ¬ Fulfils codec c rule response
      unfulfilled response full missing (without_content e) = not_empty response full e
      unfulfilled response full missing (with_json _ found _) = cc (missing, found)

      json_part :
          (response : Response) (media : MediaType)
          → is_empty response.content ≡ false
          → lookup media_type_application_json response.content ≡ some media
          → Fulfils codec c rule response
          → IsJsonFor codec c rule media
      json_part response media full found (without_content e) = absurd (not_empty response full e)
      json_part response media full found (with_json {media = m} _ there h) =
          subst (IsJsonFor codec c rule) (same_response m media (sym there ∙ found)) h
