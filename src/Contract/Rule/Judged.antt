-- ===== src/Contract/Rule/Judged.antt =====
-- internal/contract/openapi.go: what ValidateResponseRule decides.
use mathlib.Core.Path.{subst}
use echo_mcp.Prelude.{
  String, ◌+s◌, ◌≡◌, ◌≢◌, ◌≤◌, refl, ap, ◌∙◌, sym, ◌↔◌, inl, inr, Option, none, some, List, [], ◌∷◌,
  In, itoa, lookup, Option-cases,
}
use echo_mcp.Failure.{
  Failure, load_error, validation_error, operation_error, plain, out_of_fuel, Result, ok, err,
  ◌>>=◌, Result-cases,
}
use echo_mcp.Json.Size.{size}
use echo_mcp.State.{ResponseRule}
use echo_mcp.Contract.Document.{MediaType, Response, Operation, OpenApiContract, Codec}
use echo_mcp.Contract.Route.{find_operation, choose, exact_or}
use echo_mcp.Contract.Fuel.{depth, Refs}
use echo_mcp.Contract.Decides.{Decides, Decides-map, Decides→ok, ok→Decides, Decides-ends}
use echo_mcp.Contract.Rule.{
  media_type_application_json, method_and_path, defined_responses, response_for, select_response,
  validate_content, validate_response_rule,
}
use echo_mcp.Contract.Rule.Accepted.{Fulfils, IsAccepted, IsFuelled}
use echo_mcp.Contract.Rule.Content.{same_response, content-Decides}

abbrev refusal : Result Operation → Failure
refusal (ok o) = out_of_fuel
refusal (err e) = e

same_failure : (e f : Failure) → Path (Result Operation) (err e) (err f) → e ≡ f
same_failure e f h = ap refusal h

choose-plain :
    (method path : String) (l : List (String × Operation)) (e : Failure)
    → choose method path l ≡ err e
    → (text : String) × (e ≡ plain text)
unfolding choose
choose-plain method path [] e h = cc h
choose-plain method path (x ∷ []) e h = cc h
choose-plain method path (x ∷ y ∷ more) e h = (_, same_failure _ _ (sym h))

exact_or-plain :
    (o : Option Operation) (r : Result Operation) (e : Failure)
    → ((f : Failure) → r ≡ err f → (text : String) × (f ≡ plain text))
    → exact_or o r ≡ err e
    → (text : String) × (e ≡ plain text)
unfolding exact_or
exact_or-plain none r e g h = g e h
exact_or-plain (some o) r e g h = cc h

find_operation-plain :
    (c : OpenApiContract) (method path : String) (e : Failure)
    → find_operation c.paths method path ≡ err e
    → (text : String) × (e ≡ plain text)
unfolding find_operation
find_operation-plain c method path e h = exact_or-plain _ _ e (choose-plain method path _) h

same_operation : (a b : Operation) → ok a ≡ ok b → a ≡ b
same_operation a b e = cc

module _ (codec : Codec) (c : OpenApiContract) (fuelled : IsFuelled codec c)
    (rule : ResponseRule) where
  -- The rest of the record IsAccepted, once the operation is known.
  abbrev Answers : Operation → Type 0
  Answers operation =
      (responses : List (String × Response)) × (response : Response) × (operation.responses
        ≡ some responses)
      × (response_for (itoa rule.status_code) responses ≡ some response)
      × Fulfils codec c rule response

  defined_responses-some :
      (operation : Operation) (responses : List (String × Response))
      → operation.responses ≡ some responses
      → defined_responses rule operation ≡ ok responses
  unfolding defined_responses
  defined_responses-some operation responses e = rw (e) refl

  defined_responses-none :
      (operation : Operation)
      → operation.responses ≡ none
      → defined_responses rule operation
        ≡ err (plain ("no OpenAPI operation matches " +s method_and_path rule))
  unfolding defined_responses
  defined_responses-none operation e = rw (e) refl

  abbrev Selects : List (String × Response) → Type 0
  Selects responses =
      (response : Response) × (response_for (itoa rule.status_code) responses ≡ some response)
      × Fulfils codec c rule response

  responses-Decides :
      (responses : List (String × Response))
      → ((response : Response)
          → response_for (itoa rule.status_code) responses ≡ some response
          → (media : MediaType) → lookup media_type_application_json response.content ≡ some media
          → (depth media.schema ≤ size c.raw_document) × Refs (λ r. In r fuelled.refs) media.schema)
      → Decides
          (Selects responses)
          (select_response rule responses >>= λ response. validate_content codec c rule response)
  unfolding select_response
  responses-Decides responses bound =
      elim (Option-cases (response_for (itoa rule.status_code) responses)) [
        | inl missing ↦ rw (missing) (λ h. cc (h.1))
        | inr (response, answered) ↦ rw (answered) (
            Decides-map (Fulfils codec c rule response) _ (validate_content codec c rule response)
              (λ h. (response, refl, h))
              (λ h. subst (Fulfils codec c rule) (sym (same_response response h.0 h.1)) h.2)
              (content-Decides codec c fuelled rule response (bound response answered)))
      ]

  same_responses :
      (operation : Operation) (rs qs : List (String × Response))
      → operation.responses ≡ some rs
      → operation.responses ≡ some qs
      → rs ≡ qs
  same_responses operation rs qs e f = same_response rs qs (sym e ∙ f)

  operation-Decides :
      (operation : Operation)
      → find_operation c.paths rule.method rule.path ≡ ok operation
      → Decides (Answers operation) (
          defined_responses rule operation >>= λ responses.
          select_response rule responses >>= λ response. validate_content codec c rule response)
  operation-Decides operation found = elim (Option-cases operation.responses) [
    | inl missing ↦ rw (defined_responses-none operation missing) (λ h. cc (missing, h.2))
    | inr (responses, e) ↦ rw (defined_responses-some operation responses e) (
        Decides-map (Selects responses) (Answers operation) _ (λ h. (responses, h.0, e, h.1, h.2))
          (λ h. subst Selects (same_responses operation h.0 responses h.2 e) (h.1, h.3, h.4))
          (responses-Decides responses (λ response answered media there.
            fuelled.media_bound rule.method rule.path (itoa rule.status_code) operation responses
              response media found e answered there)))
  ]

  refused :
      (e : Failure)
      → (text : String) × (e ≡ plain text)
      → ¬ IsAccepted codec c rule
      → Decides (IsAccepted codec c rule) (err e)
  refused (plain _) t n = n
  refused (load_error _) t n = n
  refused (validation_error _) t n = n
  refused (operation_error _) t n = n
  refused out_of_fuel t n = cc (t.1)

  validate_response_rule-Decides :
      Decides (IsAccepted codec c rule) (validate_response_rule codec c rule)
  unfolding validate_response_rule
  validate_response_rule-Decides =
      elim (Result-cases (find_operation c.paths rule.method rule.path)) [
        | inr (e, bad) ↦ rw (bad) (
            refused e (find_operation-plain c rule.method rule.path e bad) (λ h. cc (bad, h.found)))
        | inl (operation, found) ↦ rw (found) (
            Decides-map (Answers operation) (IsAccepted codec c rule) _
              (λ h. record {
                operation = operation;
                responses = h.0;
                response = h.1;
                found = found;
                defined = h.2;
                answered = h.3;
                fulfilled = h.4;
              })
              (λ h.
                subst Answers (same_operation h.operation operation (sym h.found ∙ found))
                  (h.responses, h.response, h.defined, h.answered, h.fulfilled))
              (operation-Decides operation found))
      ]

-- For a contract whose document bounds its schemas and references, ValidateResponseRule always ends,
-- and it accepts a rule exactly when the contract defines the rule's operation and a response for its
-- status, and the response has no content or the rule carries the JSON media type and a body of one
-- JSON value that conforms to the response's schema.
pub validate_response_rule_iff :
    (codec : Codec) (c : OpenApiContract)
    → IsFuelled codec c
    → (rule : ResponseRule)
    → (validate_response_rule codec c rule ≢ err out_of_fuel)
      × (validate_response_rule codec c rule ≡ ok tt ↔ IsAccepted codec c rule)
validate_response_rule_iff codec c fuelled rule =
    let d = validate_response_rule-Decides codec c fuelled rule in
    (
      Decides-ends (IsAccepted codec c rule) _ d,
      (ok→Decides (IsAccepted codec c rule) _ d, Decides→ok (IsAccepted codec c rule) _ d),
    )
