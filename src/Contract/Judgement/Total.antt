-- ===== src/Contract/Judgement/Total.antt =====
-- internal/contract/openapi.go: validateSchema with the fuel that it is given, beside `Conforms`.
use echo_mcp.Prelude.{
  ℕ, zero, suc, ◌+◌, ◌*◌, ◌≤◌, ◌<◌, String, ◌≡◌, ◌≢◌, ◌↔◌, false, not, List, [], ◌∷◌, ◌==◌, arith,
  eq_iff, In, length, Bool-cases, inl, inr,
}
use echo_mcp.Failure.{out_of_fuel, ok, err}
use echo_mcp.Json.{Json}
use echo_mcp.Contract.Schema.{Schema, head}
use echo_mcp.Contract.Document.{Codec}
use echo_mcp.Contract.Pointer.{resolve_local_schema_ref}
use echo_mcp.Contract.Validate.{Check, contains, schema_step, validate_schema}
use echo_mcp.Contract.Decides.{Decides, Decides-map, Decides→ok, ok→Decides, Decides-ends}
use echo_mcp.Contract.Conforms.{Conforms, by_reference}
use echo_mcp.Contract.Fuel.{
  depth, depth-pos, Refs, unresolved, unresolved-lt, depth-property, depth-item, Refs-property,
  Refs-item, Refs-head,
}
use echo_mcp.Contract.Judgement.Loops.{JudgesParts}
use echo_mcp.Contract.Judgement.Steps.{
  Direct, Direct-Fits, Fits-Direct, Direct-Decides, Resolves, Fits-Resolves, JudgesTarget,
  reference-Decides,
}

-- One call decides conformance, if the calls that it makes do.
schema_step-Decides :
    (codec : Codec) (raw_document : Json) (check : Check) (path : String) (resolving : List String)
    (s : Schema) (v : Json)
    → ((head s).ref ≢ "" → JudgesTarget codec raw_document check path resolving s v)
    → JudgesParts codec raw_document check path resolving s
    → Decides
        (Conforms codec raw_document resolving s v)
        (schema_step codec raw_document check s v path resolving)
unfolding schema_step
schema_step-Decides codec raw_document check path resolving s v target parts =
    elim (Bool-cases ((head s).ref == "")) [
      | inl empty ↦
          let e = (eq_iff (head s).ref "").0 empty in
          rw (empty, not)
            (Decides-map (Direct codec raw_document check path resolving s v) _ _
              (Direct-Fits codec raw_document check path resolving s v e)
              (Fits-Direct codec raw_document check path resolving s v e)
              (Direct-Decides codec raw_document check path resolving s v parts))
      | inr given ↦
          let n : (head s).ref ≢ "" = λ e. ground (arith, given, eq_iff (head s).ref "") in
          rw (given, not)
            (Decides-map (Resolves codec raw_document check path resolving s v) _ _
              (λ r. by_reference n r.2 r.3 r.1 r.4)
              (Fits-Resolves codec raw_document check path resolving s v n)
              (reference-Decides codec raw_document check path resolving s v (target n)))
    ]

-- The references and the depth that bound what a document's references resolve to.
pub record IsBounded (codec : Codec) (raw_document : Json) (refs : List String) (limit : ℕ)
    : Type 0 where
  pub depth_bound :
      (ref : String) (t : Schema)
      → resolve_local_schema_ref codec raw_document ref ≡ ok t
      → depth t ≤ limit
  pub refs_bound :
      (ref : String) (t : Schema)
      → resolve_local_schema_ref codec raw_document ref ≡ ok t
      → Refs (λ r. In r refs) t

module _ (codec : Codec) (raw_document : Json) (refs : List String) (limit : ℕ)
    (bounded : IsBounded codec raw_document refs limit) where
  -- What is left to do: the references that may still be resolved, each with a schema of at most the
  -- limit's depth, and the schema at hand.
  unfoldable pub measure : Schema → List String → ℕ
  measure s resolving = unresolved refs resolving * suc limit + depth s

  measure-reference :
      (s t : Schema) (resolving : List String)
      → In (head s).ref refs
      → contains (head s).ref resolving ≡ false
      → depth t ≤ limit
      → measure t ((head s).ref ∷ resolving) < measure s resolving
  unfolding measure
  measure-reference s t resolving i fresh d =
      let one_less = unresolved-lt refs resolving (head s).ref i fresh in
      grind (arith, one_less, depth-pos s)

  -- With fuel above the measure, validateSchema answers, and rightly.
  pub validate_schema-Decides_within :
      (fuel : ℕ) (s : Schema) (v : Json) (path : String) (resolving : List String)
      → Refs (λ r. In r refs) s
      → measure s resolving < fuel
      → Decides
          (Conforms codec raw_document resolving s v)
          (validate_schema codec raw_document fuel s v path resolving)
  unfolding validate_schema measure
  validate_schema-Decides_within zero s v path resolving r m = absurd (omega arith)
  validate_schema-Decides_within (suc fuel) s v path resolving r m =
      schema_step-Decides codec raw_document (validate_schema codec raw_document fuel) path
        resolving s v
        (λ n t found fresh.
          validate_schema-Decides_within fuel t v path ((head s).ref ∷ resolving)
            (bounded.refs_bound (head s).ref t found)
            (omega (
              arith,
              measure-reference s t resolving (Refs-head (λ q. In q refs) s r n) fresh
                  (bounded.depth_bound (head s).ref t found),
            )))
        (record {
          on_property = λ name i w p.
              validate_schema-Decides_within fuel _ w p resolving
                (Refs-property (λ q. In q refs) s name r)
                (omega (arith, m, depth-property s name i));
          on_item = λ t e w p.
              validate_schema-Decides_within fuel t w p resolving
                (Refs-item (λ q. In q refs) s t e r) (omega (arith, m, depth-item s t e));
        })

unresolved-bound : (refs : List String) → unresolved refs [] ≤ length refs
unfolding unresolved contains
unresolved-bound [] = omega arith
unresolved-bound (r ∷ rs) = ground (arith, unresolved-bound rs)

square-bound : (u d n : ℕ) → u ≤ n → d ≤ n → u * suc n + d < suc n * suc n
square-bound u d n h k = grind arith

pub validate_schema-Decides :
    (codec : Codec) (raw_document : Json) (refs : List String) (limit : ℕ)
    → IsBounded codec raw_document refs limit
    → length refs ≤ limit
    → (s : Schema) → depth s ≤ limit
    → Refs (λ r. In r refs) s
    → (v : Json) (path : String)
    → Decides
        (Conforms codec raw_document [] s v)
        (validate_schema codec raw_document (suc limit * suc limit) s v path [])
unfolding measure
validate_schema-Decides codec raw_document refs limit bounded few s shallow within v path =
    let u = unresolved-bound refs in
    validate_schema-Decides_within codec raw_document refs limit bounded (suc limit * suc limit) s v
      path [] within
      (square-bound (unresolved refs []) (depth s) limit (omega (arith, u, few)) shallow)

-- For a document of whose references at most `limit` are ever met, none of which resolves to a schema
-- deeper than `limit`, and a schema with the same bounds, fuel of `suc limit * suc limit` is enough:
-- validateSchema never runs out of it, and it accepts a value exactly when the value conforms.
pub validate_schema_iff :
    (codec : Codec) (raw_document : Json) (refs : List String) (limit : ℕ)
    → IsBounded codec raw_document refs limit
    → length refs ≤ limit
    → (s : Schema) → depth s ≤ limit
    → Refs (λ r. In r refs) s
    → (v : Json) (path : String)
    → (validate_schema codec raw_document (suc limit * suc limit) s v path [] ≢ err out_of_fuel)
      × (validate_schema codec raw_document (suc limit * suc limit) s v path [] ≡ ok tt
          ↔ Conforms codec raw_document [] s v)
validate_schema_iff codec raw_document refs limit bounded few s shallow within v path =
    let judged =
      validate_schema-Decides codec raw_document refs limit bounded few s shallow within v path in
    (
      Decides-ends (Conforms codec raw_document [] s v) _ judged,
      (
        ok→Decides (Conforms codec raw_document [] s v) _ judged,
        Decides→ok (Conforms codec raw_document [] s v) _ judged,
      ),
    )
