-- ===== src/Control/Tools/Evidence.antt =====
-- internal/control/mcp_server.go, internal/httpserver/server.go and internal/state/store.go together:
-- what is configured is what a request gets and what the observations show.
use echo_mcp.Prelude.{
  ◌≢◌, ◌⊎◌, true, ℤ, pos, negsuc, some, arith, eq_iff, ◌==◌, if◌then◌else◌, Bool-cases, String, ◌≡◌,
  refl, sym, ap, ◌∙◌, inl, inr, false, List, [], ◌∷◌, ◌++◌,
}
use echo_mcp.Failure.{Result, ok, err}
use echo_mcp.State.{Observation, Store, configure_response_rule as store_rule, record_observation}
use echo_mcp.State.Matched.{match-configured}
use echo_mcp.HttpServer.Wire.{is_informational, wire_status}
use echo_mcp.HttpServer.{
  WriterCall, set_header, write_header, write, is_sendable, record_answer, configured_calls,
  respond, handle_data_plane,
}
use echo_mcp.Contract.Document.{Codec}
use echo_mcp.Control.Files.{Files}
use echo_mcp.Control.Plane.{LocalPlane}
use echo_mcp.Control.Tools.Inputs.{ConfigureBehaviorInput, rule_of}
use echo_mcp.Control.Tools.Outputs.{ConfigureBehaviorOutput, ObservationOutput}
use echo_mcp.Control.Tools.Reports.{observation_output, observation_outputs}
use echo_mcp.Control.Tools.Handlers.{
  ToolAnswer, done, Handled, configure_behavior, get_observations,
}
use echo_mcp.Control.Tools.Checked.{IsStatus, validate_configure_behavior_iff}
use echo_mcp.Control.Tools.Answers.{IsReported, judged, configure_behavior-Answered}

module _ (files : Files) (codec : Codec) (p : LocalPlane) (input : ConfigureBehaviorInput) where
  reported-stored :
      (r : Result (List String)) (a : ToolAnswer ConfigureBehaviorOutput) (q : LocalPlane)
      → a.is_error ≡ false
      → IsReported files codec p input r a q
      → q.store ≡ store_rule p.store (rule_of input)
  reported-stored (ok warnings) a q e h = h.stored
  reported-stored (err e) a q f h = cc (h.marked, f)

  answer-is_error :
      (a : ToolAnswer ConfigureBehaviorOutput) (out : ConfigureBehaviorOutput)
      (h : Handled ConfigureBehaviorOutput) (q : LocalPlane)
      → h.0 ≡ ok a
      → h ≡ (ok (done out), q)
      → a.is_error ≡ false
  answer-is_error a out h q e f = same_answer a (done out) (sym e ∙ ap (λ x. x.0) f)
    where
      same_answer :
          (x y : ToolAnswer ConfigureBehaviorOutput) → ok x ≡ ok y → x.is_error ≡ y.is_error
      same_answer x y k = cc k

  sendable_status : (z : ℤ) → IsStatus z → is_sendable z ≡ true
  sendable_status (pos n) h = ground (arith, h)
  sendable_status (negsuc n) h = absurd h

  -- A tool that reports success has stored the rule of its input, which the check has passed.
  pub configured-stored :
      (q : LocalPlane) (out : ConfigureBehaviorOutput)
      → configure_behavior files codec p input ≡ (ok (done out), q)
      → (q.store ≡ store_rule p.store (rule_of input)) × (is_sendable input.status_code ≡ true)
  configured-stored q out h = elim (configure_behavior-Answered files codec p input) [
    | inl (e, invalid, refused) ↦ cc (ap (λ x. x.0) (sym refused ∙ h))
    | inr (a, valid, answered, reported) ↦ (
      reported-stored (judged files codec p input) a q
          (answer-is_error a out (configure_behavior files codec p input) q answered h)
          (rw⁻¹ (ap (λ x. x.1) h) reported),
      sendable_status input.status_code ((validate_configure_behavior_iff input).0 valid).status,
    )
  ]

  observation_outputs-append :
      (os : List Observation) (o : Observation)
      → observation_outputs (os ++ o ∷ []) ≡ observation_outputs os ++ observation_output o ∷ []
  unfolding observation_outputs
  observation_outputs-append [] o = refl
  observation_outputs-append (x ∷ os) o =
      ap (λ l. observation_output x ∷ l) (observation_outputs-append os o)

  -- The calls of the data plane's handler that answer with what was configured.
  abbrev pub Serves : List WriterCall → Type 0
  Serves calls =
      ((input.content_type ≡ "") × (calls ≡ write_header input.status_code ∷ write input.body ∷ []))
      ⊎ ((input.content_type ≢ "")
          × (calls
              ≡ set_header "Content-Type" input.content_type
                ∷ write_header input.status_code
                ∷ write input.body
                ∷ []))

  -- What get_observations shows of the request.
  abbrev pub evidence : ObservationOutput
  evidence = record {
    method = input.method;
    path = input.path;
    matched_behavior_id = input.behavior_id;
    matched_on = "method" ∷ "path" ∷ [];
    outcome_type = "http_response";
    status_code = input.status_code;
  }

  -- An answer to a request, and what is shown of it.
  pub record IsServed (calls : List WriterCall) (after : Store) : Type 0 where
    pub served : Serves calls
    pub received :
        wire_status calls
        ≡ some (if is_informational input.status_code then pos 200 else input.status_code)
    pub shown :
        (get_observations (record p { store = after })).observations
        ≡ (get_observations p).observations ++ evidence ∷ []

  configured-Serves :
      is_sendable input.status_code ≡ true → Serves (configured_calls (rule_of input))
  unfolding configured_calls
  configured-Serves h = elim (Bool-cases (input.content_type == "")) [
    | inl e ↦ inl ((eq_iff input.content_type "").0 e, rw (e, h) refl)
    | inr e ↦ inr (λ k. cc (e, (eq_iff input.content_type "").1 k), rw (e, h) refl)
  ]

  Serves-received :
      (calls : List WriterCall)
      → is_sendable input.status_code ≡ true
      → Serves calls
      → wire_status calls
        ≡ some (if is_informational input.status_code then pos 200 else input.status_code)
  unfolding wire_status
  Serves-received calls h (inl (e, made)) = elim (Bool-cases (is_informational input.status_code)) [
    | inl f ↦ rw (made, h, f) refl
    | inr f ↦ rw (made, h, f) refl
  ]
  Serves-received calls h (inr (e, made)) = elim (Bool-cases (is_informational input.status_code)) [
    | inl f ↦ rw (made, h, f) refl
    | inr f ↦ rw (made, h, f) refl
  ]

  stored-IsServed :
      (s : Store)
      → s ≡ store_rule p.store (rule_of input)
      → is_sendable input.status_code ≡ true
      → IsServed
          (handle_data_plane s input.method input.path).0
          (handle_data_plane s input.method input.path).1
  unfolding store_rule handle_data_plane respond record_answer record_observation get_observations
  stored-IsServed s e h =
      let serves = configured-Serves h in
      rw (e, match-configured p.store (rule_of input))
        (record {
          served = serves;
          received = Serves-received (configured_calls (rule_of input)) h serves;
          shown = rw (h) (observation_outputs-append p.store.observations _);
        })

-- If configure_behavior reports that it configured a behavior, then the handler answers the next
-- request with its method and path by the configured content type, if there is one, status and body;
-- the client receives that status, or 200 if it is informational; and get_observations then shows
-- what it showed before and, last, that request with the behavior's identifier, its method and path
-- and the configured status.
pub configure_behavior-get_observations :
    (files : Files) (codec : Codec) (p q : LocalPlane) (input : ConfigureBehaviorInput)
    (out : ConfigureBehaviorOutput)
    → configure_behavior files codec p input ≡ (ok (done out), q)
    → IsServed files codec p input
        (handle_data_plane q.store input.method input.path).0
        (handle_data_plane q.store input.method input.path).1
configure_behavior-get_observations files codec p q input out h =
    let stored = configured-stored files codec p input q out h in
    stored-IsServed files codec p input q.store stored.0 stored.1
