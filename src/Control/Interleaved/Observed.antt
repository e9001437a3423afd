-- ===== src/Control/Interleaved/Observed.antt =====
-- internal/httpserver/server.go and internal/state/store.go: what observations are evidence of, also
-- when calls interleave between a request's match and its record.
use mathlib.Core.Path.{subst}
use echo_mcp.Prelude.{
  some-injective, Bool-cases, inl, inr, true, String, ◌≡◌, refl, Option, none, some, List, [], ◌∷◌,
  ◌++◌, All,
}
use echo_mcp.Failure.{Result, ok, err}
use echo_mcp.State.{
  ResponseRule, Observation, match_response_rule, has_response_rule, reset as reset_store,
  configure_response_rule as store_rule, record_observation, record_webhook_delivery_observation,
}
use echo_mcp.State.Matched.{match_rule-some}
use echo_mcp.HttpServer.{is_sendable, record_answer, observation_for}
use echo_mcp.Webhook.{Delivery}
use echo_mcp.Contract.Document.{Codec}
use echo_mcp.Control.Files.{Files}
use echo_mcp.Control.Plane.{
  LocalPlane, validated, store_if_valid, contract_status, sent, record_delivery, reset,
}
use echo_mcp.Control.Plane.Calls.{
  configure, load_contract, read_status, unload_contract, send_event, reset_plane, request,
}
use echo_mcp.Control.Interleaved.{
  Task, request_arrived, answering, configure_called, storing, load_called, loading, unload_called,
  unloading, sending, recording, status_called, reset_called, matched_task, validated_task,
  sent_task, turn, idle, Happening, arrives, runs, run,
}
use echo_mcp.Control.Interleaved.Invariant.{IsKept, Begins, run-keeps}

module _ (P : ResponseRule → Type 0) where
  -- The observation of a request that a rule with the property answered.
  abbrev pub IsEvidence : Observation → Type 0
  IsEvidence o =
      (rule : ResponseRule) × P rule
      × (is_sendable rule.status_code ≡ true)
      × (o ≡ observation_for rule.method rule.path rule)

  abbrev PlaneHas : LocalPlane → Type 0
  PlaneHas p =
      ((rule : ResponseRule) → p.store.response_rule ≡ some rule → P rule)
      × All IsEvidence p.store.observations

  abbrev TaskHas : Task → Type 0
  TaskHas (answering method path rule) = P rule × (method ≡ rule.method) × (path ≡ rule.path)
  TaskHas (configure_called rule override) = P rule
  TaskHas (storing rule warnings) = P rule
  TaskHas _ = Unit

  IsEvidence-append :
      (os : List Observation) (o : Observation)
      → All IsEvidence os
      → IsEvidence o
      → All IsEvidence (os ++ o ∷ [])
  IsEvidence-append [] o h e = (e, tt)
  IsEvidence-append (x ∷ os) o h e = (h.0, IsEvidence-append os o h.1 e)

  module _ (files : Files) (codec : Codec) where
    J : LocalPlane → Task → Type 0
    J p t = TaskHas t

    plane-kept :
        (p : LocalPlane) (t : Task) → PlaneHas p → TaskHas t → PlaneHas (turn files codec p t).1
    unfolding turn record_answer record_observation store_if_valid store_rule record_delivery
        record_webhook_delivery_observation contract_status reset reset_store
    plane-kept p (request_arrived method path) i j = i
    plane-kept p (answering method path rule) i j =
        elim (Bool-cases (is_sendable rule.status_code)) [
          | inl e ↦
              rw (e) (
                i.0,
                IsEvidence-append p.store.observations _ i.1 (rule, j.0, e, rw (j.1, j.2) refl),
              )
          | inr e ↦ rw (e) i
        ]
    plane-kept p (configure_called rule override) i j = i
    plane-kept p (storing rule warnings) i j = ((λ r e. subst P (some-injective rule r e) j), i.1)
    plane-kept p (load_called now command) i j = i
    plane-kept p (loading now command b) i j = i
    plane-kept p (unload_called force) i j = i
    plane-kept p (unloading force b) i j = i
    plane-kept p (sending event) i j = i
    plane-kept p (recording d) i j = i
    plane-kept p status_called i j = i
    plane-kept p reset_called i j = ((λ r e. cc e), tt)

    matched-has :
        (method path : String) (o : Option ResponseRule) (u : Task)
        → ((rule : ResponseRule)
            → o ≡ some rule
            → P rule × (method ≡ rule.method) × (path ≡ rule.path))
        → matched_task method path o ≡ some u
        → TaskHas u
    matched-has method path none u f e = cc e
    matched-has method path (some rule) u f e =
        subst TaskHas (some-injective (answering method path rule) u e) (f rule refl)

    validated-has :
        (rule : ResponseRule) (r : Result (List String)) (u : Task)
        → P rule
        → validated_task rule r ≡ some u
        → TaskHas u
    validated-has rule (err g) u j e = cc e
    validated-has rule (ok warnings) u j e =
        subst TaskHas (some-injective (storing rule warnings) u e) j

    sent-has : (r : Result Delivery) (u : Task) → sent_task r ≡ some u → TaskHas u
    sent-has (err g) u e = cc e
    sent-has (ok d) u e = subst TaskHas (some-injective (recording d) u e) tt

    rest-kept :
        (p : LocalPlane) (t u : Task)
        → PlaneHas p
        → TaskHas t
        → (turn files codec p t).0 ≡ some u
        → TaskHas u
    unfolding turn match_response_rule
    rest-kept p (request_arrived method path) u i j e =
        matched-has method path (match_response_rule p.store method path) u
          (λ rule m.
            let here = match_rule-some p.store.response_rule method path rule m in
            (i.0 rule here.0, here.1, here.2))
          e
    rest-kept p (configure_called rule override) u i j e =
        validated-has rule (validated codec p rule override) u j e
    rest-kept p (load_called now command) u i j e =
        subst TaskHas (some-injective (loading now command (has_response_rule p.store)) u e) tt
    rest-kept p (unload_called force) u i j e =
        subst TaskHas (some-injective (unloading force (has_response_rule p.store)) u e) tt
    rest-kept p (sending event) u i j e = sent-has (sent p.webhook_sender event) u e
    rest-kept p (answering method path rule) u i j e = cc e
    rest-kept p (storing rule warnings) u i j e = cc e
    rest-kept p (loading now command b) u i j e = cc e
    rest-kept p (unloading force b) u i j e = cc e
    rest-kept p (recording d) u i j e = cc e
    rest-kept p status_called u i j e = cc e
    rest-kept p reset_called u i j e = cc e

    kept : IsKept files codec PlaneHas J
    unfolding J
    kept = record { plane = plane-kept; rest = rest-kept; other = λ p t u i j k. k }

  -- Each rule that arrives to be configured has the property.
  abbrev pub Configures : Happening → Type 0
  Configures (arrives (configure rule override)) = P rule
  Configures _ = Unit

  begins :
      (files : Files) (codec : Codec) (h : Happening)
      → Configures h
      → Begins files codec PlaneHas (J files codec) h
  unfolding J
  begins files codec (runs n) c = tt
  begins files codec (arrives (configure rule override)) c = λ p. c
  begins files codec (arrives (load_contract now command)) c = λ p. tt
  begins files codec (arrives read_status) c = λ p. tt
  begins files codec (arrives (unload_contract force)) c = λ p. tt
  begins files codec (arrives (send_event event)) c = λ p. tt
  begins files codec (arrives reset_plane) c = λ p. tt
  begins files codec (arrives (request method path)) c = λ p. tt

  Configures-Begins :
      (files : Files) (codec : Codec) (hs : List Happening)
      → All Configures hs
      → All (Begins files codec PlaneHas (J files codec)) hs
  Configures-Begins files codec [] c = tt
  Configures-Begins files codec (h ∷ hs) c =
      (begins files codec h c.0, Configures-Begins files codec hs c.1)

-- However calls interleave, from a plane with no rule and no observations, and whatever property each
-- rule has that is given to be configured: each observation is that of a request that one of these
-- rules answered with a status from 100 to 999, with the rule's method, path, identifier and status.
pub run-IsEvidence :
    (files : Files) (codec : Codec) (P : ResponseRule → Type 0) (p : LocalPlane)
    (hs : List Happening)
    → p.store.response_rule ≡ none
    → p.store.observations ≡ []
    → All (Configures P) hs
    → All (IsEvidence P) (run files codec (idle p) hs).plane.store.observations
unfolding J
run-IsEvidence files codec P p hs e f c =
    (run-keeps files codec (PlaneHas P) (J P files codec) (kept P files codec) (idle p) hs
      (Configures-Begins P files codec hs c) (((λ rule r. cc (e, r)), rw (f) tt), tt)).0.1
