-- ===== src/Control/Interleaved/Guarded.antt =====
-- internal/control: strict mode while calls interleave, from a contract that is loaded before the calls
-- begin.
use mathlib.Core.Path.{subst}
use echo_mcp.Prelude.{
  some-injective, String, ◌≡◌, refl, sym, ◌∙◌, ◌⊎◌, inl, inr, Option, none, some, List, [], ◌∷◌,
  All,
}
use echo_mcp.Failure.{Result, ok, err}
use echo_mcp.State.{ResponseRule, match_response_rule, has_response_rule}
use echo_mcp.State.Matched.{match_rule-some}
use echo_mcp.Webhook.{Delivery}
use echo_mcp.Contract.Document.{Codec}
use echo_mcp.Contract.Rule.Accepted.{IsAccepted, IsFuelled}
use echo_mcp.Contract.Rule.Judged.{validate_response_rule_iff}
use echo_mcp.Control.Files.{Files}
use echo_mcp.Control.Mode.{mode_strict}
use echo_mcp.Control.Manager.{ActiveContract, BehaviorValidationOverride}
use echo_mcp.Control.Plane.{LocalPlane, validated, sent}
use echo_mcp.Control.Plane.Strict.{effective_mode-strict, validated-strict}
use echo_mcp.Control.Plane.Calls.{
  configure, load_contract, read_status, unload_contract, send_event, reset_plane, request,
  IsOrdinary,
}
use echo_mcp.Control.Interleaved.{
  Task, request_arrived, answering, configure_called, storing, load_called, loading, unload_called,
  unloading, sending, recording, status_called, reset_called, matched_task, validated_task,
  sent_task, turn, idle, Happening, arrives, runs, run,
}
use echo_mcp.Control.Interleaved.Invariant.{IsKept, Begins, run-keeps}
use echo_mcp.Control.Interleaved.Strict.{
  IsUnloaded, Accepts, PlaneGuarded, TaskGuarded, plane-kept, other-kept,
}

module _ (codec : Codec) (a : ActiveContract) (files : Files)
    (strict : a.validation_mode ≡ mode_strict) where
  matched-guarded :
      (p : LocalPlane) (method path : String) (o : Option ResponseRule) (u : Task)
      → matched_task method path o ≡ some u
      → TaskGuarded codec a p u
  matched-guarded p method path none u e = cc e
  matched-guarded p method path (some rule) u e =
      subst (TaskGuarded codec a p) (some-injective (answering method path rule) u e) tt

  sent-guarded :
      (p : LocalPlane) (r : Result Delivery) (u : Task)
      → sent_task r ≡ some u
      → TaskGuarded codec a p u
  sent-guarded p (err g) u e = cc e
  sent-guarded p (ok d) u e = subst (TaskGuarded codec a p) (some-injective (recording d) u e) tt

  -- What the validations passed is accepted by the contract, if it is still there.
  validated-Accepts :
      (p : LocalPlane) (i : PlaneGuarded codec a p) (rule : ResponseRule)
      (override : BehaviorValidationOverride) (warnings : List String)
      → IsOrdinary (configure rule override)
      → validated codec p rule override ≡ ok warnings
      → (p.contract_manager.active ≡ none) ⊎ Accepts codec a rule
  validated-Accepts p (inl gone) rule override warnings o v = inl gone
  validated-Accepts p (inr (here, stored)) rule override warnings o v = inr (
      validated-strict codec p a rule override warnings here
        (effective_mode-strict codec a override strict o) v)

  validated-guarded :
      (p : LocalPlane) (i : PlaneGuarded codec a p) (rule : ResponseRule)
      (override : BehaviorValidationOverride) (r : Result (List String)) (u : Task)
      → IsOrdinary (configure rule override)
      → validated codec p rule override ≡ r
      → validated_task rule r ≡ some u
      → TaskGuarded codec a p u
  validated-guarded p i rule override (err g) u o v e = cc e
  validated-guarded p i rule override (ok warnings) u o v e =
      subst (TaskGuarded codec a p) (some-injective (storing rule warnings) u e)
        (validated-Accepts p i rule override warnings o v)

  rest-kept :
      (p : LocalPlane) (t u : Task)
      → PlaneGuarded codec a p
      → TaskGuarded codec a p t
      → (turn files codec p t).0 ≡ some u
      → TaskGuarded codec a (turn files codec p t).1 u
  unfolding turn
  rest-kept p (request_arrived method path) u i j e =
      matched-guarded p method path (match_response_rule p.store method path) u e
  rest-kept p (configure_called rule override) u i j e =
      validated-guarded p i rule override (validated codec p rule override) u j refl e
  rest-kept p (load_called now command) u i j e = absurd j
  rest-kept p (unload_called force) u i j e =
      subst (TaskGuarded codec a p)
        (some-injective (unloading force (has_response_rule p.store)) u e) tt
  rest-kept p (sending event) u i j e = sent-guarded p (sent p.webhook_sender event) u e
  rest-kept p (answering method path rule) u i j e = cc e
  rest-kept p (storing rule warnings) u i j e = cc e
  rest-kept p (loading now command b) u i j e = cc e
  rest-kept p (unloading force b) u i j e = cc e
  rest-kept p (recording d) u i j e = cc e
  rest-kept p status_called u i j e = cc e
  rest-kept p reset_called u i j e = cc e

  kept : IsKept files codec (PlaneGuarded codec a) (TaskGuarded codec a)
  kept = record {
    plane = plane-kept codec a files;
    rest = rest-kept;
    other = λ p t u i j k. other-kept codec a files p t u j k;
  }

  IsUnloaded-Begins :
      (hs : List Happening)
      → All IsUnloaded hs
      → All (Begins files codec (PlaneGuarded codec a) (TaskGuarded codec a)) hs
  IsUnloaded-Begins [] c = tt
  IsUnloaded-Begins (h ∷ hs) c = (begins h c.0, IsUnloaded-Begins hs c.1)
    where
      begins :
          (h : Happening)
          → IsUnloaded h
          → Begins files codec (PlaneGuarded codec a) (TaskGuarded codec a) h
      begins (runs n) k = tt
      begins (arrives (configure rule override)) k = λ p. k
      begins (arrives (load_contract now command)) k = absurd k
      begins (arrives read_status) k = λ p. tt
      begins (arrives (unload_contract force)) k = λ p. tt
      begins (arrives (send_event event)) k = λ p. tt
      begins (arrives reset_plane) k = λ p. tt
      begins (arrives (request method path)) k = λ p. tt

  guarded-Accepts :
      (p : LocalPlane) (b : ActiveContract) (method path : String) (rule : ResponseRule)
      → PlaneGuarded codec a p
      → p.contract_manager.active ≡ some b
      → match_response_rule p.store method path ≡ some rule
      → (a ≡ b) × Accepts codec a rule
  unfolding match_response_rule
  guarded-Accepts p b method path rule (inl gone) h m = cc (gone, h)
  guarded-Accepts p b method path rule (inr (here, stored)) h m = (
    some-injective a b (sym here ∙ h),
    stored rule (match_rule-some p.store.response_rule method path rule m).0,
  )

-- If a strict contract is active and no rule is stored when the calls begin, if no contract is loaded
-- by them and no validation is overridden but by strict, then, however their turns interleave, a
-- contract that is active is the same one, and a rule that matches a request is one that it
-- accepts, for a document that bounds its schemas and references.
pub run-IsAccepted :
    (files : Files) (codec : Codec) (p : LocalPlane) (a b : ActiveContract) (hs : List Happening)
    → p.store.response_rule ≡ none
    → p.contract_manager.active ≡ some a
    → a.validation_mode ≡ mode_strict
    → All IsUnloaded hs
    → (run files codec (idle p) hs).plane.contract_manager.active ≡ some b
    → IsFuelled codec a.openapi
    → (method path : String) (rule : ResponseRule)
    → match_response_rule (run files codec (idle p) hs).plane.store method path ≡ some rule
    → (a ≡ b) × IsAccepted codec a.openapi rule
run-IsAccepted files codec p a b hs empty active strict loads last fuelled method path rule m =
    let held =
      run-keeps files codec (PlaneGuarded codec a) (TaskGuarded codec a) (kept codec a files strict)
        (idle p) hs (IsUnloaded-Begins codec a files strict hs loads)
        (inr (active, λ r e. cc (empty, e)), tt) in
    let found =
      guarded-Accepts codec a files strict (run files codec (idle p) hs).plane b method path rule
        held.0 last m in
    (found.0, (validate_response_rule_iff codec a.openapi fuelled rule).1.0 found.1)
