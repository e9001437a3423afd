-- ===== src/State/History.antt =====
-- internal/state/store.go as a client sees it: a store after a sequence of calls.
use mathlib.Core.List.{append_assoc, append-nil}
use echo_mcp.Prelude.{
  ℕ, suc, ◌+◌, ◌%◌, ◌<◌, ◌≡◌, refl, sym, Bool, true, false, Option, none, some, List, [], ◌∷◌, ◌++◌,
  arith, if◌then◌else◌,
}
use echo_mcp.State.{
  ResponseRule, Observation, WebhookDeliveryObservation, Store, new, uint64_mod, reset,
  configure_response_rule, record_observation, record_webhook_delivery_observation,
}

-- The calls that change a store, with their arguments.
pub data Call : Type 0 where
  reset_call : Call
  configure : ResponseRule → Call
  observe : Observation → Call
  deliver : WebhookDeliveryObservation → Call

unfoldable pub apply : Store → Call → Store
unfolding reset configure_response_rule record_observation record_webhook_delivery_observation
apply s reset_call = reset s
apply s (configure rule) = configure_response_rule s rule
apply s (observe o) = record_observation s o
apply s (deliver o) = record_webhook_delivery_observation s o

-- Calls in the order in which the mutex admits them.
unfoldable pub run : Store → List Call → Store
unfolding apply
run s [] = s
run s (c ∷ cs) = run (apply s c) cs

-- The specification: it looks at the calls and at no store.
abbrev is_reset : Call → Bool
is_reset reset_call = true
is_reset _ = false

abbrev has_reset : List Call → Bool
has_reset [] = false
has_reset (c ∷ cs) = if is_reset c then true else has_reset cs

pub since_reset : List Call → List Call
since_reset [] = []
since_reset (c ∷ cs) =
    let later = since_reset cs in if has_reset cs then later else if is_reset c then cs else c ∷ cs

pub observed : List Call → List Observation
observed [] = []
observed (observe o ∷ cs) = o ∷ observed cs
observed (_ ∷ cs) = observed cs

pub delivered : List Call → List WebhookDeliveryObservation
delivered [] = []
delivered (deliver o ∷ cs) = o ∷ delivered cs
delivered (_ ∷ cs) = delivered cs

-- The rule of the last configure call, or the given one.
pub configured : Option ResponseRule → List Call → Option ResponseRule
configured r [] = r
configured r (configure rule ∷ cs) = configured (some rule) cs
configured r (_ ∷ cs) = configured r cs

pub resets : List Call → ℕ
resets [] = 0
resets (reset_call ∷ cs) = suc (resets cs)
resets (_ ∷ cs) = resets cs

since_reset_of_none : (cs : List Call) → has_reset cs ≡ false → since_reset cs ≡ cs
unfolding since_reset
since_reset_of_none [] h = refl
since_reset_of_none (reset_call ∷ cs) h = cc
since_reset_of_none (configure r ∷ cs) h = ground arith
since_reset_of_none (observe o ∷ cs) h = ground arith
since_reset_of_none (deliver o ∷ cs) h = ground arith

observations-run :
    (s : Store) (cs : List Call)
    → (run s cs).observations
      ≡ (if has_reset cs then observed (since_reset cs) else s.observations ++ observed cs)
unfolding run since_reset observed
observations-run s [] = sym (append-nil s.observations)
observations-run s (reset_call ∷ cs) = ground (arith, observations-run (apply s reset_call) cs)
observations-run s (configure r ∷ cs) = ground (arith, observations-run (apply s (configure r)) cs)
observations-run s (observe o ∷ cs) = ground (
  arith,
  observations-run (apply s (observe o)) cs,
  append_assoc s.observations (o ∷ []) (observed cs),
)
observations-run s (deliver o ∷ cs) = ground (arith, observations-run (apply s (deliver o)) cs)

deliveries-run :
    (s : Store) (cs : List Call)
    → (run s cs).webhook_deliveries
      ≡ (if has_reset cs then delivered (since_reset cs) else s.webhook_deliveries ++ delivered cs)
unfolding run since_reset delivered
deliveries-run s [] = sym (append-nil s.webhook_deliveries)
deliveries-run s (reset_call ∷ cs) = ground (arith, deliveries-run (apply s reset_call) cs)
deliveries-run s (configure r ∷ cs) = ground (arith, deliveries-run (apply s (configure r)) cs)
deliveries-run s (observe o ∷ cs) = ground (arith, deliveries-run (apply s (observe o)) cs)
deliveries-run s (deliver o ∷ cs) = ground (
  arith,
  deliveries-run (apply s (deliver o)) cs,
  append_assoc s.webhook_deliveries (o ∷ []) (delivered cs),
)

rule-run :
    (s : Store) (cs : List Call)
    → (run s cs).response_rule
      ≡ (if has_reset cs then configured none (since_reset cs) else configured s.response_rule cs)
unfolding run since_reset configured
rule-run s [] = refl
rule-run s (reset_call ∷ cs) = ground (arith, rule-run (apply s reset_call) cs)
rule-run s (configure r ∷ cs) = ground (arith, rule-run (apply s (configure r)) cs)
rule-run s (observe o ∷ cs) = ground (arith, rule-run (apply s (observe o)) cs)
rule-run s (deliver o ∷ cs) = ground (arith, rule-run (apply s (deliver o)) cs)

generation-run :
    (s : Store) (cs : List Call)
    → s.generation < uint64_mod
    → (run s cs).generation ≡ (s.generation + resets cs) % uint64_mod
unfolding run resets
generation-run s [] h = omega arith
generation-run s (reset_call ∷ cs) h = omega (arith, generation-run (apply s reset_call) cs)
generation-run s (configure r ∷ cs) h = generation-run (apply s (configure r)) cs h
generation-run s (observe o ∷ cs) h = generation-run (apply s (observe o)) cs h
generation-run s (deliver o ∷ cs) h = generation-run (apply s (deliver o)) cs h

-- What the specification says a new store holds after the calls.
abbrev pub specified : List Call → Store
specified cs = record {
  generation = resets cs % uint64_mod;
  response_rule = configured none (since_reset cs);
  observations = observed (since_reset cs);
  webhook_deliveries = delivered (since_reset cs);
}

-- After any sequence of calls on a new store, in whatever order the mutex admitted them, the rule
-- is the last one configured since the last reset (none if there is none), the observations and
-- the webhook deliveries are exactly those recorded since the last reset, in order, and the
-- generation counts the resets modulo 2 ^ 64.
pub run-eq-specified : (cs : List Call) → run new cs ≡ specified cs
run-eq-specified cs = ground (
  arith,
  generation-run new cs (omega arith),
  rule-run new cs,
  observations-run new cs,
  deliveries-run new cs,
  since_reset_of_none cs,
)
