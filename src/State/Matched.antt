-- ===== src/State/Matched.antt =====
-- internal/state/store.go: what MatchResponseRule finds.
use echo_mcp.Prelude.{String, ◌≡◌, Option, none, some, arith, eq_iff}
use echo_mcp.State.{ResponseRule, Store, match_rule, match_response_rule, configure_response_rule}

-- A rule that matches is the one that is stored, and has the method and the path.
pub match_rule-some :
    (o : Option ResponseRule) (method path : String) (rule : ResponseRule)
    → match_rule o method path ≡ some rule
    → (o ≡ some rule) × (method ≡ rule.method) × (path ≡ rule.path)
unfolding match_rule
match_rule-some none method path rule h = cc h
match_rule-some (some r) method path rule h =
    (ground arith, ground (arith, eq_iff r.method method), ground (arith, eq_iff r.path path))

-- A rule that was configured matches its own method and path.
pub match-configured :
    (s : Store) (rule : ResponseRule)
    → match_response_rule (configure_response_rule s rule) rule.method rule.path ≡ some rule
unfolding match_response_rule match_rule configure_response_rule
match-configured s rule = ground (arith, eq_iff rule.method rule.method, eq_iff rule.path rule.path)
