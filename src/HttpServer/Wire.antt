-- ===== src/HttpServer/Wire.antt =====
-- internal/httpserver/server.go: what a client of the data plane receives, and what the store records
-- of it. `wire_status` is net/http's documented reading of a handler's calls: the first status that
-- is not informational is sent, a body with no such status in front of it is sent with 200, and so
-- is the reply of a handler that sets none. A handler that panics before a status is sent closes the
-- connection.
use echo_mcp.Prelude.{
  Option, none, Bool-cases, ◌==◌, ◌∙◌, String, ◌≡◌, refl, ◌≢◌, ◌⊎◌, inl, inr, Bool, true, false,
  ◌&&◌, not, some, List, [], ◌∷◌, arith, eq_iff, ℤ, pos, negsuc, leb, eqb, if◌then◌else◌,
  Option-cases,
}
use echo_mcp.State.{ResponseRule, Store, match_response_rule, record_observation}
use echo_mcp.HttpServer.{
  is_sendable, record_answer, WriterCall, set_header, write_header, write, configured_calls,
  observation_for, respond, handle_data_plane,
}

-- 1xx, but not 101 (Switching Protocols), which ends the header.
abbrev pub is_informational : ℤ → Bool
is_informational (pos n) = leb 100 n && leb n 199 && not (eqb n 101)
is_informational (negsuc n) = false

-- The status that the client receives, if it receives one.
unfoldable pub wire_status : List WriterCall → Option ℤ
wire_status [] = some (pos 200)
wire_status (set_header key val ∷ calls) = wire_status calls
wire_status (write_header code ∷ calls) =
    if not (is_sendable code)
    then none
    else if is_informational code
    then wire_status calls
    else some code
wire_status (write body ∷ calls) = some (pos 200)

wire_status-configured :
    (r : ResponseRule)
    → wire_status (configured_calls r) ≡ (
        if not (is_sendable r.status_code)
        then none
        else if is_informational r.status_code
        then some (pos 200)
        else some r.status_code)
unfolding wire_status configured_calls
wire_status-configured r = elim (Bool-cases (r.content_type == "")) [
  | inl e ↦ rw (e) (status_only r)
  | inr e ↦ rw (e) (status_only r)
]
  where
    status_only :
        (r : ResponseRule)
        → wire_status (
            write_header r.status_code
            ∷ (if is_sendable r.status_code then write r.body ∷ [] else []))
          ≡ (if not (is_sendable r.status_code)
              then none
              else if is_informational r.status_code
              then some (pos 200)
              else some r.status_code)
    status_only r = elim (Bool-cases (is_sendable r.status_code)) [
      | inl e ↦ rw (e) refl
      | inr e ↦ rw (e) refl
    ]

-- A request is answered by the stored rule: its method and its path are the rule's.
pub record IsMatched (s : Store) (method path : String) (r : ResponseRule) : Type 0 where
  pub stored : s.response_rule ≡ some r
  pub same_method : r.method ≡ method
  pub same_path : r.path ≡ path

match_rule-eq-some :
    (s : Store) (method path : String) (r : ResponseRule)
    → match_response_rule s method path ≡ some r
    → IsMatched s method path r
unfolding match_response_rule
match_rule-eq-some s method path r h = elim (Option-cases s.response_rule) [
  | inl missing ↦ absurd (ground arith)
  | inr (q, stored) ↦ record {
    stored = ground arith;
    same_method = ground (arith, eq_iff r.method method);
    same_path = ground (arith, eq_iff r.path path);
  }
]

match_rule_of_IsMatched :
    (s : Store) (method path : String) (r : ResponseRule)
    → IsMatched s method path r
    → match_response_rule s method path ≡ some r
unfolding match_response_rule
match_rule_of_IsMatched s method path r m =
    ground (arith, m.stored, m.same_method, m.same_path, eq_iff r.method method, eq_iff r.path path)

pub record_answer-rule :
    (s : Store) (method path : String) (r : ResponseRule)
    → (record_answer s method path r).response_rule ≡ s.response_rule
unfolding record_answer record_observation
record_answer-rule s method path r = elim (Bool-cases (is_sendable r.status_code)) [
  | inl e ↦ rw (e) refl
  | inr e ↦ rw (e) refl
]

-- What comes of a rule that answers, by its status: the client's status and the store.
pub record IsReply (s : Store) (method path : String) (r : ResponseRule) (status : Option ℤ)
    (s' : Store) : Type 0 where
  pub final :
      is_sendable r.status_code ≡ true
      → is_informational r.status_code ≡ false
      → (status ≡ some r.status_code) × (s' ≡ record_observation s (observation_for method path r))
  pub informational :
      is_sendable r.status_code ≡ true
      → is_informational r.status_code ≡ true
      → (status ≡ some (pos 200)) × (s' ≡ record_observation s (observation_for method path r))
  pub panicking : is_sendable r.status_code ≡ false → (status ≡ none) × (s' ≡ s)

answer-IsReply :
    (s : Store) (method path : String) (r : ResponseRule)
    → IsReply s method path r (wire_status (configured_calls r)) (record_answer s method path r)
unfolding record_answer
answer-IsReply s method path r = record {
  final = λ e f. (wire_status-configured r ∙ rw (e, f) refl, rw (e) refl);
  informational = λ e f. (wire_status-configured r ∙ rw (e, f) refl, rw (e) refl);
  panicking = λ e. (wire_status-configured r ∙ rw (e) refl, rw (e) refl);
}

-- The two ways in which a request ends.
abbrev pub Answered : Store → String → String → List WriterCall → Store → Type 0
Answered s method path calls s' =
    ((r : ResponseRule) × IsMatched s method path r
      × IsReply s method path r (wire_status calls) s')
    ⊎ (((r : ResponseRule) → ¬ IsMatched s method path r)
        × (wire_status calls ≡ some (pos 501))
        × (s' ≡ s))

-- A request ends in one of two ways. A rule is stored that has its method and path: a final status
-- from 200 to 999, or 101, is what the client receives, and exactly one observation is recorded, of
-- this request, with the rule's id and that same status; with another status from 100 to 199 the
-- client receives 200, and the rule's status is observed; and with any other the handler panics, the
-- client receives no status and the store is unchanged. Or no rule matches, the client receives 501
-- and the store is unchanged.
pub handle_data_plane-Answered :
    (s : Store) (method path : String)
    → Answered s method path (handle_data_plane s method path).0 (handle_data_plane s method path).1
unfolding handle_data_plane
handle_data_plane-Answered s method path = elim (Option-cases (match_response_rule s method path)) [
  | inl missed ↦ inr (
    λ r m. cc (missed, match_rule_of_IsMatched s method path r m),
    rw (missed, respond) (unfold wire_status in refl),
    rw (missed, respond) refl,
  )
  | inr (r, matched) ↦
      let m = match_rule-eq-some s method path r matched in
      inl (r, m, rw (matched, respond) (answer-IsReply s method path r))
]

informational-sendable : (z : ℤ) → is_informational z ≡ true → is_sendable z ≡ true
informational-sendable (pos n) h = ground (arith, h)
informational-sendable (negsuc n) h = cc h

-- A matched rule with an informational status is observed with that status, while the client
-- receives 200.
pub observation-ne-wire_status :
    (s : Store) (method path : String) (r : ResponseRule)
    → IsMatched s method path r
    → is_informational r.status_code ≡ true
    → (wire_status (handle_data_plane s method path).0 ≡ some (pos 200))
      × ((handle_data_plane s method path).1 ≡ record_observation s (observation_for method path r))
      × ((observation_for method path r).outcome_status_code ≢ pos 200)
unfolding handle_data_plane
observation-ne-wire_status s method path r m informational =
    let matched = match_rule_of_IsMatched s method path r m in
    let sendable = informational-sendable r.status_code informational in
    let reply = (answer-IsReply s method path r).informational sendable informational in
    (rw (matched, respond) reply.0, rw (matched, respond) reply.1, λ e. cc (e, informational))
