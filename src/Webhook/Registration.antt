-- ===== src/Webhook/Registration.antt =====
-- internal/webhook/endpoints.go: which environments register an endpoint.
use echo_mcp.Prelude.{
  String, ◌≡◌, ◌≢◌, ◌↔◌, ◌∙◌, sym, ◌⊎◌, inl, inr, none, some, eq_iff, trim_space, arith,
}
use echo_mcp.Failure.{Result, ok, Result-cases}
use echo_mcp.Webhook.{
  Endpoint, Url, env_endpoint_name, env_endpoint_address, validate_url, validate_endpoint_address,
  register, load_endpoint_from_environment,
}

-- An address that the program accepts: it parses, with the scheme http or https and a host.
abbrev pub IsUsable : (String → Result Url) → String → Type 0
IsUsable parse address =
    (u : Url) × (parse address ≡ ok u)
    × ((u.scheme ≡ "http") ⊎ (u.scheme ≡ "https"))
    × (u.host ≢ "")

validate_IsUsable :
    (parse : String → Result Url) (address : String)
    → validate_endpoint_address parse address ≡ ok tt
    → IsUsable parse address
unfolding validate_endpoint_address validate_url
validate_IsUsable parse address h = elim (Result-cases (parse address)) [
  | inl (u, e) ↦ (
    u,
    e,
    ground (arith, eq_iff u.scheme "http", eq_iff u.scheme "https"),
    ground (arith, eq_iff u.host ""),
  )
  | inr (e, bad) ↦ absurd (ground arith)
]

IsUsable-validate :
    (parse : String → Result Url) (address : String)
    → IsUsable parse address
    → validate_endpoint_address parse address ≡ ok tt
unfolding validate_endpoint_address validate_url
IsUsable-validate parse address (u, e, scheme, host) =
    ground (arith, e, eq_iff u.scheme "http", eq_iff u.scheme "https", eq_iff u.host "")

-- What a registered endpoint has to be, in terms of the environment.
pub record IsRegistered (parse : String → Result Url) (getenv : String → String) (e : Endpoint)
    : Type 0 where
  pub name_set : e.name ≡ trim_space (getenv env_endpoint_name)
  pub address_set : e.address ≡ trim_space (getenv env_endpoint_address)
  pub name_nonempty : e.name ≢ ""
  pub address_nonempty : e.address ≢ ""
  pub usable : IsUsable parse e.address

register_sound :
    (parse : String → Result Url) (name address : String) (e : Endpoint)
    → register parse name address ≡ ok (some e)
    → (e.name ≡ name)
      × (e.address ≡ address)
      × (name ≢ "")
      × (address ≢ "")
      × (validate_endpoint_address parse address ≡ ok tt)
unfolding register
register_sound parse name address e h = ground (arith, eq_iff name "", eq_iff address "")

register_complete :
    (parse : String → Result Url) (name address : String)
    → name ≢ ""
    → address ≢ ""
    → validate_endpoint_address parse address ≡ ok tt
    → register parse name address ≡ ok (some (record { name = name; address = address }))
unfolding register
register_complete parse name address n a v = ground (arith, eq_iff name "", eq_iff address "")

register-eq-none :
    (parse : String → Result Url) (name address : String)
    → (register parse name address ≡ ok none) ↔ ((name ≡ "") × (address ≡ ""))
unfolding register
register-eq-none parse name address = ground (arith, eq_iff name "", eq_iff address "")

-- The environment registers an endpoint exactly when both variables, trimmed, are not empty and the
-- address parses to an http or https URL with a host; the endpoint then has the two trimmed values.
pub load_endpoint_iff :
    (parse : String → Result Url) (getenv : String → String) (e : Endpoint)
    → (load_endpoint_from_environment parse getenv ≡ ok (some e)) ↔ IsRegistered parse getenv e
unfolding load_endpoint_from_environment
load_endpoint_iff parse getenv e = (to, from)
  where
    name : String
    name = trim_space (getenv env_endpoint_name)

    address : String
    address = trim_space (getenv env_endpoint_address)

    to : register parse name address ≡ ok (some e) → IsRegistered parse getenv e
    to h =
        let (n, a, n_set, a_set, valid) = register_sound parse name address e h in
        record {
          name_set = n;
          address_set = a;
          name_nonempty = rw n n_set;
          address_nonempty = rw a a_set;
          usable = rw a (validate_IsUsable parse address valid);
        }

    from : IsRegistered parse getenv e → register parse name address ≡ ok (some e)
    from r =
        register_complete parse name address (rw (← r.name_set) r.name_nonempty)
          (rw (← r.address_set) r.address_nonempty)
          (rw (← r.address_set) (IsUsable-validate parse e.address r.usable))
        ∙ λ i. ok (some (record { name = sym r.name_set i; address = sym r.address_set i }))
