-- ===== src/Control/Guidance/Found.antt =====
-- internal/control/mcp_guidance.go: which handler answers a request for a resource.
use echo_mcp.Prelude.{
  String, ◌≡◌, refl, sym, ap, ◌∙◌, inl, inr, true, not, List, [], ◌∷◌, ◌==◌, map, In, Distinct,
  All-at, eq_iff, Bool-cases,
}
use echo_mcp.Failure.{Failure, ok, is_ok}
use echo_mcp.Control.Guidance.Resources.{ResourceDefinition, guidance_resources, read_resource}

module _ (not_found : String → Failure) where
  answers :
      (d : ResourceDefinition) (uri : String)
      → is_ok (read_resource not_found d uri) ≡ true
      → uri ≡ d.uri
  unfolding read_resource
  answers d uri = elim (Bool-cases (uri == d.uri)) [
    | inl e ↦ λ h. (eq_iff uri d.uri).0 e
    | inr e ↦ rw (e, not) (λ h. cc h)
  ]

  answers-own :
      (d : ResourceDefinition)
      → read_resource not_found d d.uri
        ≡ ok (record { uri = d.uri; mime_type = "text/markdown"; text = d.text })
  unfolding read_resource
  answers-own d = rw ((eq_iff d.uri d.uri).1 refl, not) refl

abbrev uris : List ResourceDefinition → List String
uris = map (λ d. d.uri)

In-uris : (d : ResourceDefinition) (ds : List ResourceDefinition) → In d ds → In d.uri (uris ds)
In-uris d (e ∷ ds) (inl same) = inl (ap (λ x. x.uri) same)
In-uris d (e ∷ ds) (inr there) = inr (In-uris d ds there)
In-uris d [] h = h

-- Definitions with distinct URIs are told apart by them.
uri_unique :
    (c d : ResourceDefinition) (ds : List ResourceDefinition)
    → Distinct (uris ds)
    → In c ds
    → In d ds
    → c.uri ≡ d.uri
    → c ≡ d
uri_unique c d [] n i j e = absurd i
uri_unique c d (x ∷ ds) n (inl p) (inl q) e = p ∙ sym q
uri_unique c d (x ∷ ds) n (inl p) (inr j) e =
    absurd (All-at _ d.uri (uris ds) n.0 (In-uris d ds j) (sym e ∙ ap (λ y. y.uri) p))
uri_unique c d (x ∷ ds) n (inr i) (inl q) e =
    absurd (All-at _ c.uri (uris ds) n.0 (In-uris c ds i) (e ∙ ap (λ y. y.uri) q))
uri_unique c d (x ∷ ds) n (inr i) (inr j) e = uri_unique c d ds n.1 i j e

resources-Distinct : Distinct (uris guidance_resources)
resources-Distinct = (
  ((λ e. cc e), ((λ e. cc e), ((λ e. cc e), tt))),
  (((λ e. cc e), ((λ e. cc e), tt)), (((λ e. cc e), tt), (tt, tt))),
)

-- Each guidance resource is read under its URI, as its text in Markdown, and a request for any URI is
-- answered by the handler of one resource at most.
pub read_resource_unique :
    (not_found : String → Failure) (d : ResourceDefinition)
    → In d guidance_resources
    → (read_resource not_found d d.uri
        ≡ ok (record { uri = d.uri; mime_type = "text/markdown"; text = d.text }))
      × ((c : ResourceDefinition) (uri : String)
          → In c guidance_resources
          → is_ok (read_resource not_found c uri) ≡ true
          → is_ok (read_resource not_found d uri) ≡ true
          → c ≡ d)
read_resource_unique not_found d j = (
  answers-own not_found d,
  λ c uri i h k.
      uri_unique c d guidance_resources resources-Distinct i j
        (sym (answers not_found c uri h) ∙ answers not_found d uri k),
)
