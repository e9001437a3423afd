-- ===== src/Json/Size.antt =====
-- How large a decoded JSON value is, and the texts that stand in it.
use echo_mcp.Prelude.{ℕ, suc, ◌+◌, String, List, [], ◌∷◌, ◌++◌}
use echo_mcp.Json.{
  Json, null, boolean, number, text, array, object, Items, nil, cons, Fields, end, field,
}

unfoldable mutual
  pub size : Json → ℕ
  size null = 1
  size (boolean b) = 1
  size (number n) = 1
  size (text t) = 1
  size (array vs) = suc (size_items vs)
  size (object fs) = suc (size_fields fs)

  pub size_items : Items → ℕ
  size_items nil = 0
  size_items (cons v vs) = size v + size_items vs

  pub size_fields : Fields → ℕ
  size_fields end = 0
  size_fields (field k v fs) = size v + size_fields fs

unfoldable mutual
  pub texts : Json → List String
  texts null = []
  texts (boolean b) = []
  texts (number n) = []
  texts (text t) = t ∷ []
  texts (array vs) = texts_items vs
  texts (object fs) = texts_fields fs

  pub texts_items : Items → List String
  texts_items nil = []
  texts_items (cons v vs) = texts v ++ texts_items vs

  pub texts_fields : Fields → List String
  texts_fields end = []
  texts_fields (field k v fs) = texts v ++ texts_fields fs
