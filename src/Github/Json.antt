-- ===== src/Github/Json.antt =====
-- A decoded JSON value, as the GitHub client returns it, with Python's truth values and `dict.get`.
use multi_agent_langgraph.Base.{
  ℕ, String, Bool, true, false, not, Option, none, some, ◌==◌, nat_key, string_key, if◌then◌else◌,
}

mutual
  pub data Json : Type 0 where
    null : Json
    bool : Bool → Json
    number : ℕ → Json
    text : String → Json
    array : Items → Json
    object : Fields → Json

  pub data Items : Type 0 where
    nil : Items
    cons : Json → Items → Items

  pub data Fields : Type 0 where
    end : Fields
    field : String → Json → Fields → Fields

-- `bool(value)`
unfoldable pub truthy : Json → Bool
truthy null = false
truthy (bool b) = b
truthy (number n) = not (n == 0)
truthy (text s) = not (s == "")
truthy (array nil) = false
truthy (array (cons x xs)) = true
truthy (object end) = false
truthy (object (field k v fs)) = true

-- `fields.get(key)`
unfoldable pub get : String → Fields → Option Json
get key end = none
get key (field k v fs) = if k == key then some v else get key fs

-- `text in items`, where only a text can be equal to it.
unfoldable pub has_text : String → Items → Bool
has_text s nil = false
has_text s (cons (text t) xs) = if t == s then true else has_text s xs
has_text s (cons x xs) = has_text s xs
