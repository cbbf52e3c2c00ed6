-- ===== src/JsonRpc/Message/SerdeJson.antt =====
-- What repository_context_provider/json_rpc.rs relies on of `serde_json`, built without the features
-- `unbounded_depth` and `float_roundtrip`.
use pre_commit_review.Prelude.{
  ℕ, suc, ◌<◌, max, Bool, ◌≤◌, ◌≡◌, true, Option, none, some, Bytes, if◌then◌else◌, usize_max,
}
use pre_commit_review.Prelude.Texts.{text_eq}
use pre_commit_review.Prelude.Utf8.{Text}
use pre_commit_review.JsonRpc.Message.{Json}

-- How deep the arrays and objects of a value or a map are nested, and whether it is free of
-- floating-point numbers.
pub record Shape (V O : Type 0) : Type 0 where
  pub depth : V → ℕ
  pub map_depth : O → ℕ
  pub is_exact : V → Bool
  pub is_exact_map : O → Bool

-- `remaining_depth` of a `serde_json::Deserializer`: this many levels are refused.
abbrev pub recursion_limit : ℕ
recursion_limit = 128

-- What the code relies on. A value that is encoded is decoded again if it is nested below the
-- recursion limit and has no floating-point number, which is parsed with best effort only. The
-- constructors of values are read back, and the map returns what was inserted last.
pub record IsJson {V O : Type 0} (json : Json V O) (shape : Shape V O) : Type 0 where
  pub decodes :
      (v : V) (body : Bytes)
      → shape.depth v < recursion_limit
      → shape.is_exact v ≡ true
      → json.to_vec v ≡ some body
      → json.from_slice body ≡ some v
  pub objects : (o : O) → json.as_object (json.object o) ≡ some o
  pub strings : (s : Text) → json.as_str (json.string s) ≡ some s
  pub numbers : (n : ℕ) → n ≤ usize_max → json.as_u64 (json.number n) ≡ some n
  pub same_self : (v : V) → json.same v v ≡ true
  pub get_empty : (k : Bytes) → json.get k json.empty ≡ none
  pub get_insert :
      (j k : Bytes) (v : V) (o : O)
      → json.get j (json.insert k v o) ≡ (if text_eq j k then some v else json.get j o)
  pub depth_string : (s : Text) → shape.depth (json.string s) ≡ 0
  pub depth_number : (n : ℕ) → shape.depth (json.number n) ≡ 0
  pub depth_object : (o : O) → shape.depth (json.object o) ≡ suc (shape.map_depth o)
  pub depth_empty : shape.map_depth json.empty ≡ 0
  pub depth_insert :
      (k : Bytes) (v : V) (o : O)
      → shape.map_depth (json.insert k v o) ≤ max (shape.depth v) (shape.map_depth o)
  pub exact_string : (s : Text) → shape.is_exact (json.string s) ≡ true
  pub exact_number : (n : ℕ) → shape.is_exact (json.number n) ≡ true
  pub exact_object : (o : O) → shape.is_exact (json.object o) ≡ shape.is_exact_map o
  pub exact_empty : shape.is_exact_map json.empty ≡ true
  pub exact_insert :
      (k : Bytes) (v : V) (o : O)
      → shape.is_exact v ≡ true
      → shape.is_exact_map o ≡ true
      → shape.is_exact_map (json.insert k v o) ≡ true

-- Parameters that are decoded again as a part of a request.
abbrev pub IsDecodable : {V O : Type 0} → Shape V O → Option V → Type 0
IsDecodable shape none = Unit {0}
IsDecodable shape (some p) = (suc (shape.depth p) < recursion_limit) × (shape.is_exact p ≡ true)
