-- ===== src/JsonRpc/Protocol.antt =====
-- `ProtocolError`, the method test and the bounded counter of repository_context_provider/json_rpc.rs.
use pre_commit_review.Prelude.{
  ℕ, ◌+◌, Bool, true, false, ◌||◌, List, [], ◌∷◌, String, Result, ok, err, leb, ltb, if◌then◌else◌,
}
use pre_commit_review.Prelude.Utf8.{Text, byte_length, is_control}

pub record ProtocolError : Type 0 where
  pub code : String
  pub message : String

abbrev pub protocol_error : String → String → ProtocolError
protocol_error code message = record { code = code; message = message }

abbrev pub max_method_bytes : ℕ
max_method_bytes = 256

abbrev pub is_empty {ℓ} : {A : Type ℓ} → List A → Bool
is_empty [] = true
is_empty (x ∷ xs) = false

-- `chars().any(char::is_control)`.
abbrev pub has_control : Text → Bool
has_control [] = false
has_control (c ∷ s) = is_control c || has_control s

-- `bounded_method` on a JSON string.
unfoldable pub bounded_method : Text → Result Text ProtocolError
bounded_method method =
    if is_empty method || ltb max_method_bytes (byte_length method) || has_control method
    then err (protocol_error "provider-message-limit" "JSON-RPC method exceeded the limit")
    else ok method

-- The counter behind the call and its answer.
unfoldable pub increment_bounded : ℕ → ℕ → String → String → Result ℕ ProtocolError
increment_bounded counter maximum code message =
    if leb maximum counter then err (protocol_error code message) else ok (counter + 1)
