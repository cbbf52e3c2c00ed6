-- ===== src/JsonRpc/Encode.antt =====
-- `frame_json` of repository_context_provider/json_rpc.rs. `to_vec` stands for `serde_json::to_vec`,
-- on whose JSON type `V` the code is generic; `none` is its error.
use pre_commit_review.Prelude.{
  ℕ, ◌*◌, ◌++◌, Option, none, some, Result, ok, err, Bytes, codes, ltb, if◌then◌else◌, length,
}
use pre_commit_review.Prelude.Digits
use pre_commit_review.JsonRpc.Protocol.{ProtocolError, protocol_error}

abbrev pub max_body_bytes : ℕ
max_body_bytes = 4 * 1024 * 1024

-- `format!("Content-Length: {}\r\n\r\n", body.len())` without the blank line.
abbrev pub header_of : Bytes → Bytes
header_of body = codes "Content-Length: " ++ Digits.to_string (length body)

abbrev pub frame_of : Bytes → Bytes
frame_of body = header_of body ++ codes "\r\n\r\n" ++ body

unfoldable pub frame_json {ℓ} : {V : Type ℓ} → (V → Option Bytes) → V → Result Bytes ProtocolError
frame_json to_vec value = elim (to_vec value) [
  | none ↦ err (protocol_error "provider-message-invalid" "JSON-RPC value cannot be encoded")
  | some body ↦
      if ltb max_body_bytes (length body)
      then err (protocol_error "provider-frame-limit" "JSON-RPC frame body exceeded the limit")
      else ok (frame_of body)
]
