-- ===== src/JsonRpc/Message.antt =====
-- `parse_inbound` and the encoders of repository_context_provider/json_rpc.rs. What they call of
-- `serde_json` is the record `Json`: `V` is its `Value` and `O` its `Map<String, Value>`.
pub mod SerdeJson
pub mod RoundTrip
mod SmallJson
mod Examples
use pre_commit_review.Prelude.{
  codes, ℕ, ◌*◌, Bool, true, false, not, ◌&&◌, ◌||◌, Option, none, some, String, Result, ok, err,
  ◌>>=◌, ◌>>◌, ok_or, refuse_if, Bytes, ltb, if◌then◌else◌, length, is_some,
}
use pre_commit_review.Prelude.Utf8.{Text, byte_length}
use pre_commit_review.JsonRpc.Protocol.{
  ProtocolError, protocol_error, is_empty, has_control, bounded_method,
}
use pre_commit_review.JsonRpc.Encode.{frame_json}
use pre_commit_review.JsonRpc.Correlation.{ClientResponse}

-- `i64`.
pub data ℤ : Type 0 where
  pos : ℕ → ℤ
  negsuc : ℕ → ℤ

pub record Json (V O : Type 0) : Type 0 where
  pub from_slice : Bytes → Option V
  pub to_vec : V → Option Bytes
  pub as_object : V → Option O
  pub as_str : V → Option Text
  pub as_u64 : V → Option ℕ
  pub as_i64 : V → Option ℤ
  pub is_array : V → Bool
  pub null : V
  -- `Value::String`, `Value::Number` and `Value::Object`.
  pub string : Text → V
  pub number : ℕ → V
  pub signed : ℤ → V
  pub object : O → V
  -- `==` on values, and the map's `new`, `get` and `insert`.
  pub same : V → V → Bool
  pub empty : O
  pub get : Bytes → O → Option V
  pub insert : Bytes → V → O → O

pub record RpcErrorObject (V : Type 0) : Type 0 where
  pub code : ℤ
  pub message : Text
  pub details : Option V

pub data ResponseOutcome (V : Type 0) : Type 0 where
  result : V → ResponseOutcome V
  error : RpcErrorObject V → ResponseOutcome V

pub data ServerRequestId : Type 0 where
  number : ℕ → ServerRequestId
  string : Text → ServerRequestId

pub record ServerRequest (V : Type 0) : Type 0 where
  pub id : ServerRequestId
  pub method : Text
  pub params : Option V

pub record ServerNotification (V : Type 0) : Type 0 where
  pub method : Text
  pub params : Option V

pub data InboundMessage (V : Type 0) : Type 0 where
  response : ClientResponse (ResponseOutcome V) → InboundMessage V
  request : ServerRequest V → InboundMessage V
  notification : ServerNotification V → InboundMessage V

abbrev pub max_string_bytes : ℕ
max_string_bytes = 4 * 1024

abbrev pub max_value_bytes : ℕ
max_value_bytes = 1024 * 1024

abbrev pub message_invalid : String → ProtocolError
message_invalid = protocol_error "provider-message-invalid"

abbrev pub message_limit : String → ProtocolError
message_limit = protocol_error "provider-message-limit"

-- The test of ids and error messages.
abbrev pub is_unfit : Text → Bool
is_unfit s = is_empty s || ltb max_string_bytes (byte_length s) || has_control s

abbrev pub is_some_and {ℓ} : {A : Type ℓ} → (A → Bool) → Option A → Bool
is_some_and p none = false
is_some_and p (some a) = p a

-- `Option::and_then`.
abbrev pub and_then {ℓ κ} : {A : Type ℓ} {B : Type κ} → Option A → (A → Option B) → Option B
and_then none f = none
and_then (some a) f = f a

module _ {V O : Type 0} (json : Json V O) where
  -- `object.get(key)`.
  abbrev pub field : String → O → Option V
  field key o = json.get (codes key) o

  -- `bounded_method` on any value.
  unfoldable pub bounded_method_value : V → Result Text ProtocolError
  unfolding bounded_method
  bounded_method_value v =
      ok_or (message_invalid "JSON-RPC method is invalid") (json.as_str v) >>= bounded_method

  abbrev pub parse_string_id : Option Text → Result ServerRequestId ProtocolError
  parse_string_id none = err (message_invalid "JSON-RPC server request ID is invalid")
  parse_string_id (some id) =
      if is_unfit id
      then err (message_limit "JSON-RPC server request ID exceeded the limit")
      else ok (ServerRequestId.string id)

  unfoldable pub parse_server_id : V → Result ServerRequestId ProtocolError
  parse_server_id v = elim (json.as_u64 v) [
    | some id ↦ ok (ServerRequestId.number id)
    | none ↦ parse_string_id (json.as_str v)
  ]

  unfoldable pub bounded_value : Option V → Result (Option V) ProtocolError
  bounded_value none = ok none
  bounded_value (some v) =
      ok_or (message_invalid "JSON-RPC value cannot be encoded") (json.to_vec v) >>= λ encoded.
      refuse_if (ltb max_value_bytes (length encoded))
        (message_limit "JSON-RPC value exceeded the limit")
      >> ok (some v)

  unfoldable pub bounded_params : Option V → Result (Option V) ProtocolError
  unfolding bounded_value
  bounded_params v =
      refuse_if (is_some_and (λ p. not (json.is_array p) && not (is_some (json.as_object p))) v)
        (message_invalid "JSON-RPC params must be an object or array")
      >> bounded_value v

  unfoldable pub parse_error : V → Result (RpcErrorObject V) ProtocolError
  unfolding bounded_value
  parse_error v = do
    o ← ok_or (message_invalid "JSON-RPC error object is invalid") (json.as_object v)
    code ←
        ok_or (message_invalid "JSON-RPC error code is invalid")
          (and_then (field "code" o) json.as_i64)
    message ←
        ok_or (message_invalid "JSON-RPC error message is invalid")
          (and_then (field "message" o) json.as_str)
    refuse_if (is_unfit message) (message_limit "JSON-RPC error message exceeded the limit")
    details ← bounded_value (field "data" o)
    ok (record { code = code; message = message; details = details })

  abbrev pub parse_request : Text → Option V → Option V → Result (InboundMessage V) ProtocolError
  parse_request method params none =
      ok (InboundMessage.notification (record { method = method; params = params }))
  parse_request method params (some id) = parse_server_id id >>= λ i.
      ok (InboundMessage.request (record { id = i; method = method; params = params }))

  abbrev pub or_null : Option V → V
  or_null none = json.null
  or_null (some v) = v

  abbrev pub parse_outcome : ℕ → Option V → Option V → Result (InboundMessage V) ProtocolError
  parse_outcome id (some r) none = bounded_value (some r) >>= λ v.
      ok
        (InboundMessage.response (record { id = id; outcome = ResponseOutcome.result (or_null v) }))
  parse_outcome id none (some e) = parse_error e >>= λ x.
      ok (InboundMessage.response (record { id = id; outcome = ResponseOutcome.error x }))
  parse_outcome id (some r) (some e) =
      err (message_invalid "JSON-RPC response must contain exactly one result or error")
  parse_outcome id none none =
      err (message_invalid "JSON-RPC response must contain exactly one result or error")

  -- `parse_inbound` behind the version test.
  abbrev pub parse_fields : O → Option V → Result (InboundMessage V) ProtocolError
  parse_fields o (some method_value) = do
    refuse_if (is_some (field "result" o) || is_some (field "error" o))
        (message_invalid "JSON-RPC request contains response fields")
    method ← bounded_method_value method_value
    params ← bounded_params (field "params" o)
    parse_request method params (field "id" o)
  parse_fields o none = do
    id ←
        ok_or (message_invalid "JSON-RPC response ID is invalid")
          (and_then (field "id" o) json.as_u64)
    parse_outcome id (field "result" o) (field "error" o)

  unfoldable pub parse_inbound : Bytes → Result (InboundMessage V) ProtocolError
  unfolding parse_server_id bounded_value bounded_params parse_error bounded_method_value
  parse_inbound bytes = do
    refuse_if (ltb max_value_bytes (length bytes))
        (message_limit "JSON-RPC message exceeded the limit")
    value ← ok_or (message_invalid "JSON-RPC message is malformed") (json.from_slice bytes)
    o ← ok_or (message_invalid "JSON-RPC message must be an object") (json.as_object value)
    refuse_if (not (is_some_and (λ v. json.same v (json.string (codes "2.0"))) (field "jsonrpc" o)))
        (message_invalid "JSON-RPC message must use version 2.0")
    parse_fields o (field "method" o)

  abbrev pub put : String → V → O → O
  put key v o = json.insert (codes key) v o

  unfoldable pub rpc_object : Text → Result O ProtocolError
  unfolding bounded_method_value
  rpc_object method = bounded_method_value (json.string method) >>= λ m.
      ok (put "method" (json.string m) (put "jsonrpc" (json.string (codes "2.0")) json.empty))

  abbrev pub put_params : Option V → O → O
  put_params none o = o
  put_params (some params) o = put "params" params o

  unfoldable pub encode_request : ℕ → Text → Option V → Result Bytes ProtocolError
  unfolding rpc_object bounded_params frame_json
  encode_request id method params = rpc_object method >>= λ o. bounded_params params >>= λ p.
      frame_json json.to_vec (json.object (put_params p (put "id" (json.number id) o)))

  unfoldable pub encode_notification : Text → Option V → Result Bytes ProtocolError
  unfolding rpc_object bounded_params frame_json
  encode_notification method params = rpc_object method >>= λ o.
      bounded_params params >>= λ p. frame_json json.to_vec (json.object (put_params p o))

  unfoldable pub encode_result : ℕ → V → Result Bytes ProtocolError
  unfolding frame_json
  encode_result id r = frame_json json.to_vec (
      json.object (
        put "result" r
          (put "id" (json.number id) (put "jsonrpc" (json.string (codes "2.0")) json.empty))))

  unfoldable pub validate_error : RpcErrorObject V → Result (Unit {0}) ProtocolError
  unfolding bounded_value
  validate_error e =
      refuse_if (is_unfit e.message) (message_limit "JSON-RPC error message exceeded the limit")
      >> (bounded_value e.details >>= λ v. ok tt)

  abbrev pub put_details : Option V → O → O
  put_details none o = o
  put_details (some details) o = put "data" details o

  unfoldable pub encode_error : ℕ → RpcErrorObject V → Result Bytes ProtocolError
  unfolding validate_error frame_json
  encode_error id e =
      validate_error e
      >> frame_json json.to_vec (
          json.object (
            put "error"
              (json.object (
                put_details e.details (
                  put "message" (json.string e.message)
                    (put "code" (json.signed e.code) json.empty))))
              (put "id" (json.number id) (put "jsonrpc" (json.string (codes "2.0")) json.empty))))
