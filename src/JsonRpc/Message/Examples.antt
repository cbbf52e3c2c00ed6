-- ===== src/JsonRpc/Message/Examples.antt =====
-- A request of repository_context_provider/json_rpc.rs on a small type of values.
use pre_commit_review.Prelude.{
  ◌≡◌, refl, some, ok, err, Bytes, codes, arith, ltb, length, if◌then◌else◌,
}
use pre_commit_review.Prelude.Utf8.{byte_length}
use pre_commit_review.JsonRpc.Encode.{frame_of}
use pre_commit_review.JsonRpc.Message.{
  ServerRequestId, InboundMessage, max_value_bytes, message_limit, encode_request, parse_inbound,
}
use pre_commit_review.JsonRpc.Message.SerdeJson.{IsDecodable}
use pre_commit_review.JsonRpc.Message.RoundTrip.{parse_inbound-encode_request}
use pre_commit_review.JsonRpc.Message.SmallJson.{
  Value, map, text, num, cons, nil, depth, encode, small, shape, small-IsJson,
}

abbrev params : Value
params = map (cons (codes "uri") (text (codes "a.rs")) (cons (codes "line") (num 3) nil))

params-IsDecodable : IsDecodable shape (some params)
unfolding depth
params-IsDecodable = (omega arith, refl)

abbrev body : Bytes
unfolding encode
body = encode (
    map (
      cons (codes "params") params (
        cons (codes "id") (num 7) (
          cons (codes "method") (text (codes "shutdown"))
            (cons (codes "jsonrpc") (text (codes "2.0")) nil)))))

encoded : encode_request small 7 (codes "shutdown") (some params) ≡ ok (frame_of body)
unfolding encode_request encode byte_length
encoded = refl

parse_inbound-encode_request_example :
    (bytes : Bytes) × (frame_of body ≡ frame_of bytes)
    × (parse_inbound small bytes ≡ (
        if ltb max_value_bytes (length bytes)
        then err (message_limit "JSON-RPC message exceeded the limit")
        else ok (
            InboundMessage.request (record {
              id = ServerRequestId.number 7;
              method = codes "shutdown";
              params = some params;
            }))))
parse_inbound-encode_request_example =
    parse_inbound-encode_request small shape small-IsJson 7 (codes "shutdown") (some params)
      (frame_of body) (omega arith) params-IsDecodable encoded
