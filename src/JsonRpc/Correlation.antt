-- ===== src/JsonRpc/Correlation.antt =====
-- `MessageLimits` and `CorrelationState` of repository_context_provider/json_rpc.rs: the requests in
-- flight and the message counters. A method changes the state also where it fails, so each returns
-- the state beside its answer. `V` is the payload of a response (a `serde_json::Value`, or an error
-- object), which this state machine only passes through.
pub mod Bounds
pub mod Responses
mod Examples
use pre_commit_review.Prelude.{
  ℕ, ◌+◌, ◌≤◌, ◌<◌, ◌≡◌, Bool, true, false, ◌||◌, List, [], ◌∷◌, Result, ok, err, ltb, leb, ◌==◌,
  if◌then◌else◌, length, usize_max,
}
use pre_commit_review.Prelude.Utf8.{Text}
use pre_commit_review.Prelude.Ordered.{NatSet, contains, insert, remove}
use pre_commit_review.JsonRpc.Protocol.{
  ProtocolError, protocol_error, bounded_method, increment_bounded,
}

pub record MessageLimits : Type 0 where
  pub max_requests : ℕ
  pub max_pending_requests : ℕ
  pub max_messages : ℕ
  pub max_notifications : ℕ
  pub max_server_requests : ℕ
  pub max_invalid_messages : ℕ

unfoldable pub validate : MessageLimits → Result (Unit {0}) ProtocolError
validate l =
    if l.max_requests == 0
      || l.max_pending_requests == 0
      || l.max_messages == 0
      || l.max_notifications == 0
      || l.max_server_requests == 0
      || l.max_invalid_messages == 0
      || ltb l.max_requests l.max_pending_requests
    then err
        (protocol_error "provider-message-limits-invalid" "JSON-RPC message limits are invalid")
    else ok tt

pub record CorrelationState : Type 0 where
  pub limits : MessageLimits
  pub pending : NatSet
  pub next_id : ℕ
  pub requests : ℕ
  pub messages : ℕ
  pub notifications : ℕ
  pub server_requests : ℕ
  pub invalid : ℕ

pub record ClientResponse {ℓ} (V : Type ℓ) : Type ℓ where
  pub id : ℕ
  pub outcome : V

abbrev pub Answer {ℓ} : Type ℓ → Type ℓ
Answer A = CorrelationState × Result A ProtocolError

unfoldable pub new : MessageLimits → Result CorrelationState ProtocolError
unfolding validate
new l = elim (validate l) [
  | err e ↦ err e
  | ok u ↦ ok (record {
    limits = l;
    pending = [];
    next_id = 1;
    requests = 0;
    messages = 0;
    notifications = 0;
    server_requests = 0;
    invalid = 0;
  })
]

unfoldable pub reserve_request : CorrelationState → Text → Answer ℕ
unfolding bounded_method
reserve_request s method = elim (bounded_method method) [
  | err e ↦ (s, err e)
  | ok m ↦
      if leb s.limits.max_requests s.requests
      then (
        s,
        err (protocol_error "provider-request-limit" "JSON-RPC request count exceeded the limit"),
      )
      else if leb s.limits.max_pending_requests (length s.pending)
      then (
        s,
        err (
            protocol_error "provider-pending-limit"
              "JSON-RPC pending request count exceeded the limit"),
      )
      else if ltb usize_max (s.next_id + 1)
      then (s, err (protocol_error "provider-request-limit" "JSON-RPC request ID overflowed"))
      else (
        record s {
          next_id = s.next_id + 1;
          requests = s.requests + 1;
          pending = insert s.next_id s.pending;
        },
        ok s.next_id,
      )
]

-- The bind of these methods: an error of the first part returns with the state it left.
abbrev pub and_then {ℓ κ} :
    {A : Type ℓ} {B : Type κ} → Answer A → (CorrelationState → A → Answer B) → Answer B
and_then (s, ok a) f = f s a
and_then (s, err e) f = (s, err e)

-- `increment_bounded` on a field of the state, written back by `set`.
abbrev count :
    CorrelationState → Result ℕ ProtocolError → (ℕ → CorrelationState) → Answer (Unit {0})
count s (ok n) set = (set n, ok tt)
count s (err e) set = (s, err e)

unfoldable pub observe_message : CorrelationState → Answer (Unit {0})
unfolding increment_bounded
observe_message s =
    count s
      (increment_bounded s.messages s.limits.max_messages "provider-message-limit"
        "JSON-RPC message count exceeded the limit")
      (λ n. record s { messages = n })

unfoldable pub count_invalid : CorrelationState → Answer (Unit {0})
unfolding increment_bounded
count_invalid s =
    count s
      (increment_bounded s.invalid s.limits.max_invalid_messages "provider-invalid-limit"
        "JSON-RPC invalid message count exceeded the limit")
      (λ n. record s { invalid = n })

unfoldable pub accept_client_response {ℓ} :
    {V : Type ℓ} → CorrelationState → ClientResponse V → Answer (ClientResponse V)
unfolding observe_message count_invalid
accept_client_response s response = and_then (observe_message s) λ s' u.
    if contains response.id s'.pending
    then (record s' { pending = remove response.id s'.pending }, ok response)
    else and_then (count_invalid s') λ s'' u'. (
      s'',
      err (
          protocol_error "provider-response-id-invalid"
            "JSON-RPC response ID is unknown or completed"),
    )

unfoldable pub observe_server_request : CorrelationState → Answer (Unit {0})
unfolding observe_message increment_bounded
observe_server_request s = and_then (observe_message s) λ s' u.
    count s'
      (increment_bounded s'.server_requests s'.limits.max_server_requests
        "provider-server-request-limit" "JSON-RPC server request count exceeded the limit")
      (λ n. record s' { server_requests = n })

unfoldable pub observe_notification : CorrelationState → Answer (Unit {0})
unfolding observe_message increment_bounded
observe_notification s = and_then (observe_message s) λ s' u.
    count s'
      (increment_bounded s'.notifications s'.limits.max_notifications "provider-notification-limit"
        "JSON-RPC notification count exceeded the limit")
      (λ n. record s' { notifications = n })

unfoldable pub observe_invalid : CorrelationState → Answer (Unit {0})
unfolding observe_message count_invalid
observe_invalid s = and_then (observe_message s) λ s' u. count_invalid s'

unfoldable pub pending_len : CorrelationState → ℕ
pending_len s = length s.pending

-- One call of the interface, for histories.
pub data Call : Type 0 where
  reserves : Text → Call
  accepts : ℕ → Call
  server_request : Call
  notification : Call
  invalid_message : Call

unfoldable pub step : CorrelationState → Call → CorrelationState
step s (reserves method) = (reserve_request s method).0
step s (accepts id) = (accept_client_response {V = Unit {0}} s (record { id = id; outcome = tt })).0
step s server_request = (observe_server_request s).0
step s notification = (observe_notification s).0
step s invalid_message = (observe_invalid s).0

unfoldable pub run : CorrelationState → List Call → CorrelationState
run s [] = s
run s (c ∷ cs) = run (step s c) cs
