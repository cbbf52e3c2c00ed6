-- ===== src/JsonRpc/Correlation/Examples.antt =====
-- A session of repository_context_provider/json_rpc.rs with room for two requests in flight.
use pre_commit_review.Prelude.{ℕ, ◌<◌, ◌≡◌, ◌≢◌, ◌↔◌, refl, true, List, [], ◌∷◌, ok, codes}
use pre_commit_review.Prelude.Utf8.{byte_length}
use pre_commit_review.Prelude.Ordered.{contains, insert}
use pre_commit_review.JsonRpc.Correlation.{
  MessageLimits, CorrelationState, ClientResponse, new, accept_client_response, Call, reserves,
  notification, run, step, reserve_request, observe_notification,
}
use pre_commit_review.JsonRpc.Correlation.Bounds.{IsSound, reachable-IsSound}
use pre_commit_review.JsonRpc.Correlation.Responses.{
  accept_exact, answered_once, handed, count_from, handed_in_order,
}

abbrev limits : MessageLimits
limits = record {
  max_requests = 8;
  max_pending_requests = 2;
  max_messages = 16;
  max_notifications = 4;
  max_server_requests = 4;
  max_invalid_messages = 1;
}

abbrev start : CorrelationState
start = record {
  limits = limits;
  pending = [];
  next_id = 1;
  requests = 0;
  messages = 0;
  notifications = 0;
  server_requests = 0;
  invalid = 0;
}

start_lem : new limits ≡ ok start
unfolding new
start_lem = refl

abbrev calls : List Call
calls =
    reserves (codes "initialize") ∷ notification ∷ reserves (codes "shutdown") ∷ reserves [] ∷ []

abbrev reply : ClientResponse ℕ
reply = record { id = 1; outcome = 7 }

-- The third request is refused for its empty method.
two_in_flight : (run start calls).pending ≡ 1 ∷ 2 ∷ []
unfolding run insert step reserve_request byte_length observe_notification
two_in_flight = refl

reachable-IsSound_example : IsSound (run start calls)
reachable-IsSound_example = reachable-IsSound limits start calls start_lem

accept_exact_example : ((accept_client_response (run start calls) reply).1 ≡ ok reply) ↔ (
    ((run start calls).messages < (run start calls).limits.max_messages)
    × (contains 1 (run start calls).pending ≡ true))
accept_exact_example = accept_exact (run start calls) reply

answered_once_example :
    (accept_client_response
      (run (accept_client_response (run start calls) reply).0 (notification ∷ []))
      reply).1
    ≢ ok reply
unfolding run accept_client_response insert contains step reserve_request byte_length
    observe_notification
answered_once_example =
    answered_once limits start calls (notification ∷ []) reply reply start_lem refl refl

handed_in_order_example : handed start calls ≡ count_from 1 (run start calls).requests
handed_in_order_example = handed_in_order limits start calls start_lem
