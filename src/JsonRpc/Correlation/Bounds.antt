-- ===== src/JsonRpc/Correlation/Bounds.antt =====
-- The limits of the correlation state, over every history.
use pre_commit_review.Prelude.{◌+◌, ◌≤◌, ◌≡◌, List, [], ◌∷◌, ok, arith, length}
use pre_commit_review.Prelude.Utf8.{Text}
use pre_commit_review.Prelude.Ordered.{
  Ascends, length-insert-le, length-remove-le, insert-Ascends, remove-Ascends,
}
use pre_commit_review.JsonRpc.Correlation.{
  MessageLimits, CorrelationState, ClientResponse, new, reserve_request, accept_client_response,
  observe_server_request, observe_notification, observe_invalid, Call, reserves, accepts,
  server_request, notification, invalid_message, step, run,
}

-- Every counter is within its limit, the ids in flight are distinct, and the next id is one more than
-- the number of requests made.
pub record IsSound (s : CorrelationState) : Type 0 where
  pub requests_bound : s.requests ≤ s.limits.max_requests
  pub pending_bound : length s.pending ≤ s.limits.max_pending_requests
  pub messages_bound : s.messages ≤ s.limits.max_messages
  pub notifications_bound : s.notifications ≤ s.limits.max_notifications
  pub server_requests_bound : s.server_requests ≤ s.limits.max_server_requests
  pub invalid_bound : s.invalid ≤ s.limits.max_invalid_messages
  pub numbered : s.next_id ≡ s.requests + 1
  pub distinct : Ascends 0 s.pending

reserve_request-IsSound :
    (s : CorrelationState) (m : Text) → IsSound s → IsSound (reserve_request s m).0
unfolding reserve_request
reserve_request-IsSound s m v =
    ground (arith, length-insert-le s.next_id s.pending, insert-Ascends 0 s.next_id s.pending)

accept-IsSound :
    (s : CorrelationState) (r : ClientResponse (Unit {0}))
    → IsSound s
    → IsSound (accept_client_response s r).0
unfolding accept_client_response
accept-IsSound s r v =
    ground (arith, length-remove-le r.id s.pending, remove-Ascends 0 r.id s.pending)

server_request-IsSound : (s : CorrelationState) → IsSound s → IsSound (observe_server_request s).0
unfolding observe_server_request
server_request-IsSound s v = ground arith

notification-IsSound : (s : CorrelationState) → IsSound s → IsSound (observe_notification s).0
unfolding observe_notification
notification-IsSound s v = ground arith

invalid-IsSound : (s : CorrelationState) → IsSound s → IsSound (observe_invalid s).0
unfolding observe_invalid
invalid-IsSound s v = ground arith

step-IsSound : (s : CorrelationState) (c : Call) → IsSound s → IsSound (step s c)
unfolding step
step-IsSound s (reserves m) v = reserve_request-IsSound s m v
step-IsSound s (accepts id) v = accept-IsSound s (record { id = id; outcome = tt }) v
step-IsSound s server_request v = server_request-IsSound s v
step-IsSound s notification v = notification-IsSound s v
step-IsSound s invalid_message v = invalid-IsSound s v

pub run-IsSound : (s : CorrelationState) (cs : List Call) → IsSound s → IsSound (run s cs)
unfolding run
run-IsSound s [] v = v
run-IsSound s (c ∷ cs) v = run-IsSound (step s c) cs (step-IsSound s c v)

new-IsSound : (l : MessageLimits) (s : CorrelationState) → new l ≡ ok s → IsSound s
unfolding new
new-IsSound l s e = ground arith

-- A state made by `new` is sound after every history of calls: each counter stays within its limit,
-- so do the requests in flight, their ids are distinct, and the next id is the number of requests
-- made so far plus one.
pub reachable-IsSound :
    (l : MessageLimits) (s : CorrelationState) (cs : List Call) → new l ≡ ok s → IsSound (run s cs)
reachable-IsSound l s cs e = run-IsSound s cs (new-IsSound l s e)
