-- ===== src/JsonRpc/Correlation/Responses.antt =====
-- Which responses the correlation state accepts, and the ids that it hands out.
use pre_commit_review.Prelude.{
  ℕ, zero, suc, ◌⊎◌, ◌+◌, ◌<◌, ◌≡◌, ◌≢◌, ◌↔◌, refl, true, false, List, [], ◌∷◌, ◌++◌, ok, err,
  arith, inl, inr,
}
use pre_commit_review.Prelude.Ordered.{contains, contains-insert, contains-remove}
use pre_commit_review.JsonRpc.Correlation.{
  MessageLimits, CorrelationState, ClientResponse, new, reserve_request, accept_client_response,
  observe_server_request, observe_notification, observe_invalid, Call, reserves, accepts,
  server_request, notification, invalid_message, step, run,
}

-- A response is accepted exactly if the message count has room and its id is in flight.
pub accept_exact {ℓ} :
    {V : Type ℓ} (s : CorrelationState) (r : ClientResponse V)
    → ((accept_client_response s r).1 ≡ ok r)
      ↔ ((s.messages < s.limits.max_messages) × (contains r.id s.pending ≡ true))
unfolding accept_client_response
accept_exact s r = (λ h. ground arith, λ h. ground arith)

-- The id was handed out and is no longer in flight.
abbrev pub IsSpent : ℕ → CorrelationState → Type 0
IsSpent i s = (i < s.next_id) × (contains i s.pending ≡ false)

step-IsSpent : (i : ℕ) (s : CorrelationState) (c : Call) → IsSpent i s → IsSpent i (step s c)
unfolding step reserve_request accept_client_response observe_server_request observe_notification
    observe_invalid
step-IsSpent i s (reserves m) h = ground (arith, contains-insert i s.next_id s.pending)
step-IsSpent i s (accepts id) h = ground (arith, contains-remove i id s.pending)
step-IsSpent i s server_request h = ground arith
step-IsSpent i s notification h = ground arith
step-IsSpent i s invalid_message h = ground arith

run-IsSpent : (i : ℕ) (s : CorrelationState) (cs : List Call) → IsSpent i s → IsSpent i (run s cs)
unfolding run
run-IsSpent i s [] h = h
run-IsSpent i s (c ∷ cs) h = run-IsSpent i (step s c) cs (step-IsSpent i s c h)

-- In flight ids were handed out.
abbrev pub InFlightBelow : CorrelationState → Type 0
InFlightBelow s = (i : ℕ) → contains i s.pending ≡ true → i < s.next_id

accept-IsSpent {ℓ} :
    {V : Type ℓ} (s : CorrelationState) (r : ClientResponse V)
    → (contains r.id s.pending ≡ true → r.id < s.next_id)
    → (accept_client_response s r).1 ≡ ok r
    → IsSpent r.id (accept_client_response s r).0
unfolding accept_client_response
accept-IsSpent s r b h = ground (arith, contains-remove r.id r.id s.pending)

step-InFlightBelow : (s : CorrelationState) (c : Call) → InFlightBelow s → InFlightBelow (step s c)
unfolding step reserve_request accept_client_response observe_server_request observe_notification
    observe_invalid
step-InFlightBelow s (reserves m) h i = ground (arith, h i, contains-insert i s.next_id s.pending)
step-InFlightBelow s (accepts id) h i = ground (arith, h i, contains-remove i id s.pending)
step-InFlightBelow s server_request h i = ground (arith, h i)
step-InFlightBelow s notification h i = ground (arith, h i)
step-InFlightBelow s invalid_message h i = ground (arith, h i)

run-InFlightBelow :
    (s : CorrelationState) (cs : List Call) → InFlightBelow s → InFlightBelow (run s cs)
unfolding run
run-InFlightBelow s [] h = h
run-InFlightBelow s (c ∷ cs) h = run-InFlightBelow (step s c) cs (step-InFlightBelow s c h)

new-InFlightBelow : (l : MessageLimits) (s : CorrelationState) → new l ≡ ok s → InFlightBelow s
unfolding new contains
new-InFlightBelow l s e i = ground arith

spent-refused {ℓ} :
    {V : Type ℓ} (s : CorrelationState) (r : ClientResponse V)
    → contains r.id s.pending ≡ false
    → (accept_client_response s r).1 ≢ ok r
spent-refused s r h e = ground (arith, (accept_exact s r).0 e)

-- Once a response has been accepted, in any state that calls on a new one lead to, no later
-- response with the same id is accepted, whatever calls come between.
pub answered_once {ℓ} :
    {V : Type ℓ} (l : MessageLimits) (s : CorrelationState) (before after : List Call)
    (first second : ClientResponse V)
    → new l ≡ ok s
    → (accept_client_response (run s before) first).1 ≡ ok first
    → second.id ≡ first.id
    → (accept_client_response (run (accept_client_response (run s before) first).0 after) second).1
      ≢ ok second
answered_once l s before after first second e accepted same =
    spent-refused _ second (rw same spent.1)
  where
    spent : IsSpent first.id (run (accept_client_response (run s before) first).0 after)
    spent = run-IsSpent first.id _ after (
        accept-IsSpent (run s before) first
          (run-InFlightBelow s before (new-InFlightBelow l s e) first.id) accepted)

-- The id that a call hands out, if it does.
handed_by : CorrelationState → Call → List ℕ
handed_by s (reserves m) = elim (reserve_request s m).1 [ ok id ↦ id ∷ [] | err e ↦ [] ]
handed_by s _ = []

-- The ids that a history hands out, in order.
unfoldable pub handed : CorrelationState → List Call → List ℕ
unfolding handed_by
handed s [] = []
handed s (c ∷ cs) = handed_by s c ++ handed (step s c) cs

unfoldable pub count_from : ℕ → ℕ → List ℕ
count_from n zero = []
count_from n (suc k) = n ∷ count_from (n + 1) k

-- What one call does to the numbering.
step_numbering :
    (s : CorrelationState) (c : Call)
    → s.next_id ≡ s.requests + 1
    → ((step s c).next_id ≡ (step s c).requests + 1)
      × (((handed_by s c ≡ s.next_id ∷ []) × ((step s c).requests ≡ s.requests + 1))
          ⊎ ((handed_by s c ≡ []) × ((step s c).requests ≡ s.requests)))
unfolding step handed_by reserve_request accept_client_response observe_server_request
    observe_notification observe_invalid
step_numbering s (reserves m) h = ground arith
step_numbering s (accepts id) h = ground arith
step_numbering s server_request h = ground arith
step_numbering s notification h = ground arith
step_numbering s invalid_message h = ground arith

run_numbering :
    (s : CorrelationState) (cs : List Call)
    → s.next_id ≡ s.requests + 1
    → (k : ℕ) × ((run s cs).requests ≡ s.requests + k) × (handed s cs ≡ count_from s.next_id k)
unfolding run handed count_from
run_numbering s [] h = (0, omega arith, refl)
run_numbering s (c ∷ cs) h =
    let (numbered, cases) = step_numbering s c h in
    let (k, total, ids) = run_numbering (step s c) cs numbered in
    elim cases [
      | inl (one, grown) ↦ (suc k, omega arith, ground (arith, ids, one))
      | inr (none', same) ↦ (k, omega arith, ground (arith, ids, none'))
    ]

-- The ids that a history of calls on a new state hands out are 1, 2, 3 and so on, without a gap or
-- a repetition, as many as the request counter then says.
pub handed_in_order :
    (l : MessageLimits) (s : CorrelationState) (cs : List Call)
    → new l ≡ ok s
    → handed s cs ≡ count_from 1 (run s cs).requests
unfolding new
handed_in_order l s cs e =
    let (k, total, ids) = run_numbering s cs (ground arith) in ground (arith, total, ids)
