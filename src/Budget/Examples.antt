-- ===== src/Budget/Examples.antt =====
-- Runs of the trackers of impact_context/budget.rs and impact_context/index/budget.rs.
use pre_commit_review.Prelude.{
  ◌+◌, ◌≡◌, ◌≢◌, ◌≤◌, ◌<◌, ◌⊎◌, true, List, [], ◌∷◌, none, Result, ok, err, arith,
}
use pre_commit_review.Budget.Tracker.{
  Exhaustion, new, recorded, limit_of, resource_exhaustion, consume, amount, check_deadline,
}
use pre_commit_review.Budget.Bounds.{Call, consumes, observes, run, amount_balance}
use pre_commit_review.Budget.Ledger.{
  refused, granted, consume_all, exhausted_exact, deadline_final, consume_exact, consumed_ledger,
}
use pre_commit_review.Budget.Impact
use pre_commit_review.Budget.Impact.{BudgetResource, changed_files, nodes}
use pre_commit_review.Budget.Index

abbrev calls : List (Call BudgetResource)
calls = consumes changed_files 20 ∷ consumes changed_files 11 ∷ observes nodes 250_001 ∷ []

amount_balance_example :
    let a =
      amount Impact.kind (run Impact.kind (new Impact.kind Impact.fast_defaults) calls) nodes in
    (a.consumed
      ≡ recorded Impact.kind (run Impact.kind (new Impact.kind Impact.fast_defaults) calls) nodes)
    × (a.consumed + a.remaining ≡ a.initial)
    × (a.initial ≡ Impact.limit Impact.fast_defaults nodes)
amount_balance_example = amount_balance Impact.kind Impact.fast_defaults calls nodes

exhausted_exact_example :
    (amount Impact.kind
      (run Impact.kind (new Impact.kind Impact.fast_defaults) calls)
      nodes).exhausted
    ≡ refused Impact.kind (new Impact.kind Impact.fast_defaults) calls nodes
exhausted_exact_example = exhausted_exact Impact.kind Impact.fast_defaults calls nodes

deadline_final_example :
    let refusal : Result (Unit {0}) (Exhaustion BudgetResource) =
      err (record { resource = none; code = "deadline-exhausted" }) in
    let t = new Impact.kind Impact.fast_defaults in
    ((check_deadline Impact.kind t 750_000_000).1 ≡ refusal)
    × ((check_deadline Impact.kind
          (run Impact.kind (check_deadline Impact.kind t 750_000_000).0 calls)
          1).1
        ≡ refusal)
unfolding new
deadline_final_example =
    deadline_final Impact.kind (new Impact.kind Impact.fast_defaults) 750_000_000 calls 1
      (omega arith)

abbrev symbols : Index.IndexResource
symbols = Index.symbols

consume_exact_example :
    let t = new Index.kind Index.fast_defaults in
    let (t', answer) = consume Index.kind t symbols 50_001 in
    ((recorded Index.kind t symbols + 50_001 ≤ limit_of Index.kind t symbols)
      × (answer ≡ ok tt)
      × (recorded Index.kind t' symbols ≡ recorded Index.kind t symbols + 50_001)
      × ((j : Index.IndexResource) → symbols ≢ j → t'.consumed j ≡ t.consumed j)
      × (t'.exhausted ≡ t.exhausted))
    ⊎ ((limit_of Index.kind t symbols < recorded Index.kind t symbols + 50_001)
        × (answer ≡ err (resource_exhaustion Index.kind symbols))
        × (t'.consumed ≡ t.consumed)
        × (t'.exhausted symbols ≡ true))
unfolding new Index.limit
consume_exact_example =
    consume_exact Index.kind (new Index.kind Index.fast_defaults) symbols 50_001 (omega arith)

consumed_ledger_example :
    recorded Impact.kind
      (consume_all Impact.kind
        (new Impact.kind Impact.fast_defaults)
        ((nodes, 5) ∷ (nodes, 250_000) ∷ []))
      nodes
    ≡ granted Impact.kind
        (new Impact.kind Impact.fast_defaults)
        ((nodes, 5) ∷ (nodes, 250_000) ∷ [])
        nodes
consumed_ledger_example =
    consumed_ledger Impact.kind Impact.fast_defaults ((nodes, 5) ∷ (nodes, 250_000) ∷ []) nodes
