-- ===== src/Budget/Tracker.antt =====
-- The tracker of `BudgetTracker` (impact_context/budget.rs) and `IndexBudgetTracker`
-- (impact_context/index/budget.rs). The clock is outside: what `started.elapsed()` returned is an
-- argument of each call that reads it, in nanoseconds.
use pre_commit_review.Prelude.{
  ℕ, ◌+◌, ◌-◌, Bool, true, false, ◌||◌, Option, none, some, String, Result, ok, err, ltb, leb,
  if◌then◌else◌, unwrap_or, usize_max, min, max,
}
use pre_commit_review.Prelude.Keyed.{Table, KeySet, insert, add}

-- What differs between the two trackers: the resources `R` and the budget record `B`.
pub record Kind (R B : Type 0) : Type 0 where
  pub discrete : Discrete R
  pub limit : B → R → ℕ
  pub deadline : B → ℕ
  pub exhaustion_code : R → String
  pub deadline_code : String

pub record Exhaustion (R : Type 0) : Type 0 where
  pub resource : Option R
  pub code : String

pub record Amount : Type 0 where
  pub initial : ℕ
  pub consumed : ℕ
  pub remaining : ℕ
  pub exhausted : Bool

pub record Tracker (R B : Type 0) : Type 0 where
  pub budget : B
  pub consumed : Table R ℕ
  pub exhausted : KeySet R
  pub deadline_exhausted : Bool

-- `usize::checked_add`.
abbrev pub checked_add : ℕ → ℕ → Option ℕ
checked_add a b = if leb (a + b) usize_max then some (a + b) else none

module _ {R B : Type 0} (kind : Kind R B) where
  abbrev pub resource_exhaustion : R → Exhaustion R
  resource_exhaustion r = record { resource = some r; code = kind.exhaustion_code r }

  unfoldable pub new : B → Tracker R B
  new b = record {
    budget = b;
    consumed = λ r. none;
    exhausted = λ r. false;
    deadline_exhausted = false;
  }

  -- `self.consumed.get(&resource).copied().unwrap_or(0)`.
  abbrev pub recorded : Tracker R B → R → ℕ
  recorded t r = unwrap_or 0 (t.consumed r)

  abbrev pub limit_of : Tracker R B → R → ℕ
  limit_of t r = kind.limit t.budget r

  abbrev exhaust : Tracker R B → R → Tracker R B
  exhaust t r = record t { exhausted = add kind.discrete r t.exhausted }

  abbrev write : Tracker R B → R → ℕ → Tracker R B
  write t r n = record t { consumed = insert kind.discrete r n t.consumed }

  unfoldable pub consume : Tracker R B → R → ℕ → Tracker R B × Result (Unit {0}) (Exhaustion R)
  consume t r amount = elim (checked_add (recorded t r) amount) [
    | none ↦ (exhaust t r, err (resource_exhaustion r))
    | some next ↦
        if ltb (limit_of t r) next
        then (exhaust t r, err (resource_exhaustion r))
        else (write t r next, ok tt)
  ]

  unfoldable pub observe : Tracker R B → R → ℕ → Tracker R B × Result (Unit {0}) (Exhaustion R)
  observe t r observed =
      let t' = write t r (max (recorded t r) (min observed (limit_of t r))) in
      if ltb (limit_of t r) observed
      then (exhaust t' r, err (resource_exhaustion r))
      else (t', ok tt)

  unfoldable pub amount : Tracker R B → R → Amount
  amount t r =
      let consumed = min (recorded t r) (limit_of t r) in
      record {
        initial = limit_of t r;
        consumed = consumed;
        remaining = limit_of t r - consumed;
        exhausted = t.exhausted r;
      }

  unfoldable pub check_deadline : Tracker R B → ℕ → Tracker R B × Result (Unit {0}) (Exhaustion R)
  check_deadline t elapsed =
      if t.deadline_exhausted || leb (kind.deadline t.budget) elapsed
      then (
        record t { deadline_exhausted = true },
        err (record { resource = none; code = kind.deadline_code }),
      )
      else (t, ok tt)

  -- `Duration::saturating_sub` of the index tracker.
  unfoldable pub remaining_deadline : Tracker R B → ℕ → ℕ
  remaining_deadline t elapsed = kind.deadline t.budget - elapsed
