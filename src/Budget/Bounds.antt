-- ===== src/Budget/Bounds.antt =====
-- Histories of a budget tracker, and what holds after each of them.
use pre_commit_review.Prelude.{ℕ, ◌+◌, ◌≤◌, ◌≡◌, refl, List, [], ◌∷◌, ap, ◌∙◌, Result, arith}
use pre_commit_review.Budget.Tracker.{
  Kind, Tracker, Exhaustion, new, recorded, limit_of, consume, observe, amount, check_deadline,
}

-- One call of the tracker's interface; `elapsed` is what the clock returns during the call.
pub data Call (R : Type 0) : Type 0 where
  consumes : R → ℕ → Call R
  observes : R → ℕ → Call R
  checks : ℕ → Call R

module _ {R B : Type 0} (kind : Kind R B) where
  unfoldable pub call : Tracker R B → Call R → Tracker R B × Result (Unit {0}) (Exhaustion R)
  call t (consumes r n) = consume kind t r n
  call t (observes r n) = observe kind t r n
  call t (checks elapsed) = check_deadline kind t elapsed

  unfoldable pub run : Tracker R B → List (Call R) → Tracker R B
  run t [] = t
  run t (c ∷ cs) = run (call t c).0 cs

  -- Nothing is recorded beyond its limit.
  abbrev pub IsWithin : Tracker R B → Type 0
  IsWithin t = (r : R) → recorded kind t r ≤ limit_of kind t r

  consume-IsWithin :
      (t : Tracker R B) (r : R) (n : ℕ) → IsWithin t → IsWithin (consume kind t r n).0
  unfolding consume
  consume-IsWithin t r n h j = ground (arith, h j)

  observe-IsWithin :
      (t : Tracker R B) (r : R) (n : ℕ) → IsWithin t → IsWithin (observe kind t r n).0
  unfolding observe
  observe-IsWithin t r n h j = ground (arith, h j)

  check_deadline-IsWithin :
      (t : Tracker R B) (elapsed : ℕ) → IsWithin t → IsWithin (check_deadline kind t elapsed).0
  unfolding check_deadline
  check_deadline-IsWithin t elapsed h j = ground (arith, h j)

  call-IsWithin : (t : Tracker R B) (c : Call R) → IsWithin t → IsWithin (call t c).0
  unfolding call
  call-IsWithin t (consumes r n) h = consume-IsWithin t r n h
  call-IsWithin t (observes r n) h = observe-IsWithin t r n h
  call-IsWithin t (checks elapsed) h = check_deadline-IsWithin t elapsed h

  run-IsWithin : (t : Tracker R B) (cs : List (Call R)) → IsWithin t → IsWithin (run t cs)
  unfolding run
  run-IsWithin t [] h = h
  run-IsWithin t (c ∷ cs) h = run-IsWithin (call t c).0 cs (call-IsWithin t c h)

  new-IsWithin : (b : B) → IsWithin (new kind b)
  unfolding new
  new-IsWithin b r = omega arith

  call-budget : (t : Tracker R B) (c : Call R) → (call t c).0.budget ≡ t.budget
  unfolding call consume observe check_deadline
  call-budget t (consumes r n) = ground arith
  call-budget t (observes r n) = ground arith
  call-budget t (checks elapsed) = ground arith

  run-budget : (t : Tracker R B) (cs : List (Call R)) → (run t cs).budget ≡ t.budget
  unfolding run
  run-budget t [] = refl
  run-budget t (c ∷ cs) = run-budget (call t c).0 cs ∙ call-budget t c

  -- After any calls on a new tracker, the amount reported for a resource is the recorded one with no
  -- clamping, it is at most the limit of the budget given to `new`, and with the remainder it adds
  -- up to that limit.
  pub amount_balance :
      (b : B) (cs : List (Call R)) (r : R)
      → let a = amount kind (run (new kind b) cs) r in
        (a.consumed ≡ recorded kind (run (new kind b) cs) r)
        × (a.consumed + a.remaining ≡ a.initial)
        × (a.initial ≡ kind.limit b r)
  unfolding amount new
  amount_balance b cs r =
      let h = run-IsWithin (new kind b) cs (new-IsWithin b) r in
      (omega arith, omega arith, ap (λ d. kind.limit d r) (run-budget (new kind b) cs))
