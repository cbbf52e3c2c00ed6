-- ===== src/Budget/Ledger.antt =====
-- What the calls of a budget tracker answer, and what they leave behind.
use pre_commit_review.Prelude.{
  ℕ, ◌+◌, ◌≤◌, ◌<◌, ◌≡◌, ◌≢◌, ◌⊎◌, inl, inr, Bool, true, false, ◌||◌, List, [], ◌∷◌, none, some,
  Result, ok, err, arith, usize_max, dec_lt,
}
use mathlib.Core.Logic.{ite}
use pre_commit_review.Budget.Tracker.{
  Kind, Tracker, Exhaustion, new, recorded, limit_of, resource_exhaustion, consume, observe, amount,
  check_deadline,
}
use pre_commit_review.Budget.Bounds.{Call, consumes, observes, checks, call, run}

module _ {R B : Type 0} (kind : Kind R B) where
  -- Whether an answer is a refusal that names `r`.
  abbrev pub blames : Result (Unit {0}) (Exhaustion R) → R → Bool
  blames (ok u) r = false
  blames (err e) r = elim e.resource [ none ↦ false | some k ↦ ite (kind.discrete k r) true false ]

  -- Whether a call of the history was refused with the name of `r`.
  abbrev pub refused : Tracker R B → List (Call R) → R → Bool
  refused t [] r = false
  refused t (c ∷ cs) r = blames (call kind t c).1 r || refused (call kind t c).0 cs r

  consume-exhausted :
      (t : Tracker R B) (k : R) (n : ℕ) (r : R)
      → (consume kind t k n).0.exhausted r ≡ (t.exhausted r || blames (consume kind t k n).1 r)
  unfolding consume
  consume-exhausted t k n r = ground arith

  observe-exhausted :
      (t : Tracker R B) (k : R) (n : ℕ) (r : R)
      → (observe kind t k n).0.exhausted r ≡ (t.exhausted r || blames (observe kind t k n).1 r)
  unfolding observe
  observe-exhausted t k n r = ground arith

  call-exhausted :
      (t : Tracker R B) (c : Call R) (r : R)
      → (call kind t c).0.exhausted r ≡ (t.exhausted r || blames (call kind t c).1 r)
  unfolding call check_deadline
  call-exhausted t (consumes k n) r = consume-exhausted t k n r
  call-exhausted t (observes k n) r = observe-exhausted t k n r
  call-exhausted t (checks elapsed) r = ground arith

  run-exhausted :
      (t : Tracker R B) (cs : List (Call R)) (r : R)
      → (run kind t cs).exhausted r ≡ (t.exhausted r || refused t cs r)
  unfolding run
  run-exhausted t [] r = ground arith
  run-exhausted t (c ∷ cs) r =
      ground (arith, run-exhausted (call kind t c).0 cs r, call-exhausted t c r)

  -- After any calls on a new tracker, a resource is marked as exhausted exactly if one of the calls
  -- was refused with that resource's name.
  pub exhausted_exact :
      (b : B) (cs : List (Call R)) (r : R)
      → (amount kind (run kind (new kind b) cs) r).exhausted ≡ refused (new kind b) cs r
  unfolding amount new
  exhausted_exact b cs r = run-exhausted (new kind b) cs r

  call-deadline_exhausted :
      (t : Tracker R B) (c : Call R)
      → t.deadline_exhausted ≡ true
      → (call kind t c).0.deadline_exhausted ≡ true
  unfolding call consume observe check_deadline
  call-deadline_exhausted t (consumes k n) h = ground arith
  call-deadline_exhausted t (observes k n) h = ground arith
  call-deadline_exhausted t (checks elapsed) h = ground arith

  run-deadline_exhausted :
      (t : Tracker R B) (cs : List (Call R))
      → t.deadline_exhausted ≡ true
      → (run kind t cs).deadline_exhausted ≡ true
  unfolding run
  run-deadline_exhausted t [] h = h
  run-deadline_exhausted t (c ∷ cs) h =
      run-deadline_exhausted (call kind t c).0 cs (call-deadline_exhausted t c h)

  -- A deadline check at or behind the deadline is refused with the deadline's code, and so is each
  -- later check, after any calls and whatever the clock then says.
  pub deadline_final :
      (t : Tracker R B) (elapsed : ℕ) (cs : List (Call R)) (later : ℕ)
      → kind.deadline t.budget ≤ elapsed
      → let refusal : Result (Unit {0}) (Exhaustion R) =
          err (record { resource = none; code = kind.deadline_code }) in
        ((check_deadline kind t elapsed).1 ≡ refusal)
        × ((check_deadline kind (run kind (check_deadline kind t elapsed).0 cs) later).1 ≡ refusal)
  unfolding check_deadline
  deadline_final t elapsed cs later h =
      (ground arith, ground (arith, run-deadline_exhausted (check_deadline kind t elapsed).0 cs))

  -- A call of `consume` whose sum is within the limit is accepted, and adds the amount to the
  -- resource and to no other; with a limit that is a `usize`, any other call is refused with the
  -- resource's name and code, marks it as exhausted and leaves every recorded amount as it was.
  pub consume_exact :
      (t : Tracker R B) (k : R) (n : ℕ)
      → limit_of kind t k ≤ usize_max
      → let (t', answer) = consume kind t k n in
        ((recorded kind t k + n ≤ limit_of kind t k)
          × (answer ≡ ok tt)
          × (recorded kind t' k ≡ recorded kind t k + n)
          × ((j : R) → k ≢ j → t'.consumed j ≡ t.consumed j)
          × (t'.exhausted ≡ t.exhausted))
        ⊎ ((limit_of kind t k < recorded kind t k + n)
            × (answer ≡ err (resource_exhaustion kind k))
            × (t'.consumed ≡ t.consumed)
            × (t'.exhausted k ≡ true))
  unfolding consume
  consume_exact t k n h = elim (dec_lt (limit_of kind t k) (recorded kind t k + n)) [
    | yes over ↦ inr (over, ground arith, ground arith, ground arith)
    | no fits ↦ inl (omega arith, ground arith, ground arith, λ j ne. ground arith, ground arith)
  ]

  -- The sum of the amounts for `r` that a series of `consume` calls accepted.
  abbrev pub granted : Tracker R B → List (R × ℕ) → R → ℕ
  granted t [] r = 0
  granted t ((k, n) ∷ cs) r =
      let (t', answer) = consume kind t k n in
      (elim answer [ ok u ↦ ite (kind.discrete k r) n 0 | err e ↦ 0 ]) + granted t' cs r

  unfoldable pub consume_all : Tracker R B → List (R × ℕ) → Tracker R B
  consume_all t [] = t
  consume_all t ((k, n) ∷ cs) = consume_all (consume kind t k n).0 cs

  consume-recorded :
      (t : Tracker R B) (k : R) (n : ℕ) (r : R)
      → recorded kind (consume kind t k n).0 r
        ≡ recorded kind t r
          + (elim (consume kind t k n).1 [ ok u ↦ ite (kind.discrete k r) n 0 | err e ↦ 0 ])
  unfolding consume
  consume-recorded t k n r = ground arith

  consume_all-recorded :
      (t : Tracker R B) (cs : List (R × ℕ)) (r : R)
      → recorded kind (consume_all t cs) r ≡ recorded kind t r + granted t cs r
  unfolding consume_all
  consume_all-recorded t [] r = omega arith
  consume_all-recorded t ((k, n) ∷ cs) r =
      omega (arith, consume_all-recorded (consume kind t k n).0 cs r, consume-recorded t k n r)

  -- After a series of `consume` calls on a new tracker, the amount recorded for a resource is the sum
  -- of the amounts that were accepted for it: a refused call costs nothing.
  pub consumed_ledger :
      (b : B) (cs : List (R × ℕ)) (r : R)
      → recorded kind (consume_all (new kind b) cs) r ≡ granted (new kind b) cs r
  unfolding new
  consumed_ledger b cs r = omega (arith, consume_all-recorded (new kind b) cs r)
