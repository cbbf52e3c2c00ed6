-- ===== src/JsonRpc/Frame/Loop.antt =====
-- The loop of `drain_frames`: it ends before its fuel does, and it works the same on a buffer to
-- which bytes are appended.
use pre_commit_review.Prelude.{
  ℕ, zero, suc, ◌+◌, ◌≤◌, ◌<◌, ◌≡◌, refl, ap, sym, ◌∙◌, err-ne-ok, ◌⊎◌, inl, inr, List, ◌++◌,
  Option, none, some, ok, Bytes, length, arith, length-drop, Option-cases,
}
use pre_commit_review.JsonRpc.Protocol.{ProtocolError}
use pre_commit_review.JsonRpc.Header.{find_header_end}
use pre_commit_review.JsonRpc.Header.Search.{find_header_end-length}
use pre_commit_review.JsonRpc.Frame.{
  FrameLimits, Inbox, Turn, wait, refuse, more, body_turn, header_turn, turn_on, turn, settle,
  drain, weight,
}

body_turn-weight :
    (l : FrameLimits) (s s' : Inbox) (n : ℕ) (fs : List Bytes)
    → s.expected_body ≡ some n
    → body_turn l s n ≡ more s' fs
    → weight s' < weight s
unfolding body_turn
body_turn-weight l s s' n fs e h = ground (arith, length-drop n s.buffer)

header_turn-weight :
    (l : FrameLimits) (s s' : Inbox) (fs : List Bytes)
    → s.expected_body ≡ none
    → (o : Option ℕ) → ((d : ℕ) → o ≡ some d → d + 4 ≤ length s.buffer)
    → header_turn l s o ≡ more s' fs
    → weight s' < weight s
unfolding header_turn
header_turn-weight l s s' fs e none le h = ground arith
header_turn-weight l s s' fs e (some d) le h =
    ground (arith, le d refl, length-drop (d + 4) s.buffer)

pub turn_of_body :
    (l : FrameLimits) (s : Inbox) (n : ℕ) → s.expected_body ≡ some n → turn l s ≡ body_turn l s n
unfolding turn
turn_of_body l s n e = ap (turn_on l s) e

pub turn_of_header :
    (l : FrameLimits) (s : Inbox)
    → s.expected_body ≡ none
    → turn l s ≡ header_turn l s (find_header_end s.buffer)
unfolding turn
turn_of_header l s e = ap (turn_on l s) e

-- Every round that goes on lowers the weight.
pub turn-weight :
    (l : FrameLimits) (s s' : Inbox) (fs : List Bytes)
    → turn l s ≡ more s' fs
    → weight s' < weight s
turn-weight l s s' fs h = elim (Option-cases s.expected_body) [
  | inl e ↦
      header_turn-weight l s s' fs e (find_header_end s.buffer) (find_header_end-length s.buffer)
        (sym (turn_of_header l s e) ∙ h)
  | inr (n, e) ↦ body_turn-weight l s s' n fs e (sym (turn_of_body l s n e) ∙ h)
]

pub Turn-cases :
    (t : Turn)
    → (t ≡ wait)
      ⊎ ((s : Inbox) × (e : ProtocolError) × (t ≡ refuse s e))
      ⊎ ((s : Inbox) × (fs : List Bytes) × (t ≡ more s fs))
Turn-cases wait = inl refl
Turn-cases (refuse s e) = inr (inl (s, e, refl))
Turn-cases (more s fs) = inr (inr (s, fs, refl))

pub drain_step :
    (l : FrameLimits) (f : ℕ) (s : Inbox) (fs : List Bytes) (t : Turn)
    → turn l s ≡ t
    → drain l (suc f) s fs ≡ settle (drain l f) s fs t
unfolding drain
drain_step l f s fs t e = ap (settle (drain l f) s fs) e

-- The loop does not run out of fuel: any two amounts above the weight give one result.
pub drain_fuel :
    (l : FrameLimits) (f g : ℕ) (s : Inbox) (fs : List Bytes)
    → weight s < f
    → weight s < g
    → drain l f s fs ≡ drain l g s fs
drain_fuel l zero g s fs hf hg = absurd (omega arith)
drain_fuel l (suc f) zero s fs hf hg = absurd (omega arith)
drain_fuel l (suc f) (suc g) s fs hf hg = elim (Turn-cases (turn l s)) [
  | inl e ↦ drain_step l f s fs _ e ∙ sym (drain_step l g s fs _ e)
  | inr (inl (s', x, e)) ↦ drain_step l f s fs _ e ∙ sym (drain_step l g s fs _ e)
  | inr (inr (s', new, e)) ↦
      let lower = turn-weight l s s' new e in
      drain_step l f s fs _ e
      ∙ drain_fuel l f g s' (fs ++ new) (omega arith) (omega arith)
      ∙ sym (drain_step l g s fs _ e)
]

-- What the loop returns with frames waits for more bytes.
pub drain-waits :
    (l : FrameLimits) (f : ℕ) (s s' : Inbox) (fs out : List Bytes)
    → weight s < f
    → drain l f s fs ≡ (s', ok out)
    → turn l s' ≡ wait
drain-waits l zero s s' fs out hf h = absurd (omega arith)
drain-waits l (suc f) s s' fs out hf h = elim (Turn-cases (turn l s)) [
  | inl e ↦
      let stop = sym (drain_step l f s fs _ e) ∙ h in ap (turn l) (sym (ap (λ p. p.0) stop)) ∙ e
  | inr (inl (t, x, e)) ↦
      let stop = sym (drain_step l f s fs _ e) ∙ h in absurd (err-ne-ok (ap (λ p. p.1) stop))
  | inr (inr (t, new, e)) ↦
      let lower = turn-weight l s t new e in
      drain-waits l f t s' (fs ++ new) out (omega arith) (sym (drain_step l f s fs _ e) ∙ h)
]
