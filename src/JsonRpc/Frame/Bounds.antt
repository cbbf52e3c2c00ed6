-- ===== src/JsonRpc/Frame/Bounds.antt =====
-- What an accepted push leaves in the decoder, and the size of the frames that it returns.
use pre_commit_review.Prelude.{
  ℕ, zero, suc, ◌+◌, ◌≤◌, ◌<◌, ◌≡◌, subst, sym, ◌∙◌, ◌⊎◌, inl, inr, List, [], ◌++◌, Option, none,
  some, ok, err, Bytes, length, usize_max, arith, Option-cases, All, All-append, length-take-le,
}
use pre_commit_review.JsonRpc.Frame.{
  FrameLimits, Inbox, wait, more, body_turn, header_turn, turn, Drained, drain, weight,
  drain_frames, FrameDecoder, push,
}
use pre_commit_review.JsonRpc.Frame.Loop.{Turn-cases, turn_of_body, turn_of_header, drain-waits}
use pre_commit_review.JsonRpc.Frame.Extend.{extend}

abbrev pub BodyFits : FrameLimits → Option ℕ → Type 0
BodyFits l none = Unit {0}
BodyFits l (some n) = n ≤ l.max_frame_bytes

-- A body that is waited for is within the frame limit, and so is the count of messages.
pub record Fits (l : FrameLimits) (s : Inbox) : Type 0 where
  pub body : BodyFits l s.expected_body
  pub count : s.messages ≤ l.max_messages

abbrev pub IsFrame : FrameLimits → Bytes → Type 0
IsFrame l frame = length frame ≤ l.max_frame_bytes

module _ (l : FrameLimits) where
  body_turn-Fits :
      (s s' : Inbox) (n : ℕ) (fs : List Bytes)
      → n ≤ l.max_frame_bytes
      → body_turn l s n ≡ more s' fs
      → Fits l s' × All (IsFrame l) fs
  unfolding body_turn
  body_turn-Fits s s' n fs le h = ground (arith, length-take-le n s.buffer)

  header_turn-Fits :
      (s s' : Inbox) (o : Option ℕ) (fs : List Bytes)
      → s.messages ≤ l.max_messages
      → header_turn l s o ≡ more s' fs
      → Fits l s' × All (IsFrame l) fs
  unfolding header_turn
  header_turn-Fits s s' none fs le h = ground arith
  header_turn-Fits s s' (some d) fs le h = ground arith

  turn-Fits :
      (s s' : Inbox) (fs : List Bytes)
      → Fits l s
      → turn l s ≡ more s' fs
      → Fits l s' × All (IsFrame l) fs
  turn-Fits s s' fs v h = elim (Option-cases s.expected_body) [
    | inl e ↦ header_turn-Fits s s' _ fs v.count (sym (turn_of_header l s e) ∙ h)
    | inr (n, e) ↦
        body_turn-Fits s s' n fs (subst (BodyFits l) e v.body) (sym (turn_of_body l s n e) ∙ h)
  ]

  -- Of a result with frames.
  abbrev pub Good : Drained → Type 0
  Good (s, ok out) = Fits l s × All (IsFrame l) out
  Good (s, err e) = Unit {0}

  drain-Good :
      (f : ℕ) (s : Inbox) (fs : List Bytes) → Fits l s → All (IsFrame l) fs → Good (drain l f s fs)
  unfolding drain
  drain-Good zero s fs v a = (v, a)
  drain-Good (suc f) s fs v a = elim (Turn-cases (turn l s)) [
    | inl e ↦ rw e (v, a)
    | inr (inl (t, x, r)) ↦ rw r tt
    | inr (inr (t, new', r)) ↦
        let (v', a') = turn-Fits s t new' v r in
        rw r (drain-Good f t (fs ++ new') v' (All-append (IsFrame l) fs new' a a'))
  ]

  -- A decoder that waits holds less than one header, or less than the body it waits for.
  abbrev pub HoldsPart : Inbox → Type 0
  HoldsPart s =
      ((s.expected_body ≡ none) × (length s.buffer ≤ l.max_header_bytes))
      ⊎ ((n : ℕ) × (s.expected_body ≡ some n) × (length s.buffer < n) × (n ≤ l.max_frame_bytes))

  body_turn-wait : (s : Inbox) (n : ℕ) → body_turn l s n ≡ wait → length s.buffer < n
  unfolding body_turn
  body_turn-wait s n h = ground arith

  header_turn-wait :
      (s : Inbox) (o : Option ℕ) → header_turn l s o ≡ wait → length s.buffer ≤ l.max_header_bytes
  unfolding header_turn
  header_turn-wait s none h = ground arith
  header_turn-wait s (some d) h = absurd (ground arith)

  pub turn-HoldsPart : (s : Inbox) → Fits l s → turn l s ≡ wait → HoldsPart s
  turn-HoldsPart s v h = elim (Option-cases s.expected_body) [
    | inl e ↦ inl (e, header_turn-wait s _ (sym (turn_of_header l s e) ∙ h))
    | inr (n, e) ↦
        inr (n, e, body_turn-wait s n (sym (turn_of_body l s n e) ∙ h), subst (BodyFits l) e v.body)
  ]

  pub drain_frames_bounds :
      (s s' : Inbox) (out : List Bytes)
      → Fits l s
      → drain_frames l s ≡ (s', ok out)
      → Fits l s' × HoldsPart s' × All (IsFrame l) out
  unfolding drain_frames
  drain_frames_bounds s s' out v h =
      let (v', a) = subst Good h (drain-Good (suc (weight s)) s [] v tt) in
      (v', turn-HoldsPart s' v' (drain-waits l (suc (weight s)) s s' [] out (omega arith) h), a)

-- What an accepted push says of the decoder and the bytes.
pub record Accepted (d d' : FrameDecoder) (bytes : Bytes) (frames : List Bytes) : Type 0 where
  pub limits_kept : d'.limits ≡ d.limits
  pub counted : d'.protocol_bytes ≡ d.protocol_bytes + length bytes
  pub within_protocol : d'.protocol_bytes ≤ d.limits.max_protocol_bytes
  pub within_buffer :
      length d.inbox.buffer + length bytes ≤ d.limits.max_header_bytes + d.limits.max_frame_bytes
  pub drained : drain_frames d.limits (extend d.inbox bytes) ≡ (d'.inbox, ok frames)

pub push-Accepted :
    (d d' : FrameDecoder) (bytes : Bytes) (frames : List Bytes)
    → push d bytes ≡ (d', ok frames)
    → Accepted d d' bytes frames
unfolding push
push-Accepted d d' bytes frames h = ground arith

pub Accepted-push :
    (d d' : FrameDecoder) (bytes : Bytes) (frames : List Bytes)
    → d.limits.max_protocol_bytes ≤ usize_max
    → d.limits.max_header_bytes + d.limits.max_frame_bytes ≤ usize_max
    → Accepted d d' bytes frames
    → push d bytes ≡ (d', ok frames)
unfolding push
Accepted-push d d' bytes frames p b a = ground arith
