-- ===== src/JsonRpc/Frame/Cuts.antt =====
-- What a stream of accepted pushes says of the whole stream.
use mathlib.Core.List.{flatten}
use pre_commit_review.Prelude.{
  ◌+◌, ◌≤◌, ◌≡◌, refl, ap, subst, sym, ◌∙◌, List, [], ◌∷◌, ◌++◌, append_assoc, append-nil, ok, err,
  Bytes, length, arith, length-append, All, err-ne-ok,
}
use pre_commit_review.JsonRpc.Header.{find_header_end, bare_lf_behind}
use pre_commit_review.JsonRpc.Frame.{
  FrameLimits, Inbox, header_turn, turn, drain_frames, FrameDecoder, initial, new, push,
}
use pre_commit_review.JsonRpc.Frame.Extend.{extend}
use pre_commit_review.JsonRpc.Frame.Chunks.{prepend, drain_frames-extend}
use pre_commit_review.JsonRpc.Frame.Bounds.{
  Fits, IsFrame, HoldsPart, drain_frames_bounds, push-Accepted,
}
use pre_commit_review.JsonRpc.Frame.Stream.{
  Pushed, before, then_push, push_all, IsMachine, IsPiece, IsIdle, advance, idle_drains,
  drained-IsIdle, push_all_pieces,
}

-- The two parts of a stream that succeeds.
record Split (d d' : FrameDecoder) (c : Bytes) (cs frames : List Bytes) : Type 0 where
  mid : Inbox
  first : List Bytes
  rest : List Bytes
  drained : drain_frames d.limits (extend d.inbox c) ≡ (mid, ok first)
  within : d.protocol_bytes + length c ≤ d.limits.max_protocol_bytes
  pushed : push_all (advance d (length c) mid) cs ≡ (d', ok rest)
  joined : first ++ rest ≡ frames

before-ok :
    (fs : List Bytes) (r : Pushed) (d : FrameDecoder) (out : List Bytes)
    → before fs r ≡ (d, ok out)
    → (gs : List Bytes) × (r ≡ (d, ok gs)) × (fs ++ gs ≡ out)
before-ok fs (e, ok gs) d out h = (gs, ground arith, ground arith)
before-ok fs (e, err x) d out h = absurd (ground arith)

push-is-advance :
    (d d' : FrameDecoder) (c : Bytes) (fs : List Bytes)
    → push d c ≡ (d', ok fs)
    → d' ≡ advance d (length c) d'.inbox
unfolding push
push-is-advance d d' c fs h = ground arith

push-Split :
    (d d' : FrameDecoder) (c : Bytes) (cs frames : List Bytes) (r : Pushed)
    → push d c ≡ r
    → then_push r (λ e. push_all e cs) ≡ (d', ok frames)
    → Split d d' c cs frames
push-Split d d' c cs frames (e, err x) p h = absurd (err-ne-ok (ap (λ q. q.1) h))
push-Split d d' c cs frames (e, ok fs) p h =
    let (gs, rest, joined) = before-ok fs (push_all e cs) d' frames h in
    let a = push-Accepted d e c fs p in
    record {
      mid = e.inbox;
      first = fs;
      rest = gs;
      drained = a.drained;
      within = omega (arith, a.within_protocol, a.counted);
      pushed = subst (λ f. push_all f cs ≡ (d', ok gs)) (push-is-advance d e c fs p) rest;
      joined = joined;
    }

-- A stream of accepted pushes on an idle decoder does what draining the whole stream does.
push_all-drains :
    (d d' : FrameDecoder) (pieces frames : List Bytes)
    → IsIdle d
    → push_all d pieces ≡ (d', ok frames)
    → (drain_frames d.limits (extend d.inbox (flatten pieces)) ≡ (d'.inbox, ok frames))
      × (d' ≡ advance d (length (flatten pieces)) d'.inbox)
unfolding push_all flatten
push_all-drains d d' [] frames i h = (
  ap (λ b. drain_frames d.limits (record (d.inbox) { buffer = b })) (append-nil d.inbox.buffer)
      ∙ idle_drains d i
      ∙ ap (λ (q : Pushed). (q.0.inbox, q.1)) h,
  ground arith,
)
push_all-drains d d' (c ∷ cs) frames i h =
    let s = push-Split d d' c cs frames (push d c) refl h in
    let ih =
      push_all-drains (advance d (length c) s.mid) d' cs s.rest
        (drained-IsIdle d (length c) c s.mid s.first i s.drained) s.pushed in
    (
      ap (λ b. drain_frames d.limits (record (d.inbox) { buffer = b }))
            (sym (append_assoc d.inbox.buffer c (flatten cs)))
          ∙ drain_frames-extend d.limits (flatten cs) (extend d.inbox c) s.mid s.first s.drained
          ∙ ap (prepend s.first) ih.0
          ∙ ap (λ fs. (d'.inbox, ok fs)) s.joined,
      ih.1 ∙ ground (arith, length-append c (flatten cs)),
    )

push_all-within :
    (d d' : FrameDecoder) (pieces frames : List Bytes)
    → push_all d pieces ≡ (d', ok frames)
    → d.protocol_bytes ≤ d.limits.max_protocol_bytes
    → d.protocol_bytes + length (flatten pieces) ≤ d.limits.max_protocol_bytes
unfolding push_all flatten
push_all-within d d' [] frames h le = omega arith
push_all-within d d' (c ∷ cs) frames h le =
    let s = push-Split d d' c cs frames (push d c) refl h in
    omega (
      arith,
      length-append c (flatten cs),
      push_all-within (advance d (length c) s.mid) d' cs s.rest s.pushed s.within,
    )

pub new-initial : (l : FrameLimits) (d : FrameDecoder) → new l ≡ ok d → initial l ≡ d
unfolding new
new-initial l d h = ground arith

pub initial-IsIdle : (l : FrameLimits) → IsIdle (initial l)
unfolding turn header_turn find_header_end bare_lf_behind
initial-IsIdle l = record { fits = record { body = tt; count = omega arith }; waits = ground arith }

pub new-IsIdle : (l : FrameLimits) (d : FrameDecoder) → new l ≡ ok d → IsIdle d
new-IsIdle l d h = subst IsIdle (new-initial l d h) (initial-IsIdle l)

-- If an idle decoder accepts a stream in some pieces, it accepts the same stream in any other pieces
-- that are no longer than a header and than a frame may be, and ends in the same state with the same
-- frames.
pub cuts_agree :
    (d d' : FrameDecoder) (pieces others frames : List Bytes)
    → IsMachine d.limits
    → IsIdle d
    → d.protocol_bytes ≤ d.limits.max_protocol_bytes
    → flatten others ≡ flatten pieces
    → All (IsPiece d.limits) others
    → push_all d pieces ≡ (d', ok frames)
    → push_all d others ≡ (d', ok frames)
cuts_agree d d' pieces others frames m i le same small h =
    let (drained, moved) = push_all-drains d d' pieces frames i h in
    push_all_pieces d others d'.inbox frames m i small
      (rw same (push_all-within d d' pieces frames h le)) (rw same drained)
    ∙ ap (λ e. (e, ok frames)) (ap (λ b. advance d (length b) d'.inbox) same ∙ sym moved)

-- After accepted pushes on a new decoder: it holds either no more than a header or less than the
-- body it waits for, which is within the frame limit; it has counted every byte, and no more bytes
-- than the protocol limit; the messages are within their limit, and every frame within the frame
-- limit.
pub accepted_bounds :
    (l : FrameLimits) (d d' : FrameDecoder) (pieces frames : List Bytes)
    → new l ≡ ok d
    → push_all d pieces ≡ (d', ok frames)
    → HoldsPart l d'.inbox
      × (d'.protocol_bytes ≡ length (flatten pieces))
      × (d'.protocol_bytes ≤ l.max_protocol_bytes)
      × (d'.inbox.messages ≤ l.max_messages)
      × All (IsFrame l) frames
accepted_bounds l d d' pieces frames e h =
    let start = new-initial l d e in
    let h' : push_all (initial l) pieces ≡ (d', ok frames) =
      subst (λ x. push_all x pieces ≡ (d', ok frames)) (sym start) h in
    let (drained, moved) = push_all-drains (initial l) d' pieces frames (initial-IsIdle l) h' in
    let v : Fits l (extend (initial l).inbox (flatten pieces)) = record {
      body = tt;
      count = omega arith;
    } in
    let (fits, part, sizes) = drain_frames_bounds l _ d'.inbox frames v drained in
    let count = ap (λ x. x.protocol_bytes) moved in
    (
      part,
      omega (arith, count),
      omega (arith, count, push_all-within (initial l) d' pieces frames h' (omega arith)),
      fits.count,
      sizes,
    )
