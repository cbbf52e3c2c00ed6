-- ===== src/JsonRpc/Frame/Stream.antt =====
-- A stream that reaches the decoder in pieces, each given to one `push`.
use mathlib.Core.List.{flatten}
use pre_commit_review.Prelude.{
  ℕ, ◌+◌, ◌≤◌, ◌≡◌, refl, ap, sym, ◌∙◌, ◌⊎◌, inl, inr, List, [], ◌∷◌, ◌++◌, append_assoc,
  append-nil, Result, ok, err, Bytes, length, usize_max, arith, length-append, All, err-ne-ok,
}
use pre_commit_review.JsonRpc.Protocol.{ProtocolError}
use pre_commit_review.JsonRpc.Frame.{
  FrameLimits, Inbox, wait, turn, Drained, drain_frames, FrameDecoder, push,
}
use pre_commit_review.JsonRpc.Frame.Loop.{drain-waits, drain_step}
use pre_commit_review.JsonRpc.Frame.Extend.{extend}
use pre_commit_review.JsonRpc.Frame.Chunks.{prepend, drain_frames-extend, drain_frames-refused}
use pre_commit_review.JsonRpc.Frame.Bounds.{
  Fits, HoldsPart, turn-HoldsPart, drain_frames_bounds, Accepted-push,
}

abbrev pub Pushed : Type 0
Pushed = FrameDecoder × Result (List Bytes) ProtocolError

abbrev pub before : List Bytes → Pushed → Pushed
before fs (d, ok gs) = (d, ok (fs ++ gs))
before fs (d, err e) = (d, err e)

-- The frames of one push stand before those of the pushes behind it; an error ends the stream.
abbrev pub then_push : Pushed → (FrameDecoder → Pushed) → Pushed
then_push (d, err e) rest = (d, err e)
then_push (d, ok fs) rest = before fs (rest d)

unfoldable pub push_all : FrameDecoder → List Bytes → Pushed
push_all d [] = (d, ok [])
push_all d (c ∷ cs) = then_push (push d c) (λ d'. push_all d' cs)

-- Limits whose sums a `usize` holds, as `push` checks.
abbrev pub IsMachine : FrameLimits → Type 0
IsMachine l =
    (l.max_protocol_bytes ≤ usize_max) × (l.max_header_bytes + l.max_frame_bytes ≤ usize_max)

-- Pieces that are no longer than a header and no longer than a body.
abbrev pub IsPiece : FrameLimits → Bytes → Type 0
IsPiece l c = (length c ≤ l.max_header_bytes) × (length c ≤ l.max_frame_bytes)

-- The decoder between two pushes.
pub record IsIdle (d : FrameDecoder) : Type 0 where
  pub fits : Fits d.limits d.inbox
  pub waits : turn d.limits d.inbox ≡ wait

abbrev pub advance : FrameDecoder → ℕ → Inbox → FrameDecoder
advance d n s = record d { protocol_bytes = d.protocol_bytes + n; inbox = s }

Drained-cases :
    (r : Drained)
    → ((s : Inbox) × (fs : List Bytes) × (r ≡ (s, ok fs)))
      ⊎ ((s : Inbox) × (e : ProtocolError) × (r ≡ (s, err e)))
Drained-cases (s, ok fs) = inl (s, fs, refl)
Drained-cases (s, err e) = inr (s, e, refl)

pub prepend-ok :
    (fs : List Bytes) (r : Drained) (s : Inbox) (out : List Bytes)
    → prepend fs r ≡ (s, ok out)
    → (gs : List Bytes) × (r ≡ (s, ok gs)) × (fs ++ gs ≡ out)
prepend-ok fs (t, ok gs) s out h = (gs, ground arith, ground arith)
prepend-ok fs (t, err e) s out h = absurd (ground arith)

room_for_piece :
    (l : FrameLimits) (s : Inbox) (c : Bytes)
    → HoldsPart l s
    → IsPiece l c
    → length s.buffer + length c ≤ l.max_header_bytes + l.max_frame_bytes
room_for_piece l s c (inl (e, le)) p = omega arith
room_for_piece l s c (inr (n, e, lt, le)) p = omega arith

push_piece :
    (d : FrameDecoder) (c : Bytes) (s : Inbox) (fs : List Bytes)
    → IsMachine d.limits
    → IsIdle d
    → IsPiece d.limits c
    → d.protocol_bytes + length c ≤ d.limits.max_protocol_bytes
    → drain_frames d.limits (extend d.inbox c) ≡ (s, ok fs)
    → push d c ≡ (advance d (length c) s, ok fs)
push_piece d c s fs m i p total h = Accepted-push d (advance d (length c) s) c fs m.0 m.1 (record {
  limits_kept = refl;
  counted = refl;
  within_protocol = total;
  within_buffer =
      room_for_piece d.limits d.inbox c (turn-HoldsPart d.limits d.inbox i.fits i.waits) p;
  drained = h;
})

pub drained-IsIdle :
    (d : FrameDecoder) (n : ℕ) (c : Bytes) (s : Inbox) (fs : List Bytes)
    → IsIdle d
    → drain_frames d.limits (extend d.inbox c) ≡ (s, ok fs)
    → IsIdle (advance d n s)
unfolding drain_frames
drained-IsIdle d n c s fs i h =
    let v : Fits d.limits (extend d.inbox c) = record {
      body = i.fits.body;
      count = i.fits.count;
    } in
    record {
      fits = (drain_frames_bounds d.limits (extend d.inbox c) s fs v h).0;
      waits = drain-waits d.limits _ (extend d.inbox c) s [] fs (omega arith) h;
    }

pub idle_drains : (d : FrameDecoder) → IsIdle d → drain_frames d.limits d.inbox ≡ (d.inbox, ok [])
unfolding drain_frames
idle_drains d i = drain_step d.limits _ d.inbox [] wait i.waits

-- Give an idle decoder a stream in pieces: if draining the whole stream at once succeeds, and the
-- stream is within the protocol limit, then the pushes succeed, return the same frames and leave the
-- same state as draining it at once.
pub push_all_pieces :
    (d : FrameDecoder) (pieces : List Bytes) (s : Inbox) (frames : List Bytes)
    → IsMachine d.limits
    → IsIdle d
    → All (IsPiece d.limits) pieces
    → d.protocol_bytes + length (flatten pieces) ≤ d.limits.max_protocol_bytes
    → drain_frames d.limits (extend d.inbox (flatten pieces)) ≡ (s, ok frames)
    → push_all d pieces ≡ (advance d (length (flatten pieces)) s, ok frames)
unfolding push_all flatten
push_all_pieces d [] s frames m i ps total h =
    let same : drain_frames d.limits d.inbox ≡ (s, ok frames) =
      ap (λ b. drain_frames d.limits (record (d.inbox) { buffer = b }))
        (sym (append-nil d.inbox.buffer))
      ∙ h in
    let stop = sym (idle_drains d i) ∙ same in ground arith
push_all_pieces d (c ∷ cs) s frames m i (p, ps) total h =
    let whole : drain_frames d.limits (extend (extend d.inbox c) (flatten cs)) ≡ (s, ok frames) =
      ap (λ b. drain_frames d.limits (record (d.inbox) { buffer = b }))
        (append_assoc d.inbox.buffer c (flatten cs))
      ∙ h in
    elim (Drained-cases (drain_frames d.limits (extend d.inbox c))) [
      | inr (t, e, r) ↦
          let (y, refused) = drain_frames-refused d.limits (flatten cs) (extend d.inbox c) t e r in
          absurd (err-ne-ok (ap (λ q. q.1) (sym refused ∙ whole)))
      | inl (t, fs, r) ↦
          let (gs, rest, joined) =
            prepend-ok fs _ s frames
              (sym (drain_frames-extend d.limits (flatten cs) (extend d.inbox c) t fs r) ∙ whole) in
          let ih =
            push_all_pieces (advance d (length c) t) cs s gs m
              (drained-IsIdle d (length c) c t fs i r) ps
              (omega (arith, length-append c (flatten cs))) rest in
          ap (λ q. then_push q (λ d'. push_all d' cs))
            (push_piece d c t fs m i p (omega (arith, length-append c (flatten cs))) r)
          ∙ ap (before fs) ih
          ∙ ground (arith, length-append c (flatten cs))
    ]
