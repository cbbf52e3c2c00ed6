-- ===== src/JsonRpc/Frame/Chunks.antt =====
-- Frames are decoded the same however the stream is cut into the pieces that `push` is given.
use pre_commit_review.Prelude.{
  ℕ, zero, suc, ◌<◌, ◌≡◌, refl, ap, sym, ◌∙◌, inl, inr, List, [], ◌++◌, append_assoc, append-nil,
  ok, err, Bytes, arith, err-ne-ok, ok-injective,
}
use pre_commit_review.JsonRpc.Protocol.{ProtocolError}
use pre_commit_review.JsonRpc.Frame.{FrameLimits, Inbox, turn, Drained, drain, weight, drain_frames}
use pre_commit_review.JsonRpc.Frame.Loop.{turn-weight, Turn-cases, drain_step, drain_fuel}
use pre_commit_review.JsonRpc.Frame.Extend.{extend, turn-extend, turn-refuse}

abbrev pub prepend : List Bytes → Drained → Drained
prepend fs (s, ok gs) = (s, ok (fs ++ gs))
prepend fs (s, err e) = (s, err e)

-- The frames before the loop only stand in front of the frames that it completes.
drain-prepend :
    (l : FrameLimits) (f : ℕ) (s : Inbox) (fs gs : List Bytes)
    → drain l f s (fs ++ gs) ≡ prepend fs (drain l f s gs)
unfolding drain
drain-prepend l zero s fs gs = refl
drain-prepend l (suc f) s fs gs = elim (Turn-cases (turn l s)) [
  | inl e ↦ rw e refl
  | inr (inl (t, x, e)) ↦ rw e refl
  | inr (inr (t, new, e)) ↦ rw (e, append_assoc) (drain-prepend l f t fs (gs ++ new))
]

module _ (l : FrameLimits) (bytes : Bytes) where
  -- The rounds on a buffer are the first rounds on the longer one.
  drain-extend :
      (f g h : ℕ) (s s' : Inbox) (fs out : List Bytes)
      → weight s < f
      → weight (extend s bytes) < g
      → weight (extend s' bytes) < h
      → drain l f s fs ≡ (s', ok out)
      → drain l g (extend s bytes) fs ≡ drain l h (extend s' bytes) out
  drain-extend zero g h s s' fs out hf hg hh e = absurd (omega arith)
  drain-extend (suc f) zero h s s' fs out hf hg hh e = absurd (omega arith)
  drain-extend (suc f) (suc g) h s s' fs out hf hg hh e = elim (Turn-cases (turn l s)) [
    | inl t ↦
        let stop = sym (drain_step l f s fs _ t) ∙ e in
        let same = ap (λ p. p.0) stop in
        let same_frames = ok-injective (ap (λ p. p.1) stop) in
        rw (same, same_frames)
          (drain_fuel l (suc g) h (extend s' bytes) out
            (omega (arith, ap (λ x. weight (extend x bytes)) same)) hh)
    | inr (inl (t, x, r)) ↦ absurd (err-ne-ok (ap (λ p. p.1) (sym (drain_step l f s fs _ r) ∙ e)))
    | inr (inr (t, new, r)) ↦
        let next = turn-extend l s bytes t new r in
        let lower = turn-weight l s t new r in
        let lower' = turn-weight l (extend s bytes) (extend t bytes) new next in
        drain_step l g (extend s bytes) fs _ next
        ∙ drain-extend f g h t s' (fs ++ new) out (omega arith) (omega arith) hh
            (sym (drain_step l f s fs _ r) ∙ e)
  ]

  -- A buffer that is refused is refused with more bytes behind it.
  drain-refused :
      (f g : ℕ) (s s' : Inbox) (fs : List Bytes) (x : ProtocolError)
      → weight s < f
      → weight (extend s bytes) < g
      → drain l f s fs ≡ (s', err x)
      → (y : ProtocolError) × (drain l g (extend s bytes) fs ≡ (extend s' bytes, err y))
  drain-refused zero g s s' fs x hf hg e = absurd (omega arith)
  drain-refused (suc f) zero s s' fs x hf hg e = absurd (omega arith)
  drain-refused (suc f) (suc g) s s' fs x hf hg e = elim (Turn-cases (turn l s)) [
    | inl t ↦ absurd (err-ne-ok (sym (ap (λ p. p.1) (sym (drain_step l f s fs _ t) ∙ e))))
    | inr (inl (t, z, r)) ↦
        let (y, refused) = turn-refuse l s bytes t z r in
        let same = ap (λ p. p.0) (sym (drain_step l f s fs _ r) ∙ e) in
        (y, drain_step l g (extend s bytes) fs _ refused ∙ ap (λ u. (extend u bytes, err y)) same)
    | inr (inr (t, new, r)) ↦
        let next = turn-extend l s bytes t new r in
        let lower = turn-weight l s t new r in
        let lower' = turn-weight l (extend s bytes) (extend t bytes) new next in
        let (y, rest) =
          drain-refused f g t s' (fs ++ new) x (omega arith) (omega arith)
            (sym (drain_step l f s fs _ r) ∙ e) in
        (y, drain_step l g (extend s bytes) fs _ next ∙ rest)
  ]

  -- Draining a buffer, and draining what it left with more bytes behind it, is draining them at
  -- once: the same decoder, and the frames of both.
  pub drain_frames-extend :
      (s s' : Inbox) (out : List Bytes)
      → drain_frames l s ≡ (s', ok out)
      → drain_frames l (extend s bytes) ≡ prepend out (drain_frames l (extend s' bytes))
  unfolding drain_frames
  drain_frames-extend s s' out e =
      drain-extend _ _ (suc (weight (extend s' bytes))) s s' [] out (omega arith) (omega arith)
        (omega arith) e
      ∙ ap (drain l _ (extend s' bytes)) (sym (append-nil out))
      ∙ drain-prepend l _ (extend s' bytes) out []

  pub drain_frames-refused :
      (s s' : Inbox) (x : ProtocolError)
      → drain_frames l s ≡ (s', err x)
      → (y : ProtocolError) × (drain_frames l (extend s bytes) ≡ (extend s' bytes, err y))
  unfolding drain_frames
  drain_frames-refused s s' x e = drain-refused _ _ s s' [] x (omega arith) (omega arith) e
