-- ===== src/JsonRpc/Frame/Extend.antt =====
-- A round of `drain_frames` on a buffer to which bytes are appended.
use pre_commit_review.Prelude.{
  ℕ, ◌+◌, ◌≤◌, ◌≡◌, ◌≢◌, refl, ap, sym, ◌∙◌, inl, inr, List, ◌++◌, Option, none, some, Bytes,
  length, take, arith, length-append, take-append, drop-append, Option-cases, Bool-cases,
}
use pre_commit_review.JsonRpc.Protocol.{ProtocolError}
use pre_commit_review.JsonRpc.Header.{find_header_end, contains_bare_lf}
use pre_commit_review.JsonRpc.Header.Search.{
  find_header_end-length, find_header_end-append, find_header_end-new, bare_lf_behind-append,
  bare_lf_behind-new,
}
use pre_commit_review.JsonRpc.Frame.{
  FrameLimits, bare_lf_error, header_limit, Inbox, refuse, more, body_turn, header_turn, turn,
}
use pre_commit_review.JsonRpc.Frame.Loop.{turn_of_body, turn_of_header}

abbrev pub extend : Inbox → Bytes → Inbox
extend s bytes = record s { buffer = s.buffer ++ bytes }

module _ (l : FrameLimits) (s : Inbox) (bytes : Bytes) where
  body_turn-extend :
      (n : ℕ) (s' : Inbox) (fs : List Bytes)
      → body_turn l s n ≡ more s' fs
      → body_turn l (extend s bytes) n ≡ more (extend s' bytes) fs
  unfolding body_turn
  body_turn-extend n s' fs h = ground (
    arith,
    length-append s.buffer bytes,
    drop-append n s.buffer bytes,
    take-append n s.buffer bytes,
  )

  body_turn-refuse :
      (n : ℕ) (s' : Inbox) (e : ProtocolError)
      → body_turn l s n ≡ refuse s' e
      → body_turn l (extend s bytes) n ≡ refuse (extend s' bytes) e
  unfolding body_turn
  body_turn-refuse n s' e h = ground (
    arith,
    length-append s.buffer bytes,
    drop-append n s.buffer bytes,
    take-append n s.buffer bytes,
  )

  header_turn-extend :
      (d : ℕ) (s' : Inbox) (fs : List Bytes)
      → d + 4 ≤ length s.buffer
      → header_turn l s (some d) ≡ more s' fs
      → header_turn l (extend s bytes) (some d) ≡ more (extend s' bytes) fs
  unfolding header_turn
  header_turn-extend d s' fs le h =
      ground (arith, drop-append (d + 4) s.buffer bytes, take-append d s.buffer bytes)

  header_turn-refuse :
      (d : ℕ) (s' : Inbox) (e : ProtocolError)
      → d + 4 ≤ length s.buffer
      → header_turn l s (some d) ≡ refuse s' e
      → header_turn l (extend s bytes) (some d) ≡ refuse (extend s' bytes) e
  unfolding header_turn
  header_turn-refuse d s' e le h = ground (arith, take-append d s.buffer bytes)

  -- A header that is refused before its delimiter has come is refused after, if by another error.
  header_turn-open :
      (s' : Inbox) (e : ProtocolError) (o : Option ℕ)
      → find_header_end s.buffer ≡ none
      → find_header_end (s.buffer ++ bytes) ≡ o
      → header_turn l s none ≡ refuse s' e
      → (x : ProtocolError) × (header_turn l (extend s bytes) o ≡ refuse (extend s' bytes) x)
  unfolding header_turn
  header_turn-open s' e none n found h = elim (Bool-cases (contains_bare_lf s.buffer)) [
    | inl bare ↦ (bare_lf_error, ground (arith, bare_lf_behind-append 0 s.buffer bytes bare))
    | inr clean ↦ elim (Bool-cases (contains_bare_lf (s.buffer ++ bytes))) [
      | inl bare ↦ (bare_lf_error, ground arith)
      | inr clean' ↦ (header_limit, ground (arith, length-append s.buffer bytes))
    ]
  ]
  header_turn-open s' e (some d) n found h =
      elim (Bool-cases (contains_bare_lf (take d (s.buffer ++ bytes)))) [
        | inl bare ↦ (bare_lf_error, ground (arith, bare_lf_behind-new 0 s.buffer bytes d n found))
        | inr clean ↦ (
          header_limit,
          ground (
            arith,
            bare_lf_behind-new 0 s.buffer bytes d n found,
            find_header_end-new s.buffer bytes d n found,
          ),
        )
      ]

  header_turn-never : (s' : Inbox) (fs : List Bytes) → header_turn l s none ≢ more s' fs
  unfolding header_turn
  header_turn-never s' fs h = ground arith

  -- A round that goes on does the same on the longer buffer.
  pub turn-extend :
      (s' : Inbox) (fs : List Bytes)
      → turn l s ≡ more s' fs
      → turn l (extend s bytes) ≡ more (extend s' bytes) fs
  turn-extend s' fs h = elim (Option-cases s.expected_body) [
    | inr (n, e) ↦
        turn_of_body l (extend s bytes) n e
        ∙ body_turn-extend n s' fs (sym (turn_of_body l s n e) ∙ h)
    | inl e ↦
        let here = sym (turn_of_header l s e) ∙ h in
        elim (Option-cases (find_header_end s.buffer)) [
          | inl none' ↦ absurd (header_turn-never s' fs (sym (ap (header_turn l s) none') ∙ here))
          | inr (d, found) ↦
              turn_of_header l (extend s bytes) e
              ∙ ap (header_turn l (extend s bytes)) (find_header_end-append s.buffer bytes d found)
              ∙ header_turn-extend d s' fs (find_header_end-length s.buffer d found)
                  (sym (ap (header_turn l s) found) ∙ here)
        ]
  ]

  -- A round that fails also fails on the longer buffer.
  pub turn-refuse :
      (s' : Inbox) (e : ProtocolError)
      → turn l s ≡ refuse s' e
      → (x : ProtocolError) × (turn l (extend s bytes) ≡ refuse (extend s' bytes) x)
  turn-refuse s' x h = elim (Option-cases s.expected_body) [
    | inr (n, e) ↦ (
      x,
      turn_of_body l (extend s bytes) n e
          ∙ body_turn-refuse n s' x (sym (turn_of_body l s n e) ∙ h),
    )
    | inl e ↦
        let here = sym (turn_of_header l s e) ∙ h in
        elim (Option-cases (find_header_end s.buffer)) [
          | inl none' ↦
              let (y, r) =
                header_turn-open s' x _ none' refl (sym (ap (header_turn l s) none') ∙ here) in
              (y, turn_of_header l (extend s bytes) e ∙ r)
          | inr (d, found) ↦ (
            x,
            turn_of_header l (extend s bytes) e
                ∙ ap (header_turn l (extend s bytes))
                    (find_header_end-append s.buffer bytes d found)
                ∙ header_turn-refuse d s' x (find_header_end-length s.buffer d found)
                    (sym (ap (header_turn l s) found) ∙ here),
          )
        ]
  ]
