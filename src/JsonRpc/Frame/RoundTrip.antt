-- ===== src/JsonRpc/Frame/RoundTrip.antt =====
-- Frames that `frame_json` writes are read back by the decoder.
use mathlib.Core.List.{flatten}
use mathlib.Core.List
use mathlib.Core.Path.{ap₂}
use pre_commit_review.Prelude.{
  ℕ, zero, suc, ◌+◌, ◌≤◌, ◌<◌, ◌≡◌, refl, ap, sym, ◌∙◌, inl, inr, List, [], ◌∷◌, ◌++◌, append_assoc,
  append-nil, Option, none, some, Result, map, codes, take-length, drop-length, ok, Bytes, length,
  take, drop, usize_max, arith, length-append, Option-cases, All, ok-injective, ◌>>=◌, >>=-eq-ok,
}
use pre_commit_review.Prelude.Digits
use pre_commit_review.JsonRpc.Protocol.{ProtocolError}
use pre_commit_review.JsonRpc.Header.{find_header_end, bare_lf_behind}
use pre_commit_review.JsonRpc.Header.RoundTrip.{
  header_of-IsPlain, find_header_end-plain, bare_lf_behind-plain, parse_content_length-header_of,
}
use pre_commit_review.JsonRpc.Encode.{header_of, frame_of, frame_json, max_body_bytes}
use pre_commit_review.JsonRpc.Frame.{
  FrameLimits, Inbox, wait, more, header_turn, body_turn, turn, drain, weight, drain_frames,
  initial,
}
use pre_commit_review.JsonRpc.Frame.Loop.{turn-weight, drain_step, turn_of_header, turn_of_body}
use pre_commit_review.JsonRpc.Frame.Stream.{push_all, IsMachine, IsPiece, advance, push_all_pieces}
use pre_commit_review.JsonRpc.Frame.Cuts.{initial-IsIdle}

-- A body that the limits of the reader admit.
abbrev pub IsReadable : FrameLimits → Bytes → Type 0
IsReadable l body =
    (length body ≤ l.max_frame_bytes)
    × (length (header_of body) + 4 ≤ l.max_header_bytes)
    × (length body ≤ usize_max)

abbrev pub open_inbox : Bytes → ℕ → Inbox
open_inbox b m = record { buffer = b; expected_body = none; messages = m }

abbrev body_inbox : Bytes → ℕ → ℕ → Inbox
body_inbox b n m = record { buffer = b; expected_body = some n; messages = m }

-- A frame in front of other bytes.
header_buffer : Bytes → Bytes → Bytes
header_buffer body rest = header_of body ++ codes "\r\n\r\n" ++ (body ++ rest)

module _ (l : FrameLimits) (body rest : Bytes) (m : ℕ) where
  take_header : take (length (header_of body)) (header_buffer body rest) ≡ header_of body
  unfolding header_buffer
  take_header =
      ap (take (length (header_of body)))
        (append_assoc (header_of body) (codes "\r\n\r\n") (body ++ rest))
      ∙ take-length (header_of body) _

  drop_header : drop (length (header_of body) + 4) (header_buffer body rest) ≡ body ++ rest
  unfolding header_buffer
  drop_header =
      ap (λ n. drop n (header_buffer body rest))
        (sym (length-append (header_of body) (codes "\r\n\r\n")))
      ∙ drop-length (header_of body ++ codes "\r\n\r\n") (body ++ rest)

  header_found :
      IsReadable l body
      → header_turn l (open_inbox (header_buffer body rest) m) (some (length (header_of body)))
        ≡ more (body_inbox (body ++ rest) (length body) m) []
  unfolding header_turn
  header_found r = ground (
    arith,
    take_header,
    drop_header,
    bare_lf_behind-plain 0 (header_of body) (header_of-IsPlain body),
    parse_content_length-header_of body r.2,
  )

  read_header :
      IsReadable l body
      → turn l (open_inbox (header_buffer body rest) m)
        ≡ more (body_inbox (body ++ rest) (length body) m) []
  unfolding header_buffer
  read_header r =
      turn_of_header l (open_inbox (header_buffer body rest) m) refl
      ∙ ap (header_turn l (open_inbox (header_buffer body rest) m))
          (find_header_end-plain (header_of body) (body ++ rest) (header_of-IsPlain body))
      ∙ header_found r

  read_body :
      m + 1 ≤ l.max_messages
      → l.max_messages ≤ usize_max
      → turn l (body_inbox (body ++ rest) (length body) m)
        ≡ more (open_inbox rest (m + 1)) (body ∷ [])
  unfolding body_turn
  read_body room small =
      turn_of_body l (body_inbox (body ++ rest) (length body) m) (length body) refl
      ∙ ground (arith, length-append body rest, take-length body rest, drop-length body rest)

abbrev pub stream : List Bytes → Bytes
stream [] = []
stream (b ∷ bs) = frame_of b ++ stream bs

header_buffer-stream : (b : Bytes) (bs : List Bytes) → stream (b ∷ bs) ≡ header_buffer b (stream bs)
unfolding header_buffer
header_buffer-stream b bs = append_assoc (header_of b ++ codes "\r\n\r\n") b (stream bs)

empty_waits : (l : FrameLimits) (m : ℕ) → turn l (open_inbox [] m) ≡ wait
unfolding turn header_turn find_header_end bare_lf_behind
empty_waits l m = ground arith

drain-stream :
    (l : FrameLimits) (bodies : List Bytes) (f m : ℕ) (fs : List Bytes)
    → All (IsReadable l) bodies
    → m + length bodies ≤ l.max_messages
    → l.max_messages ≤ usize_max
    → weight (open_inbox (stream bodies) m) < f
    → drain l f (open_inbox (stream bodies) m) fs
      ≡ (open_inbox [] (m + length bodies), ok (fs ++ bodies))
drain-stream l bodies zero m fs rs room small w = absurd (omega arith)
drain-stream l [] (suc f) m fs rs room small w =
    drain_step l f (open_inbox [] m) fs wait (empty_waits l m) ∙ ground (arith, append-nil fs)
drain-stream l (b ∷ bs) (suc zero) m fs rs room small w = absurd (omega arith)
drain-stream l (b ∷ bs) (suc (suc f)) m fs (r, rs) room small w =
    let first : turn l (open_inbox (stream (b ∷ bs)) m)
        ≡ more (body_inbox (b ++ stream bs) (length b) m) [] =
      ap (λ x. turn l (open_inbox x m)) (header_buffer-stream b bs)
      ∙ read_header l b (stream bs) m r in
    let second = read_body l b (stream bs) m (omega arith) small in
    let lower = turn-weight l _ _ [] first in
    let lower' = turn-weight l _ _ (b ∷ []) second in
    drain_step l (suc f) (open_inbox (stream (b ∷ bs)) m) fs _ first
    ∙ drain_step l f (body_inbox (b ++ stream bs) (length b) m) (fs ++ []) _ second
    ∙ drain-stream l bs f (m + 1) (fs ++ [] ++ b ∷ []) rs (omega arith) small (omega arith)
    ∙ ground (arith, append-nil fs, append_assoc fs (b ∷ []) bs)

drain_frames-stream :
    (l : FrameLimits) (bodies : List Bytes)
    → All (IsReadable l) bodies
    → length bodies ≤ l.max_messages
    → l.max_messages ≤ usize_max
    → drain_frames l (open_inbox (stream bodies) 0) ≡ (open_inbox [] (length bodies), ok bodies)
unfolding drain_frames
drain_frames-stream l bodies rs room word =
    drain-stream l bodies (suc (weight (open_inbox (stream bodies) 0))) 0 [] rs (omega arith) word
      (omega arith)
    ∙ ap (λ n. (open_inbox [] n, ok bodies)) (omega arith)

-- What a peer writes for a series of values: the frames one behind the other.
unfoldable pub write_all {ℓ} :
    {V : Type ℓ} → (V → Option Bytes) → List V → Result Bytes ProtocolError
write_all to_vec [] = ok []
write_all to_vec (v ∷ vs) = do
  frame ← frame_json to_vec v
  rest ← write_all to_vec vs
  ok (frame ++ rest)

frame_json-ok {ℓ} :
    {V : Type ℓ} (to_vec : V → Option Bytes) (v : V) (frame : Bytes)
    → frame_json to_vec v ≡ ok frame
    → (body : Bytes) × (to_vec v ≡ some body)
      × (frame ≡ frame_of body)
      × (length body ≤ max_body_bytes)
unfolding frame_json
frame_json-ok to_vec v frame h = elim (Option-cases (to_vec v)) [
  | inl e ↦ absurd (ground arith)
  | inr (body, e) ↦ (body, e, ground arith, ground arith)
]

write_all-ok {ℓ} :
    {V : Type ℓ} (to_vec : V → Option Bytes) (vs : List V) (bytes : Bytes)
    → write_all to_vec vs ≡ ok bytes
    → (bodies : List Bytes) × (map to_vec vs ≡ map some bodies)
      × (bytes ≡ stream bodies)
      × All (λ b. length b ≤ max_body_bytes) bodies
unfolding write_all
write_all-ok to_vec [] bytes h = ([], refl, ground arith, tt)
write_all-ok to_vec (v ∷ vs) bytes h =
    let (frame, wrote, h') = >>=-eq-ok (frame_json to_vec v) _ h in
    let (rest, wrote', h'') = >>=-eq-ok (write_all to_vec vs) _ h' in
    let (body, encoded, framed, small) = frame_json-ok to_vec v frame wrote in
    let (bodies, encodings, streamed, smalls) = write_all-ok to_vec vs rest wrote' in
    (
      body ∷ bodies,
      ap₂ ◌∷◌ encoded encodings,
      sym (ok-injective h'') ∙ ap₂ ◌++◌ framed streamed,
      (small, smalls),
    )

readable :
    (l : FrameLimits) (bodies : List Bytes)
    → max_body_bytes ≤ l.max_frame_bytes
    → 27 ≤ l.max_header_bytes
    → All (λ b. length b ≤ max_body_bytes) bodies
    → All (IsReadable l) bodies
readable l [] body header h = tt
readable l (b ∷ bs) body header (small, smalls) =
    let printed = Digits.to_string-length 6 (length b) (omega arith) in
    ((omega arith, omega (arith, printed), omega arith), readable l bs body header smalls)

same_length {ℓ} :
    {V : Type ℓ} (to_vec : V → Option Bytes) (vs : List V) (bodies : List Bytes)
    → map to_vec vs ≡ map some bodies
    → length vs ≡ length bodies
same_length to_vec [] [] h = refl
same_length to_vec [] (b ∷ bs) h = absurd (ground arith)
same_length to_vec (v ∷ vs) [] h = absurd (ground arith)
same_length to_vec (v ∷ vs) (b ∷ bs) h =
    ap suc (same_length to_vec vs bs (List.tail-eq_of_cons-eq h))

-- A new decoder whose limits admit the frames that `frame_json` writes reads back what was written:
-- if the frames of a series of values, one behind the other, reach it in any pieces that are within
-- the header limit and the frame limit each, then every push succeeds, the frames returned are the
-- encodings of the values in order, and nothing is left in the buffer.
pub decode-write {ℓ} :
    {V : Type ℓ} (to_vec : V → Option Bytes) (values : List V) (bytes : Bytes) (l : FrameLimits)
    (pieces : List Bytes)
    → write_all to_vec values ≡ ok bytes
    → flatten pieces ≡ bytes
    → All (IsPiece l) pieces
    → max_body_bytes ≤ l.max_frame_bytes
    → 27 ≤ l.max_header_bytes
    → IsMachine l
    → length values ≤ l.max_messages
    → l.max_messages ≤ usize_max
    → length bytes ≤ l.max_protocol_bytes
    → (frames : List Bytes) × (map to_vec values ≡ map some frames)
      × (push_all (initial l) pieces
          ≡ (advance (initial l) (length bytes) (open_inbox [] (length frames)), ok frames))
decode-write to_vec values bytes l pieces wrote cut small body header m room word total =
    let (bodies, encodings, streamed, smalls) = write_all-ok to_vec values bytes wrote in
    let count = same_length to_vec values bodies encodings in
    (
      bodies,
      encodings,
      push_all_pieces (initial l) pieces (open_inbox [] (length bodies)) bodies m (initial-IsIdle l)
            small (omega (arith, ap length cut))
            (ap (λ b. drain_frames l (open_inbox b 0)) (cut ∙ streamed)
              ∙ drain_frames-stream l bodies (readable l bodies body header smalls)
                  (omega (arith, count)) word)
          ∙ ap
              (λ (b : Bytes).
                (advance (initial l) (length b) (open_inbox [] (length bodies)), ok bodies))
              cut,
    )
