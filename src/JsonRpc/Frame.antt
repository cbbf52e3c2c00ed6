-- ===== src/JsonRpc/Frame.antt =====
-- `FrameLimits` and `FrameDecoder` of repository_context_provider/json_rpc.rs. A method changes the
-- decoder also where it fails, so each returns the decoder beside its answer. The loop of
-- `drain_frames` takes one `turn` a round and runs on fuel; `Loop` proves that the fuel suffices.
pub mod Loop
pub mod Bounds
pub mod Extend
pub mod Chunks
pub mod Stream
pub mod Cuts
pub mod RoundTrip
mod Examples
use pre_commit_review.Prelude.{
  ℕ, zero, suc, ◌+◌, ◌*◌, Bool, true, false, ◌||◌, List, [], ◌∷◌, ◌++◌, Option, none, some, Result,
  ok, err, Bytes, not, String, ltb, leb, ◌==◌, if◌then◌else◌, is_some, length, take, drop,
  usize_max,
}
use pre_commit_review.JsonRpc.Protocol.{ProtocolError, protocol_error, is_empty}
use pre_commit_review.JsonRpc.Header.{find_header_end, contains_bare_lf, parse_content_length}

pub record FrameLimits : Type 0 where
  pub max_header_bytes : ℕ
  pub max_frame_bytes : ℕ
  pub max_protocol_bytes : ℕ
  pub max_messages : ℕ

unfoldable pub validate : FrameLimits → Result (Unit {0}) ProtocolError
validate l =
    if l.max_header_bytes == 0
      || l.max_frame_bytes == 0
      || l.max_protocol_bytes == 0
      || l.max_messages == 0
      || ltb l.max_protocol_bytes l.max_frame_bytes
    then err (protocol_error "provider-frame-limits-invalid" "JSON-RPC frame limits are invalid")
    else ok tt

-- The fields of the decoder that `drain_frames` changes.
pub record Inbox : Type 0 where
  pub buffer : Bytes
  pub expected_body : Option ℕ
  pub messages : ℕ

pub record FrameDecoder : Type 0 where
  pub limits : FrameLimits
  pub protocol_bytes : ℕ
  pub inbox : Inbox

abbrev pub initial : FrameLimits → FrameDecoder
initial l = record {
  limits = l;
  protocol_bytes = 0;
  inbox = record { buffer = []; expected_body = none; messages = 0 };
}

unfoldable pub new : FrameLimits → Result FrameDecoder ProtocolError
unfolding validate
new l = elim (validate l) [ err e ↦ err e | ok u ↦ ok (initial l) ]

-- One round of the loop: it waits for more bytes, fails, or goes on with the frames it completed.
pub data Turn : Type 0 where
  wait : Turn
  refuse : Inbox → ProtocolError → Turn
  more : Inbox → List Bytes → Turn

abbrev pub frame_limit : String → ProtocolError
frame_limit = protocol_error "provider-frame-limit"

abbrev pub header_limit : ProtocolError
header_limit = protocol_error "provider-frame-header-limit" "JSON-RPC header exceeded the limit"

-- `if let Some(body_len) = self.expected_body`.
unfoldable pub body_turn : FrameLimits → Inbox → ℕ → Turn
body_turn l s body_len =
    let rest = drop body_len s.buffer in
    if ltb (length s.buffer) body_len
    then wait
    else if ltb usize_max (s.messages + 1)
    then refuse (record s { buffer = rest; expected_body = none })
        (frame_limit "JSON-RPC message count exceeded the limit")
    else if ltb l.max_messages (s.messages + 1)
    then refuse (record { buffer = rest; expected_body = none; messages = s.messages + 1 })
        (frame_limit "JSON-RPC message count exceeded the limit")
    else more (record { buffer = rest; expected_body = none; messages = s.messages + 1 })
        (take body_len s.buffer ∷ [])

abbrev pub bare_lf_error : ProtocolError
bare_lf_error =
    protocol_error "provider-frame-header-invalid" "JSON-RPC headers must use CRLF line endings"

abbrev pub accept_header : FrameLimits → Inbox → ℕ → Result ℕ ProtocolError → Turn
accept_header l s header_bytes (err e) = refuse s e
accept_header l s header_bytes (ok body_len) =
    if ltb l.max_frame_bytes body_len
    then refuse s (frame_limit "JSON-RPC frame body exceeded the limit")
    else more (record s { buffer = drop header_bytes s.buffer; expected_body = some body_len }) []

-- The rest of the round, on what `find_header_end` found.
unfoldable pub header_turn : FrameLimits → Inbox → Option ℕ → Turn
header_turn l s none =
    if contains_bare_lf s.buffer
    then refuse s bare_lf_error
    else if ltb l.max_header_bytes (length s.buffer)
    then refuse s header_limit
    else wait
header_turn l s (some delimiter) =
    if contains_bare_lf (take delimiter s.buffer)
    then refuse s bare_lf_error
    else if ltb l.max_header_bytes (delimiter + 4)
    then refuse s header_limit
    else accept_header l s (delimiter + 4) (parse_content_length (take delimiter s.buffer))

-- `expected_body` chooses the part of the loop's body.
abbrev pub turn_on : FrameLimits → Inbox → Option ℕ → Turn
turn_on l s (some body_len) = body_turn l s body_len
turn_on l s none = header_turn l s (find_header_end s.buffer)

unfoldable pub turn : FrameLimits → Inbox → Turn
turn l s = turn_on l s s.expected_body

abbrev pub Drained : Type 0
Drained = Inbox × Result (List Bytes) ProtocolError

-- `break`, `return Err` and `continue` with the frames so far.
abbrev pub settle : (Inbox → List Bytes → Drained) → Inbox → List Bytes → Turn → Drained
settle continue s frames wait = (s, ok frames)
settle continue s frames (refuse s' e) = (s', err e)
settle continue s frames (more s' new_frames) = continue s' (frames ++ new_frames)

unfoldable pub drain : FrameLimits → ℕ → Inbox → List Bytes → Drained
drain l zero s frames = (s, ok frames)
drain l (suc fuel) s frames = settle (drain l fuel) s frames (turn l s)

-- Each round shortens the buffer or turns from the body to the next header.
abbrev pub weight : Inbox → ℕ
weight s = length s.buffer * 2 + (if is_some s.expected_body then 1 else 0)

unfoldable pub drain_frames : FrameLimits → Inbox → Drained
drain_frames l s = drain l (suc (weight s)) s []

unfoldable pub push : FrameDecoder → Bytes → FrameDecoder × Result (List Bytes) ProtocolError
push d bytes =
    let total = d.protocol_bytes + length bytes in
    let protocol_error' = frame_limit "JSON-RPC protocol bytes exceeded the limit" in
    let buffer_error = frame_limit "JSON-RPC frame buffer exceeded the limit" in
    let d' = record d { protocol_bytes = total } in
    let buffer_limit = d.limits.max_header_bytes + d.limits.max_frame_bytes in
    let buffered = length d.inbox.buffer + length bytes in
    let drained = drain_frames d.limits (record (d.inbox) { buffer = d.inbox.buffer ++ bytes }) in
    if ltb usize_max total
    then (d, err protocol_error')
    else if ltb d.limits.max_protocol_bytes total
    then (d', err protocol_error')
    else if ltb usize_max buffer_limit
    then (d', err buffer_error)
    else if ltb usize_max buffered || ltb buffer_limit buffered
    then (d', err buffer_error)
    else (record d' { inbox = drained.0 }, drained.1)

unfoldable pub finish : FrameDecoder → Result (Unit {0}) ProtocolError
finish d =
    if is_some d.inbox.expected_body || not (is_empty d.inbox.buffer)
    then err (protocol_error "provider-frame-eof" "JSON-RPC stream ended with a partial frame")
    else ok tt

unfoldable pub buffered_bytes : FrameDecoder → ℕ
buffered_bytes d = length d.inbox.buffer
