-- ===== src/JsonRpc/Frame/Examples.antt =====
-- A stream of two frames for the decoder of repository_context_provider/json_rpc.rs.
use mathlib.Core.List.{flatten}
use pre_commit_review.Prelude.{
  ◌*◌, ◌≤◌, ◌≡◌, refl, List, [], ◌∷◌, some, map, ok, err, Bytes, codes, arith, length, take, drop,
  All,
}
use pre_commit_review.Prelude.Digits.{to_string, parse}
use pre_commit_review.Prelude.Utf8.{from_utf8}
use pre_commit_review.JsonRpc.Protocol.{protocol_error}
use pre_commit_review.JsonRpc.Header.{
  find_header_end, bare_lf_behind, eq_ignore_ascii_case, parse_content_length,
}
use pre_commit_review.JsonRpc.Encode.{frame_json}
use pre_commit_review.JsonRpc.Frame.{
  FrameLimits, FrameDecoder, initial, new, push, drain, turn, header_turn, body_turn, drain_frames,
}
use pre_commit_review.JsonRpc.Frame.Stream.{push_all, advance}
use pre_commit_review.JsonRpc.Frame.Bounds.{IsFrame, HoldsPart}
use pre_commit_review.JsonRpc.Frame.Cuts.{cuts_agree, accepted_bounds, new-IsIdle}
use pre_commit_review.JsonRpc.Frame.RoundTrip.{write_all, decode-write, open_inbox}

abbrev limits : FrameLimits
limits = record {
  max_header_bytes = 64;
  max_frame_bytes = 4 * 1024 * 1024;
  max_protocol_bytes = 8 * 1024 * 1024;
  max_messages = 8;
}

new_limits : new limits ≡ ok (initial limits)
unfolding new
new_limits = refl

abbrev values : List Bytes
values = codes "{}" ∷ codes "[1]" ∷ []

abbrev bytes : Bytes
bytes = codes "Content-Length: 2\r\n\r\n{}Content-Length: 3\r\n\r\n[1]"

abbrev pieces : List Bytes
pieces = take 5 bytes ∷ take 20 (drop 5 bytes) ∷ drop 25 bytes ∷ []

written : write_all (λ (b : Bytes). some b) values ≡ ok bytes
unfolding write_all frame_json to_string
written = refl

decode-write_example :
    (frames : List Bytes) × (map (λ (b : Bytes). some b) values ≡ map some frames)
    × (push_all (initial limits) pieces
        ≡ (advance (initial limits) (length bytes) (open_inbox [] (length frames)), ok frames))
unfolding flatten
decode-write_example =
    decode-write (λ b. some b) values bytes limits pieces written refl (omega arith) (omega arith)
      (omega arith) (omega arith, omega arith) (omega arith) (omega arith) (omega arith)

abbrev after : FrameDecoder
after = advance (initial limits) 47 (open_inbox [] 2)

pushed : push_all (initial limits) pieces ≡ (after, ok values)
unfolding push_all push drain_frames drain turn header_turn body_turn find_header_end bare_lf_behind
    parse_content_length from_utf8 eq_ignore_ascii_case parse
pushed = refl

cuts_agree_example : push_all (initial limits) (bytes ∷ []) ≡ (after, ok values)
unfolding flatten
cuts_agree_example =
    cuts_agree (initial limits) after pieces (bytes ∷ []) values (omega arith, omega arith)
      (new-IsIdle limits (initial limits) new_limits) (omega arith) refl (omega arith) pushed

accepted_bounds_example :
    HoldsPart limits after.inbox
    × (after.protocol_bytes ≡ length (flatten pieces))
    × (after.protocol_bytes ≤ limits.max_protocol_bytes)
    × (after.inbox.messages ≤ limits.max_messages)
    × All (IsFrame limits) values
accepted_bounds_example =
    accepted_bounds limits (initial limits) after pieces values new_limits pushed

-- A line feed with no carriage return is refused.
bare_lf_refused :
    (push (initial limits) (codes "Content-Length: 2\n")).1
    ≡ err (
        protocol_error "provider-frame-header-invalid"
          "JSON-RPC headers must use CRLF line endings")
unfolding push drain_frames drain turn header_turn find_header_end bare_lf_behind
bare_lf_refused = refl

-- The euro sign.
three_bytes : from_utf8 (0xE2 ∷ 0x82 ∷ 0xAC ∷ []) ≡ some (0x20AC ∷ [])
unfolding from_utf8
three_bytes = refl
