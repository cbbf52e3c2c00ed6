-- ===== src/JsonRpc/Header.antt =====
-- The header of a frame: `find_header_end`, `contains_bare_lf` and `parse_content_length` of
-- repository_context_provider/json_rpc.rs, with the string operations of Rust that they call.
pub mod Search
pub mod RoundTrip
use pre_commit_review.Prelude.{
  ℕ, suc, ◌+◌, ◌≤◌, ◌<◌, ◌≡◌, refl, Bool, true, false, not, ◌&&◌, ◌||◌, List, [], ◌∷◌, ◌++◌, map,
  Option, none, some, Result, ok, err, ◌>>=◌, ok_or, Bytes, codes, String, ltb, leb, ◌==◌,
  if◌then◌else◌, starts_with, all, usize_max, is_some,
}
use mathlib.Core.Option
use pre_commit_review.Prelude.Utf8.{Text, from_utf8, is_whitespace, is_ascii_digit}
use pre_commit_review.Prelude.Digits
use pre_commit_review.JsonRpc.Protocol.{ProtocolError, protocol_error, is_empty}

abbrev pub cr : ℕ
cr = 13

abbrev pub lf : ℕ
lf = 10

abbrev pub delimiter : Bytes
delimiter = cr ∷ lf ∷ cr ∷ lf ∷ []

-- `window == b"\r\n\r\n"` at the front of what is left; a shorter rest has no window.
unfoldable pub at_delimiter : Bytes → Bool
at_delimiter = starts_with delimiter

-- `bytes.windows(4).position(|window| window == b"\r\n\r\n")`.
unfoldable pub find_header_end : Bytes → Option ℕ
unfolding at_delimiter
find_header_end [] = none
find_header_end (c ∷ s) =
    if at_delimiter (c ∷ s) then some 0 else Option.map suc (find_header_end s)

-- A line feed with no carriage return before it; `previous` is the byte before the slice.
unfoldable pub bare_lf_behind : ℕ → Bytes → Bool
bare_lf_behind previous [] = false
bare_lf_behind previous (c ∷ s) = (c == lf && not (previous == cr)) || bare_lf_behind c s

-- At index 0 there is no byte before, and any byte but a carriage return says so.
abbrev pub contains_bare_lf : Bytes → Bool
contains_bare_lf = bare_lf_behind 0

abbrev on_first : ℕ → List Text → List Text
on_first c [] = (c ∷ []) ∷ []
on_first c (l ∷ ls) = (c ∷ l) ∷ ls

-- `str::split("\r\n")`.
unfoldable pub split_crlf : Text → List Text
split_crlf [] = [] ∷ []
split_crlf (a ∷ []) = (a ∷ []) ∷ []
split_crlf (a ∷ b ∷ s) =
    let cut = [] ∷ split_crlf s in
    let keep = on_first a (split_crlf (b ∷ s)) in if a == cr && b == lf then cut else keep

-- `str::split_once` at a character.
unfoldable pub split_once : ℕ → Text → Option (Text × Text)
split_once sep [] = none
split_once sep (c ∷ s) =
    if c == sep
    then some ([], s)
    else elim (split_once sep s) [ none ↦ none | some (a, b) ↦ some (c ∷ a, b) ]

unfoldable pub trim_start : Text → Text
trim_start [] = []
trim_start (c ∷ s) = if is_whitespace c then trim_start s else c ∷ s

abbrev keep_unless_blank : ℕ → Text → Text
keep_unless_blank c [] = if is_whitespace c then [] else c ∷ []
keep_unless_blank c (d ∷ s) = c ∷ d ∷ s

unfoldable pub trim_end : Text → Text
trim_end [] = []
trim_end (c ∷ s) = keep_unless_blank c (trim_end s)

-- `str::trim`.
abbrev pub trim : Text → Text
trim s = trim_end (trim_start s)

abbrev to_ascii_lowercase : ℕ → ℕ
to_ascii_lowercase c = if leb b'A' c && leb c b'Z' then c + 32 else c

unfoldable pub eq_ignore_ascii_case : Text → Text → Bool
eq_ignore_ascii_case [] [] = true
eq_ignore_ascii_case [] (d ∷ t) = false
eq_ignore_ascii_case (c ∷ s) [] = false
eq_ignore_ascii_case (c ∷ s) (d ∷ t) =
    to_ascii_lowercase c == to_ascii_lowercase d && eq_ignore_ascii_case s t

abbrev pub header_error : String → ProtocolError
header_error = protocol_error "provider-frame-header-invalid"

-- `!value.is_ascii() || value.bytes().any(|byte| byte.is_ascii_control())`.
abbrev is_plain : ℕ → Bool
is_plain c = ltb c 0x7F && leb 0x20 c

-- One line of the header, with the length that an earlier line gave.
unfoldable pub read_field : Option ℕ → Text → Text → Result (Option ℕ) ProtocolError
read_field content_length name value =
    if eq_ignore_ascii_case name (codes "content-length")
    then (if is_some content_length || is_empty value || not (all is_ascii_digit value)
        then err (header_error "JSON-RPC Content-Length is malformed or duplicated")
        else elim (Digits.parse usize_max value) [
          | none ↦ err (header_error "JSON-RPC Content-Length is out of range")
          | some parsed ↦ ok (some parsed)
        ])
    else if eq_ignore_ascii_case name (codes "content-type")
    then (if is_empty value || not (all is_plain value)
        then err (header_error "JSON-RPC Content-Type is malformed")
        else ok content_length)
    else err (header_error "JSON-RPC header contains an unsupported field")

abbrev pub read_parts : Option ℕ → Option (Text × Text) → Result (Option ℕ) ProtocolError
read_parts content_length none = err (header_error "JSON-RPC header is malformed")
read_parts content_length (some (name, value)) = read_field content_length (trim name) (trim value)

unfoldable pub read_lines : List Text → Option ℕ → Result (Option ℕ) ProtocolError
unfolding read_field split_once trim_start trim_end
read_lines [] content_length = ok content_length
read_lines (line ∷ lines) content_length =
    read_parts content_length (split_once b':' line) >>= read_lines lines

abbrev pub require_length : Option ℕ → Result ℕ ProtocolError
require_length = ok_or (header_error "JSON-RPC Content-Length is missing")

abbrev pub read_text : Option Text → Result ℕ ProtocolError
read_text none = err (header_error "JSON-RPC header is not valid ASCII")
read_text (some text) = read_lines (split_crlf text) none >>= require_length

unfoldable pub parse_content_length : Bytes → Result ℕ ProtocolError
unfolding read_lines split_crlf
parse_content_length header = read_text (from_utf8 header)
