-- ===== src/JsonRpc/Header/RoundTrip.antt =====
-- The header that `frame_json` prints is read back by `parse_content_length`.
use pre_commit_review.Prelude.{
  ℕ, ◌≤◌, ◌<◌, ◌≡◌, ◌≢◌, refl, ap, ◌∙◌, true, false, [], ◌∷◌, ◌++◌, none, some, ok, ◌>>=◌, Bytes,
  codes, arith, length, All, All-append, usize_max, all,
}
use mathlib.Core.Path.{ap₂}
use pre_commit_review.Prelude.Digits
use pre_commit_review.Prelude.Utf8.{Text, from_utf8_ascii, is_ascii_digit}
use pre_commit_review.JsonRpc.Header.{
  cr, lf, at_delimiter, find_header_end, bare_lf_behind, split_crlf, split_once, trim_start,
  trim_end, eq_ignore_ascii_case, read_field, read_parts, read_text, require_length, read_lines,
  parse_content_length,
}
use pre_commit_review.JsonRpc.Encode.{header_of}

-- Bytes of a header line: ASCII, and no line ending.
abbrev pub IsPlain : ℕ → Type 0
IsPlain c = (c < 0x80) × (c ≢ cr) × (c ≢ lf)

digits-IsPlain : (s : Bytes) → All Digits.IsDigit s → All IsPlain s
digits-IsPlain [] h = tt
digits-IsPlain (c ∷ s) h = ((omega arith, omega arith, omega arith), digits-IsPlain s h.1)

pub header_of-IsPlain : (body : Bytes) → All IsPlain (header_of body)
header_of-IsPlain body =
    All-append IsPlain (codes "Content-Length: ") (Digits.to_string (length body)) (omega arith)
      (digits-IsPlain _ (Digits.to_string-IsDigit (length body)))

plain-ascii : (s : Bytes) → All IsPlain s → All (λ c. c < 0x80) s
plain-ascii [] h = tt
plain-ascii (c ∷ s) h = (h.0.0, plain-ascii s h.1)

at_delimiter-plain : (c : ℕ) (s : Bytes) → c ≢ cr → at_delimiter (c ∷ s) ≡ false
unfolding at_delimiter
at_delimiter-plain c s h = ground arith

-- The delimiter is found behind a plain header.
pub find_header_end-plain :
    (h rest : Bytes)
    → All IsPlain h
    → find_header_end (h ++ codes "\r\n\r\n" ++ rest) ≡ some (length h)
unfolding find_header_end
find_header_end-plain [] rest p = unfold at_delimiter in refl
find_header_end-plain (c ∷ h) rest p =
    ground (
      arith,
      find_header_end-plain h rest p.1,
      at_delimiter-plain c (h ++ codes "\r\n\r\n" ++ rest),
    )

pub bare_lf_behind-plain : (b : ℕ) (h : Bytes) → All IsPlain h → bare_lf_behind b h ≡ false
unfolding bare_lf_behind
bare_lf_behind-plain b [] p = refl
bare_lf_behind-plain b (c ∷ h) p = ground (arith, bare_lf_behind-plain c h p.1)

split_crlf-plain : (s : Text) → All IsPlain s → split_crlf s ≡ s ∷ []
unfolding split_crlf
split_crlf-plain [] p = refl
split_crlf-plain (a ∷ []) p = refl
split_crlf-plain (a ∷ b ∷ s) p = ground (arith, split_crlf-plain (b ∷ s) p.1)

trim_start-digits : (s : Text) → All Digits.IsDigit s → trim_start s ≡ s
unfolding trim_start
trim_start-digits [] d = refl
trim_start-digits (c ∷ s) d = ground arith

trim_end-digits : (s : Text) → All Digits.IsDigit s → trim_end s ≡ s
unfolding trim_end
trim_end-digits [] d = refl
trim_end-digits (c ∷ []) d = ground arith
trim_end-digits (c ∷ e ∷ s) d = ground (arith, trim_end-digits (e ∷ s) d.1)

all-digits : (s : Text) → All Digits.IsDigit s → all is_ascii_digit s ≡ true
all-digits [] d = refl
all-digits (c ∷ s) d = ground (arith, all-digits s d.1)

abbrev name : Text
name = codes "Content-Length"

name_field : (n : ℕ) → n ≤ usize_max → read_field none name (Digits.to_string n) ≡ ok (some n)
unfolding read_field eq_ignore_ascii_case
name_field n le = ground (
  arith,
  all-digits (Digits.to_string n) (Digits.to_string-IsDigit n),
  Digits.parse-to_string usize_max n le,
  Digits.to_string-ne-nil n,
)

header_parts : (s : Text) → split_once b':' (name ++ b':' ∷ b' ' ∷ s) ≡ some (name, b' ' ∷ s)
unfolding split_once
header_parts s = refl

trim_name : trim_end (trim_start name) ≡ name
unfolding trim_end trim_start
trim_name = refl

trim_value : (n : ℕ) → trim_end (trim_start (b' ' ∷ Digits.to_string n)) ≡ Digits.to_string n
unfolding trim_start
trim_value n =
    let d = Digits.to_string-IsDigit n in
    ap trim_end (trim_start-digits (Digits.to_string n) d) ∙ trim_end-digits (Digits.to_string n) d

read_header :
    (n : ℕ)
    → n ≤ usize_max
    → read_lines ((name ++ b':' ∷ b' ' ∷ Digits.to_string n) ∷ []) none ≡ ok (some n)
unfolding read_lines
read_header n le =
    ap (λ r. r >>= read_lines [])
      (ap (read_parts none) (header_parts (Digits.to_string n))
        ∙ ap₂ (read_field none) trim_name (trim_value n)
        ∙ name_field n le)

-- The length that a header was printed with is the length that is read.
pub parse_content_length-header_of :
    (body : Bytes)
    → length body ≤ usize_max
    → parse_content_length (header_of body) ≡ ok (length body)
unfolding parse_content_length
parse_content_length-header_of body le =
    let p = header_of-IsPlain body in
    ap read_text (from_utf8_ascii (header_of body) (plain-ascii (header_of body) p))
    ∙ ap (λ ls. read_lines ls none >>= require_length) (split_crlf-plain (header_of body) p)
    ∙ ap (λ r. r >>= require_length) (read_header (length body) le)
