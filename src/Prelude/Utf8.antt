-- ===== src/Prelude/Utf8.antt =====
-- Text of the Rust standard library: UTF-8 (`std::str::from_utf8`, `str::len`), and the classes of
-- characters that the code tests. A text is the list of its code points.
use Prim.Native.Nat.{ℕ, ◌+◌, ◌-◌, ◌*◌, ◌<◌}
use mathlib.Core.Path.{◌≡◌, refl}
use mathlib.Core.Bool.{Bool, ◌&&◌, ◌||◌}
use mathlib.Core.Option.{Option, none, some}
use mathlib.Core.List.{List, [], ◌∷◌}
use native.Mathlib.Omega.{arith}
use pre_commit_review.Prelude.Tests.{ltb, leb, ◌==◌, if◌then◌else◌}
use pre_commit_review.Prelude.Lists.{Bytes, All}

abbrev pub Text : Type 0
Text = List ℕ

abbrev between : ℕ → ℕ → ℕ → Bool
between lo hi c = leb lo c && leb c hi

abbrev continuation : ℕ → Bool
continuation = between 0x80 0xBF

abbrev cons? : ℕ → Option Text → Option Text
cons? c none = none
cons? c (some s) = some (c ∷ s)

-- The ranges of the second byte behind a leading byte of three and of four bytes: they leave out
-- overlong forms, surrogates and what lies above U+10FFFF.
second_of_three : ℕ → ℕ → Bool
second_of_three a b =
    if a == 0xE0
    then between 0xA0 0xBF b
    else if a == 0xED
    then between 0x80 0x9F b
    else continuation b

second_of_four : ℕ → ℕ → Bool
second_of_four a b =
    if a == 0xF0
    then between 0x90 0xBF b
    else if a == 0xF4
    then between 0x80 0x8F b
    else continuation b

-- `std::str::from_utf8`, with the code points that the bytes stand for.
unfoldable pub from_utf8 : Bytes → Option Text
unfolding second_of_three second_of_four
from_utf8 [] = some []
from_utf8 (a ∷ []) = if ltb a 0x80 then some (a ∷ []) else none
from_utf8 (a ∷ b ∷ []) =
    if ltb a 0x80
    then cons? a (from_utf8 (b ∷ []))
    else if between 0xC2 0xDF a && continuation b
    then some (((a - 0xC0) * 64 + (b - 0x80)) ∷ [])
    else none
from_utf8 (a ∷ b ∷ c ∷ []) =
    if ltb a 0x80
    then cons? a (from_utf8 (b ∷ c ∷ []))
    else if between 0xC2 0xDF a && continuation b
    then cons? ((a - 0xC0) * 64 + (b - 0x80)) (from_utf8 (c ∷ []))
    else if between 0xE0 0xEF a && second_of_three a b && continuation c
    then some (((a - 0xE0) * 4096 + (b - 0x80) * 64 + (c - 0x80)) ∷ [])
    else none
from_utf8 (a ∷ b ∷ c ∷ d ∷ s) =
    let one = cons? a (from_utf8 (b ∷ c ∷ d ∷ s)) in
    let two = cons? ((a - 0xC0) * 64 + (b - 0x80)) (from_utf8 (c ∷ d ∷ s)) in
    let three = cons? ((a - 0xE0) * 4096 + (b - 0x80) * 64 + (c - 0x80)) (from_utf8 (d ∷ s)) in
    let four =
      cons? ((a - 0xF0) * 262144 + (b - 0x80) * 4096 + (c - 0x80) * 64 + (d - 0x80))
        (from_utf8 s) in
    if ltb a 0x80
    then one
    else if between 0xC2 0xDF a && continuation b
    then two
    else if between 0xE0 0xEF a && second_of_three a b && continuation c
    then three
    else if between 0xF0 0xF4 a && second_of_four a b && continuation c && continuation d
    then four
    else none

-- `str::len`: the length in bytes.
abbrev char_width : ℕ → ℕ
char_width c = if ltb c 0x80 then 1 else if ltb c 0x800 then 2 else if ltb c 0x10000 then 3 else 4

unfoldable pub byte_length : Text → ℕ
byte_length [] = 0
byte_length (c ∷ s) = char_width c + byte_length s

-- `char::is_control`.
abbrev pub is_control : ℕ → Bool
is_control c = ltb c 0x20 || between 0x7F 0x9F c

-- `char::is_whitespace`.
abbrev pub is_whitespace : ℕ → Bool
is_whitespace c =
    between 9 13 c
    || c == 32
    || c == 0x85
    || c == 0xA0
    || c == 0x1680
    || between 0x2000 0x200A c
    || c == 0x2028
    || c == 0x2029
    || c == 0x202F
    || c == 0x205F
    || c == 0x3000

abbrev pub is_ascii_digit : ℕ → Bool
is_ascii_digit = between b'0' b'9'

-- ASCII bytes stand for themselves.
pub from_utf8_ascii : (s : Bytes) → All (λ c. c < 0x80) s → from_utf8 s ≡ some s
unfolding from_utf8
from_utf8_ascii [] h = refl
from_utf8_ascii (a ∷ []) h = ground arith
from_utf8_ascii (a ∷ b ∷ []) h = ground (arith, from_utf8_ascii (b ∷ []) h.1)
from_utf8_ascii (a ∷ b ∷ c ∷ []) h = ground (arith, from_utf8_ascii (b ∷ c ∷ []) h.1)
from_utf8_ascii (a ∷ b ∷ c ∷ d ∷ s) h = ground (arith, from_utf8_ascii (b ∷ c ∷ d ∷ s) h.1)
