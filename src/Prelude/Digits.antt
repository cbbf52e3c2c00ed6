-- ===== src/Prelude/Digits.antt =====
-- Decimal numbers of the Rust standard library: `to_string` of an unsigned integer and `parse`.
use Prim.Native.Nat.{ℕ, zero, suc, ◌+◌, ◌-◌, ◌*◌, ◌/◌, ◌%◌, ◌≤◌, ◌<◌}
use mathlib.Core.Path.{◌≡◌, refl}
use mathlib.Core.Logic.{◌≢◌}
use mathlib.Core.Option.{Option, none, some}
use mathlib.Core.List.{[], ◌∷◌, ◌++◌, concat-ne-nil}
use native.Mathlib.Omega.{arith}
use pre_commit_review.Prelude.Tests.{ltb, leb, ◌==◌, if◌then◌else◌}
use pre_commit_review.Prelude.Lists.{Bytes, All, All-append, length, length-append}
use pre_commit_review.Prelude.Utf8.{Text, is_ascii_digit}

-- The digits behind `n`, refused where the number would exceed `bound`.
unfoldable pub scan : ℕ → Text → ℕ → Option ℕ
scan bound [] n = some n
scan bound (c ∷ s) n =
    if is_ascii_digit c
    then (if leb (n * 10 + (c - b'0')) bound then scan bound s (n * 10 + (c - b'0')) else none)
    else none

-- `str::parse` at an unsigned type whose largest value is `bound`: one or more digits, behind an
-- optional `+`.
unfoldable pub parse : ℕ → Text → Option ℕ
unfolding scan
parse bound [] = none
parse bound (c ∷ []) = if c == b'+' then none else scan bound (c ∷ []) 0
parse bound (c ∷ d ∷ s) = if c == b'+' then scan bound (d ∷ s) 0 else scan bound (c ∷ d ∷ s) 0

-- The digits of `n` by `fuel` divisions, and `to_string`: a number has at most as many digits as
-- its value, or one.
unfoldable pub digits : ℕ → ℕ → Bytes
digits zero n = []
digits (suc fuel) n =
    let more = digits fuel (n / 10) ++ (b'0' + n % 10) ∷ [] in
    if ltb n 10 then (b'0' + n) ∷ [] else more

unfoldable pub to_string : ℕ → Bytes
unfolding digits
to_string n = digits (suc n) n

abbrev pub IsDigit : ℕ → Type 0
IsDigit c = (b'0' ≤ c) × (c ≤ b'9')

digits-IsDigit : (f n : ℕ) → All IsDigit (digits f n)
unfolding digits
digits-IsDigit zero n = tt
digits-IsDigit (suc f) n = ground (
  arith,
  digits-IsDigit f (n / 10),
  All-append IsDigit (digits f (n / 10)) ((b'0' + n % 10) ∷ []),
)

pub to_string-IsDigit : (n : ℕ) → All IsDigit (to_string n)
unfolding to_string
to_string-IsDigit n = digits-IsDigit (suc n) n

scan-append :
    (bound : ℕ) (xs : Text) (d n m : ℕ)
    → scan bound xs n ≡ some m
    → d < 10
    → m * 10 + d ≤ bound
    → scan bound (xs ++ (b'0' + d) ∷ []) n ≡ some (m * 10 + d)
unfolding scan
scan-append bound [] d n m e hd h = ground arith
scan-append bound (c ∷ xs) d n m e hd h =
    ground (arith, scan-append bound xs d (n * 10 + (c - b'0')) m)

scan-digits : (bound f n : ℕ) → n < f → n ≤ bound → scan bound (digits f n) 0 ≡ some n
unfolding digits scan
scan-digits bound zero n h le = absurd (omega arith)
scan-digits bound (suc f) n h le =
    ground (
      arith,
      scan-digits bound f (n / 10),
      scan-append bound (digits f (n / 10)) (n % 10) 0 (n / 10),
    )

parse-scan : (bound : ℕ) (s : Text) → s ≢ [] → All IsDigit s → parse bound s ≡ scan bound s 0
unfolding parse
parse-scan bound [] h a = absurd (h refl)
parse-scan bound (c ∷ []) h a = ground arith
parse-scan bound (c ∷ d ∷ s) h a = ground arith

digits-ne-nil : (f n : ℕ) → n < f → digits f n ≢ []
unfolding digits
digits-ne-nil zero n h e = absurd (omega arith)
digits-ne-nil (suc f) n h e = ground (arith, concat-ne-nil (b'0' + n % 10) (digits f (n / 10)))

pub to_string-ne-nil : (n : ℕ) → to_string n ≢ []
unfolding to_string
to_string-ne-nil n = digits-ne-nil (suc n) n (omega arith)

-- `parse` reads back what `to_string` printed, within the bound of its type.
pub parse-to_string : (bound n : ℕ) → n ≤ bound → parse bound (to_string n) ≡ some n
unfolding to_string
parse-to_string bound n le =
    rw (parse-scan bound (digits (suc n) n) (to_string-ne-nil n) (to_string-IsDigit n))
      (scan-digits bound (suc n) n (omega arith) le)

-- The bound of the numbers of `k` digits.
abbrev pub ten_to : ℕ → ℕ
ten_to zero = 1
ten_to (suc k) = ten_to k * 10

digits-length : (f k n : ℕ) → n < ten_to (suc k) → length (digits f n) ≤ suc k
unfolding digits
digits-length zero k n h = omega arith
digits-length (suc f) zero n h = ground arith
digits-length (suc f) (suc k) n h =
    ground
      (arith, digits-length f k (n / 10), length-append (digits f (n / 10)) ((b'0' + n % 10) ∷ []))

-- A number below 10 ^ (k + 1) is printed with at most k + 1 digits.
pub to_string-length : (k n : ℕ) → n < ten_to (suc k) → length (to_string n) ≤ suc k
unfolding to_string
to_string-length k n h = digits-length (suc n) k n h

scan-le : (bound : ℕ) (s : Text) (n m : ℕ) → n ≤ bound → scan bound s n ≡ some m → m ≤ bound
unfolding scan
scan-le bound [] n m le e = ground arith
scan-le bound (c ∷ s) n m le e = ground (arith, scan-le bound s (n * 10 + (c - b'0')) m)

-- What `parse` returns fits its type.
pub parse-le : (bound : ℕ) (s : Text) (n : ℕ) → parse bound s ≡ some n → n ≤ bound
unfolding parse
parse-le bound [] n e = absurd (ground arith)
parse-le bound (c ∷ []) n e = ground (arith, scan-le bound (c ∷ []) 0 n)
parse-le bound (c ∷ d ∷ s) n e =
    ground (arith, scan-le bound (d ∷ s) 0 n, scan-le bound (c ∷ d ∷ s) 0 n)
