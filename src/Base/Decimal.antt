-- ===== src/Base/Decimal.antt =====
-- Decimal numerals of the standard library: std::to_string, and std::stoll on a byte string.
use Prim.Native.Nat.{ℕ, zero, suc, ◌+◌, ◌-◌, ◌*◌, ◌/◌, ◌%◌, ◌≤◌, ◌<◌}
use mathlib.Core.Path.{◌≡◌, refl}
use mathlib.Core.Bool.{Bool, true, false, ◌&&◌, ◌||◌}
use mathlib.Core.List.{[], ◌∷◌, ◌++◌, append-nil}
use mathlib.Core.Logic.{◌≢◌}
use native.Mathlib.Omega.{arith}
use bitcoin_tui.Base.Tests.{ltb, leb, leb→le, ◌==◌, if◌then◌else◌}
use bitcoin_tui.Base.Text.{Bytes}
use bitcoin_tui.Base.Integers.{ℤ, pos, negsuc, int64_max, InInt64}
use bitcoin_tui.Base.Outcomes.{
  Outcome, ok, throw, invalid_argument, out_of_range, Ensures, returns, throws, Ensures-if,
}

abbrev pub is_digit : ℕ → Bool
is_digit c = leb b'0' c && leb c b'9'

abbrev pub IsDigit : ℕ → Type 0
IsDigit c = (b'0' ≤ c) × (c ≤ b'9')

abbrev pub Digits : Bytes → Type 0
Digits [] = Unit
Digits (c ∷ s) = IsDigit c × Digits s

-- The number that digits spell behind `n`.
abbrev pub value : ℕ → Bytes → ℕ
value n [] = n
value n (c ∷ s) = value (n * 10 + (c - b'0')) s

-- The digits of `n` before `out`; `suc n` rounds are always enough.
digits : ℕ → ℕ → Bytes → Bytes
digits zero n out = out
digits (suc f) n out =
    let d = b'0' + n % 10 in
    let more = digits f (n / 10) (d ∷ out) in if ltb n 10 then d ∷ out else more

unfoldable pub to_decimal : ℕ → Bytes
unfolding digits
to_decimal n = digits (suc n) n []

-- std::to_string of a signed integer.
unfoldable pub to_string : ℤ → Bytes
to_string (pos n) = to_decimal n
to_string (negsuc n) = b'-' ∷ to_decimal (suc n)

-- The longest prefix of digits, and what follows it.
unfoldable pub span_digits : Bytes → Bytes × Bytes
span_digits [] = ([], [])
span_digits (c ∷ s) =
    let more = span_digits s in if is_digit c then (c ∷ more.0, more.1) else ([], c ∷ s)

-- std::isspace in the "C" locale.
abbrev is_space : ℕ → Bool
is_space c = c == 32 || (leb 9 c && leb c 13)

drop_space : Bytes → Bytes
drop_space [] = []
drop_space (c ∷ s) = let more = drop_space s in if is_space c then more else c ∷ s

-- The optional sign that strtoll reads: whether it is a minus, and what follows.
sign_of : Bytes → Bool × Bytes
sign_of [] = (false, [])
sign_of (c ∷ s) = if c == b'-' then (true, s) else if c == b'+' then (false, s) else (false, c ∷ s)

negate : ℕ → ℤ
negate zero = pos 0
negate (suc n) = negsuc n

in_int64 : Bool → ℕ → Outcome ℤ
unfolding negate
in_int64 true n = if leb n (int64_max + 1) then ok (negate n) else throw out_of_range
in_int64 false n = if leb n int64_max then ok (pos n) else throw out_of_range

read_digits : Bool → Bytes → Outcome ℤ
unfolding in_int64
read_digits neg [] = throw invalid_argument
read_digits neg (c ∷ ds) = in_int64 neg (value 0 (c ∷ ds))

-- std::stoll at base 10.
unfoldable pub stoll : Bytes → Outcome ℤ
unfolding drop_space sign_of span_digits read_digits
stoll s = let (neg, t) = sign_of (drop_space s) in read_digits neg (span_digits t).0

-- what the digits loop leaves: digits only, spelling the number before the digits of `out`
value-digits : (f n : ℕ) (out : Bytes) → n < f → value 0 (digits f n out) ≡ value n out
unfolding digits
value-digits zero n out h = absurd (omega arith)
value-digits (suc f) n out h = ground (arith, value-digits f (n / 10) ((b'0' + n % 10) ∷ out))

digits-Digits : (f n : ℕ) (out : Bytes) → Digits out → Digits (digits f n out)
unfolding digits
digits-Digits zero n out h = h
digits-Digits (suc f) n out h = ground (arith, digits-Digits f (n / 10) ((b'0' + n % 10) ∷ out))

digits-ne-nil : (f n : ℕ) (out : Bytes) → out ≢ [] → digits f n out ≢ []
unfolding digits
digits-ne-nil zero n out h = h
digits-ne-nil (suc f) n out h = ground (arith, digits-ne-nil f (n / 10) ((b'0' + n % 10) ∷ out))

pub value-to_decimal : (n : ℕ) → value 0 (to_decimal n) ≡ n
unfolding to_decimal
value-to_decimal n = value-digits (suc n) n [] (omega arith)

pub to_decimal-Digits : (n : ℕ) → Digits (to_decimal n)
unfolding to_decimal
to_decimal-Digits n = digits-Digits (suc n) n [] tt

pub to_decimal-ne-nil : (n : ℕ) → to_decimal n ≢ []
unfolding to_decimal
to_decimal-ne-nil n = ground (arith, digits-ne-nil n (n / 10) ((b'0' + n % 10) ∷ []))

-- The text is over, or goes on with something else than a digit.
abbrev pub NoDigitNext : Bytes → Type 0
NoDigitNext [] = Unit
NoDigitNext (c ∷ s) = is_digit c ≡ false

pub span_digits-append :
    (ds rest : Bytes) → Digits ds → NoDigitNext rest → span_digits (ds ++ rest) ≡ (ds, rest)
unfolding span_digits
span_digits-append [] [] hd hr = refl
span_digits-append [] (c ∷ rest) hd hr = ground arith
span_digits-append (c ∷ ds) rest hd hr = ground (arith, span_digits-append ds rest hd.1 hr)

-- A digit is neither space nor sign, so strtoll starts with it.
stoll-Digits : (ds : Bytes) → ds ≢ [] → Digits ds → stoll ds ≡ in_int64 false (value 0 ds)
unfolding stoll
stoll-Digits [] h hd = absurd (h refl)
stoll-Digits (c ∷ ds) h hd =
    ground (arith, span_digits-append (c ∷ ds) [] hd tt, append-nil (c ∷ ds))

stoll_minus : (ds : Bytes) → ds ≢ [] → Digits ds → stoll (b'-' ∷ ds) ≡ in_int64 true (value 0 ds)
unfolding stoll
stoll_minus [] h hd = absurd (h refl)
stoll_minus (c ∷ ds) h hd =
    ground (arith, span_digits-append (c ∷ ds) [] hd tt, append-nil (c ∷ ds))

-- Digits that spell no more than INT64_MAX are read as that number.
pub stoll_small :
    (ds : Bytes) → ds ≢ [] → Digits ds → value 0 ds ≤ int64_max → stoll ds ≡ ok (pos (value 0 ds))
unfolding in_int64
stoll_small ds h hd small = ground (arith, stoll-Digits ds h hd)

-- Every int64_t is read back from its decimal text.
pub stoll-to_string : (i : ℤ) → InInt64 i → stoll (to_string i) ≡ ok i
unfolding to_string in_int64
stoll-to_string (pos n) h = ground (
  arith,
  stoll-Digits (to_decimal n) (to_decimal-ne-nil n) (to_decimal-Digits n),
  value-to_decimal n,
)
stoll-to_string (negsuc n) h = ground (
  arith,
  stoll_minus (to_decimal (suc n)) (to_decimal-ne-nil (suc n)) (to_decimal-Digits (suc n)),
  value-to_decimal (suc n),
)

negate-InInt64 : (n : ℕ) → n ≤ int64_max + 1 → InInt64 (negate n)
unfolding negate
negate-InInt64 zero h = omega arith
negate-InInt64 (suc n) h = omega arith

read_digits-Ensures : (neg : Bool) (ds : Bytes) → Ensures InInt64 (read_digits neg ds)
unfolding read_digits
read_digits-Ensures neg [] = throws
read_digits-Ensures true (c ∷ ds) =
    let n = value 0 (c ∷ ds) in
    Ensures-if (leb n (int64_max + 1)) (λ h. returns (negate-InInt64 n (leb→le _ _ h)))
      (λ h. throws)
read_digits-Ensures false (c ∷ ds) =
    let n = value 0 (c ∷ ds) in
    Ensures-if (leb n int64_max) (λ h. returns {a = pos n} (leb→le _ _ h)) (λ h. throws)

-- What stoll returns fits: a numeral out of range is an exception.
pub stoll-Ensures : (s : Bytes) → Ensures InInt64 (stoll s)
unfolding stoll
stoll-Ensures s = let (neg, t) = sign_of (drop_space s) in read_digits-Ensures neg (span_digits t).0
