-- ===== src/Json/Numbers.antt =====
-- src/json.hpp: the numbers that are printed and read back.
use bitcoin_tui.Base.{
  ℕ, suc, Bool, true, false, ◌||◌, [], ◌∷◌, ◌++◌, Bytes, none, ◌==◌, ◌≡◌, ◌≢◌, refl, ap, append-nil,
  arith, Digits, is_digit, to_string, stoll-to_string, to_decimal, to_decimal-Digits,
  to_decimal-ne-nil, ℤ, pos, negsuc, InInt64, ok, inr,
}
use bitcoin_tui.Json.Value.{Floats, int, float}
use bitcoin_tui.Json.Parser.{scan_number, parse_number}
use bitcoin_tui.Json.Literals.{
  Literal, minus_text, literal_text, has_fraction, has_exponent, IsLiteral, EndsNumber,
  scan_number-literal,
}

-- The literal of an integer.
int_literal : ℤ → Literal
int_literal (pos n) = record {
  negative = false;
  whole = to_decimal n;
  fraction = none;
  exponent = none;
}
int_literal (negsuc n) = record {
  negative = true;
  whole = to_decimal (suc n);
  fraction = none;
  exponent = none;
}

int_literal-IsLiteral : (i : ℤ) → IsLiteral (int_literal i)
unfolding int_literal
int_literal-IsLiteral (pos n) = record {
  whole_digits = to_decimal-Digits n;
  whole_ne_nil = to_decimal-ne-nil n;
  fraction_digits = tt;
  exponent_digits = tt;
}
int_literal-IsLiteral (negsuc n) = record {
  whole_digits = to_decimal-Digits (suc n);
  whole_ne_nil = to_decimal-ne-nil (suc n);
  fraction_digits = tt;
  exponent_digits = tt;
}

literal_text-int_literal : (i : ℤ) → literal_text (int_literal i) ≡ to_string i
unfolding literal_text int_literal to_string
literal_text-int_literal (pos n) = append-nil (to_decimal n)
literal_text-int_literal (negsuc n) = ap (λ t. b'-' ∷ t) (append-nil (to_decimal (suc n)))

scan_number-to_string :
    (i : ℤ) (rest : Bytes)
    → EndsNumber rest
    → scan_number (to_string i ++ rest)
      ≡ record { num = to_string i; is_float = false; rest = rest }
unfolding int_literal
scan_number-to_string (pos n) rest h =
    let l = int_literal (pos n) in
    rw (literal_text-int_literal (pos n)) at
      (scan_number-literal l rest (int_literal-IsLiteral (pos n)) h)
scan_number-to_string (negsuc n) rest h =
    let l = int_literal (negsuc n) in
    rw (literal_text-int_literal (negsuc n)) at
      (scan_number-literal l rest (int_literal-IsLiteral (negsuc n)) h)

-- A double whose text is a float literal that std::stod reads back.
pub record ReadsBack (fl : Floats) (d : fl.Double) : Type 0 where
  pub finite : fl.is_finite d ≡ true
  pub literal : Literal
  pub literal_valid : IsLiteral literal
  pub is_float : (has_fraction literal.fraction || has_exponent literal.exponent) ≡ true
  pub printed : fl.print d ≡ literal_text literal
  pub read : fl.stod (fl.print d) ≡ inr d

pub parse_number-to_string :
    (fl : Floats) (i : ℤ) (rest : Bytes)
    → InInt64 i
    → EndsNumber rest
    → parse_number fl (to_string i ++ rest) ≡ ok (int i, rest)
unfolding parse_number
parse_number-to_string fl i rest hi hr = rw (scan_number-to_string i rest hr, stoll-to_string i hi)

pub parse_number-print :
    (fl : Floats) (d : fl.Double) (rest : Bytes)
    → ReadsBack fl d
    → EndsNumber rest
    → parse_number fl (fl.print d ++ rest) ≡ ok (float d, rest)
unfolding parse_number
parse_number-print fl d rest h hr =
    let e = h.printed in
    let scanned = rw (← e, h.is_float) at (scan_number-literal h.literal rest h.literal_valid hr) in
    rw (scanned, h.read)

-- What parse_value tests for: the first byte of a number.
abbrev pub starts_number : ℕ → Bool
starts_number c = c == b'-' || is_digit c

number-front :
    (negative : Bool) (ds rest : Bytes)
    → Digits ds
    → ds ≢ []
    → (c : ℕ) × (t : Bytes) × (minus_text negative ++ (ds ++ rest) ≡ c ∷ t)
      × (starts_number c ≡ true)
number-front negative [] rest hd h = absurd (h refl)
number-front true (c ∷ ds) rest hd h = (b'-', c ∷ ds ++ rest, refl, refl)
number-front false (c ∷ ds) rest hd h = (c, ds ++ rest, refl, ground arith)

-- A number begins with its minus or with a digit.
pub literal-front :
    (l : Literal)
    → IsLiteral l
    → (c : ℕ) × (t : Bytes) × (literal_text l ≡ c ∷ t) × (starts_number c ≡ true)
unfolding literal_text
literal-front l h = number-front l.negative l.whole _ h.whole_digits h.whole_ne_nil

pub to_string-front :
    (i : ℤ) → (c : ℕ) × (t : Bytes) × (to_string i ≡ c ∷ t) × (starts_number c ≡ true)
to_string-front i =
    rw (literal_text-int_literal i) at (literal-front (int_literal i) (int_literal-IsLiteral i))
