-- ===== src/Json/Literals.antt =====
-- src/json.hpp: the literals that `parse_number` cuts out of a text.
use bitcoin_tui.Base.{
  Bool, true, false, ◌||◌, [], ◌∷◌, ◌++◌, append_assoc, Bytes, Option, none, some, ◌==◌, ◌≡◌, ◌≢◌,
  refl, arith, Digits, NoDigitNext, is_digit, span_digits-append, if◌then◌else◌,
}
use bitcoin_tui.Json.Parser.{take_minus, take_fraction, take_sign, take_exponent, scan_number}

-- A sign in front of an exponent, if any.
pub data Sign : Type 0 where
  unsigned plus minus : Sign

abbrev pub sign_text : Sign → Bytes
sign_text unsigned = []
sign_text plus = b'+' ∷ []
sign_text minus = b'-' ∷ []

-- A number as RFC 8259 spells it, but that leading zeros are allowed.
pub record Literal : Type 0 where
  pub negative : Bool
  pub whole : Bytes
  pub fraction : Option Bytes
  pub exponent : Option (Sign × Bytes)

abbrev pub minus_text : Bool → Bytes
minus_text negative = if negative then b'-' ∷ [] else []

abbrev pub fraction_text : Option Bytes → Bytes
fraction_text none = []
fraction_text (some ds) = b'.' ∷ ds

abbrev pub exponent_text : Option (Sign × Bytes) → Bytes
exponent_text none = []
exponent_text (some (sign, ds)) = b'e' ∷ sign_text sign ++ ds

unfoldable pub literal_text : Literal → Bytes
literal_text l =
    minus_text l.negative ++ (l.whole ++ (fraction_text l.fraction ++ exponent_text l.exponent))

abbrev pub has_fraction : Option Bytes → Bool
has_fraction none = false
has_fraction (some ds) = true

abbrev pub has_exponent : Option (Sign × Bytes) → Bool
has_exponent none = false
has_exponent (some e) = true

abbrev pub FractionDigits : Option Bytes → Type 0
FractionDigits none = Unit
FractionDigits (some ds) = Digits ds

abbrev pub ExponentDigits : Option (Sign × Bytes) → Type 0
ExponentDigits none = Unit
ExponentDigits (some (sign, ds)) = Digits ds × (ds ≢ [])

pub record IsLiteral (l : Literal) : Type 0 where
  pub whole_digits : Digits l.whole
  pub whole_ne_nil : l.whole ≢ []
  pub fraction_digits : FractionDigits l.fraction
  pub exponent_digits : ExponentDigits l.exponent

-- The text is over, or goes on with a byte that no number goes on with.
abbrev pub EndsNumber : Bytes → Type 0
EndsNumber [] = Unit
EndsNumber (c ∷ s) =
    (is_digit c ≡ false) × ((c == b'.') ≡ false) × ((c == b'e') ≡ false) × ((c == b'E') ≡ false)

EndsNumber-NoDigitNext : (s : Bytes) → EndsNumber s → NoDigitNext s
EndsNumber-NoDigitNext [] h = tt
EndsNumber-NoDigitNext (c ∷ s) h = h.0

exponent-NoDigitNext :
    (e : Option (Sign × Bytes)) (rest : Bytes)
    → EndsNumber rest
    → NoDigitNext (exponent_text e ++ rest)
exponent-NoDigitNext none rest h = EndsNumber-NoDigitNext rest h
exponent-NoDigitNext (some e) rest h = refl

fraction-NoDigitNext :
    (f : Option Bytes) (e : Option (Sign × Bytes)) (rest : Bytes)
    → EndsNumber rest
    → NoDigitNext (fraction_text f ++ (exponent_text e ++ rest))
fraction-NoDigitNext none e rest h = exponent-NoDigitNext e rest h
fraction-NoDigitNext (some f) e rest h = refl

take_sign-Digits :
    (sign : Sign) (ds rest : Bytes)
    → Digits ds
    → ds ≢ []
    → take_sign (sign_text sign ++ (ds ++ rest)) ≡ (sign_text sign, ds ++ rest)
unfolding take_sign
take_sign-Digits sign [] rest hd h = absurd (h refl)
take_sign-Digits unsigned (c ∷ ds) rest hd h = ground arith
take_sign-Digits plus (c ∷ ds) rest hd h = refl
take_sign-Digits minus (c ∷ ds) rest hd h = refl

take_exponent-text :
    (e : Option (Sign × Bytes)) (rest : Bytes)
    → ExponentDigits e
    → EndsNumber rest
    → take_exponent (exponent_text e ++ rest) ≡ (has_exponent e, exponent_text e, rest)
unfolding take_exponent
take_exponent-text none [] he hr = refl
take_exponent-text none (c ∷ rest) he hr = ground arith
take_exponent-text (some (sign, ds)) rest he hr = rw (
  append_assoc (sign_text sign) ds rest,
  take_sign-Digits sign ds rest he.0 he.1,
  span_digits-append ds rest he.0 (EndsNumber-NoDigitNext rest hr),
)

take_fraction-text :
    (f : Option Bytes) (e : Option (Sign × Bytes)) (rest : Bytes)
    → FractionDigits f
    → EndsNumber rest
    → take_fraction (fraction_text f ++ (exponent_text e ++ rest))
      ≡ (has_fraction f, fraction_text f, exponent_text e ++ rest)
unfolding take_fraction
take_fraction-text none none [] hf hr = refl
take_fraction-text none none (c ∷ rest) hf hr = ground arith
take_fraction-text none (some e) rest hf hr = refl
take_fraction-text (some ds) e rest hf hr =
    rw (span_digits-append ds _ hf (exponent-NoDigitNext e rest hr))

take_minus-text :
    (negative : Bool) (ds rest : Bytes)
    → Digits ds
    → ds ≢ []
    → take_minus (minus_text negative ++ (ds ++ rest)) ≡ (minus_text negative, ds ++ rest)
unfolding take_minus
take_minus-text negative [] rest hd h = absurd (h refl)
take_minus-text true (c ∷ ds) rest hd h = refl
take_minus-text false (c ∷ ds) rest hd h = ground arith

literal_text-append :
    (l : Literal) (rest : Bytes)
    → literal_text l ++ rest
      ≡ minus_text l.negative
        ++ (l.whole ++ (fraction_text l.fraction ++ (exponent_text l.exponent ++ rest)))
unfolding literal_text
literal_text-append l rest = simp append_assoc

-- A literal is cut out whole, and what it holds says whether it is a float.
pub scan_number-literal :
    (l : Literal) (rest : Bytes)
    → IsLiteral l
    → EndsNumber rest
    → scan_number (literal_text l ++ rest) ≡ record {
      num = literal_text l;
      is_float = has_fraction l.fraction || has_exponent l.exponent;
      rest = rest;
    }
unfolding scan_number
scan_number-literal l rest h hr =
    rw
      (
        literal_text-append l rest,
        take_minus-text l.negative l.whole _ h.whole_digits h.whole_ne_nil,
        span_digits-append l.whole _ h.whole_digits
            (fraction-NoDigitNext l.fraction l.exponent rest hr),
        take_fraction-text l.fraction l.exponent rest h.fraction_digits hr,
        take_exponent-text l.exponent rest h.exponent_digits hr,
      )
      (unfold literal_text in refl)
