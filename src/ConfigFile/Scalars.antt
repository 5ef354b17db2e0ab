-- ===== src/ConfigFile/Scalars.antt =====
-- src/tabs/luatab.cpp: a scalar that is written, and what is read back of it.
use bitcoin_tui.Base.{
  ℕ, suc, ◌^◌, ◌-◌, ◌≤◌, Bool, true, false, [], ◌∷◌, ◌++◌, Bytes, ◌==◌, some, ℤ, pos, negsuc,
  to_decimal, to_string, value, span_digits, span_digits-append, to_decimal-Digits,
  to_decimal-ne-nil, value-to_decimal, Digits, append-nil, ◌≢◌, ◌≡◌, refl, arith,
}
use bitcoin_tui.Config.Cookie.{Lacks}
use bitcoin_tui.ConfigFile.Text.{
  white_front, white_back, drop_quote, parse_toml_scalar, escaped, toml_quote, in_int, read_int,
  from_chars,
}

white_back-quote : (s : Bytes) → white_back (s ++ b'"' ∷ []) ≡ s ++ b'"' ∷ []
unfolding white_back
white_back-quote [] = refl
white_back-quote (c ∷ []) = refl
white_back-quote (c ∷ d ∷ s) = rw (white_back-quote (d ∷ s)) refl

pub drop_quote-quote : (s : Bytes) → drop_quote (s ++ b'"' ∷ []) ≡ some s
unfolding drop_quote
drop_quote-quote [] = refl
drop_quote-quote (c ∷ []) = refl
drop_quote-quote (c ∷ d ∷ s) = ground (arith, drop_quote-quote (d ∷ s))

-- The reader takes the quotes off and leaves the backslashes that the writer put in.
pub parse_toml_scalar-toml_quote : (v : Bytes) → parse_toml_scalar (toml_quote v) ≡ escaped v
unfolding parse_toml_scalar toml_quote white_front
parse_toml_scalar-toml_quote v =
    rw (white_back-quote (b'"' ∷ escaped v), drop_quote-quote (escaped v)) refl

-- A text with no backslash and no quote needs none.
pub escaped-kept : (v : Bytes) → Lacks b'\\' v → Lacks b'"' v → escaped v ≡ v
unfolding escaped
escaped-kept [] h k = refl
escaped-kept (c ∷ v) h k = rw (h.0, k.0, escaped-kept v h.1 k.1) refl

pub escaped-Lacks : (b : ℕ) (v : Bytes) → (b'\\' == b) ≡ false → Lacks b v → Lacks b (escaped v)
unfolding escaped
escaped-Lacks b [] h k = tt
escaped-Lacks b (c ∷ v) h k = ground (arith, escaped-Lacks b v h k.1)

-- The values of int.
abbrev pub InInt : ℤ → Type 0
InInt (pos n) = n ≤ 2 ^ 31 - 1
InInt (negsuc n) = n ≤ 2 ^ 31 - 1

read_int-Digits :
    (neg : Bool) (ds : Bytes)
    → ds ≢ []
    → Digits ds
    → read_int neg (span_digits ds).0 ≡ in_int neg (value 0 ds)
unfolding read_int
read_int-Digits neg [] h hd = absurd (h refl)
read_int-Digits neg (c ∷ ds) h hd =
    ground (arith, span_digits-append (c ∷ ds) [] hd tt, append-nil (c ∷ ds))

from_chars-Digits : (ds : Bytes) → ds ≢ [] → Digits ds → from_chars ds ≡ in_int false (value 0 ds)
unfolding from_chars
from_chars-Digits [] h hd = absurd (h refl)
from_chars-Digits (c ∷ ds) h hd = ground (arith, read_int-Digits false (c ∷ ds) h hd)

from_chars_minus :
    (ds : Bytes) → ds ≢ [] → Digits ds → from_chars (b'-' ∷ ds) ≡ in_int true (value 0 ds)
unfolding from_chars
from_chars_minus ds h hd = read_int-Digits true ds h hd

pub from_chars-to_string : (i : ℤ) → InInt i → from_chars (to_string i) ≡ some i
unfolding to_string in_int
from_chars-to_string (pos n) h = ground (
  arith,
  from_chars-Digits (to_decimal n) (to_decimal-ne-nil n) (to_decimal-Digits n),
  value-to_decimal n,
)
from_chars-to_string (negsuc n) h = ground (
  arith,
  from_chars_minus (to_decimal (suc n)) (to_decimal-ne-nil (suc n)) (to_decimal-Digits (suc n)),
  value-to_decimal (suc n),
)

Digits-Lacks : (b : ℕ) (ds : Bytes) → Digits ds → b ≤ b'-' → Lacks b ds
Digits-Lacks b [] hd h = tt
Digits-Lacks b (d ∷ ds) hd h = (ground (arith, hd.0), Digits-Lacks b ds hd.1 h)

pub to_string-Lacks : (b : ℕ) (i : ℤ) → b ≤ 44 → Lacks b (to_string i)
unfolding to_string
to_string-Lacks b (pos n) h = Digits-Lacks b (to_decimal n) (to_decimal-Digits n) (omega arith)
to_string-Lacks b (negsuc n) h =
    (ground arith, Digits-Lacks b (to_decimal (suc n)) (to_decimal-Digits (suc n)) (omega arith))
