-- ===== src/ConfigFile/Text.antt =====
-- src/tabs/luatab.cpp: the lines and the scalars of config.toml.
use bitcoin_tui.Base.{
  ℕ, zero, suc, ◌^◌, ◌-◌, Bool, true, false, ◌||◌, List, [], ◌∷◌, ◌++◌, Bytes, leb, ◌==◌,
  if◌then◌else◌, Option, none, some, ℤ, pos, negsuc, value, span_digits,
}

-- The calls of std::getline until the text is over.
unfoldable pub push : ℕ → List Bytes → List Bytes
push c [] = (c ∷ []) ∷ []
push c (l ∷ ls) = (c ∷ l) ∷ ls

unfoldable pub lines : Bytes → List Bytes
unfolding push
lines [] = []
lines (c ∷ s) = let more = lines s in if c == 0x0a then [] ∷ more else push c more

-- `for (const auto& line : out) f << line << "\n"`
unfoldable pub unlines : List Bytes → Bytes
unlines [] = []
unlines (l ∷ ls) = l ++ 0x0a ∷ unlines ls

-- White space of a scalar: " \t\r\n".
abbrev pub is_white : ℕ → Bool
is_white c = c == b' ' || c == b'\t' || c == b'\r' || c == b'\n'

unfoldable pub white_front : Bytes → Bytes
white_front [] = []
white_front (c ∷ s) = let more = white_front s in if is_white c then more else c ∷ s

-- What is left in front of the white space at the end, and `c` before it.
before_white : ℕ → Bytes → Bytes
before_white c [] = if is_white c then [] else c ∷ []
before_white c (d ∷ s) = c ∷ d ∷ s

unfoldable pub white_back : Bytes → Bytes
unfolding before_white
white_back [] = []
white_back (c ∷ s) = before_white c (white_back s)

-- The text in front of a quote at the end, if it ends with one.
unfoldable pub drop_quote : Bytes → Option Bytes
drop_quote [] = none
drop_quote (c ∷ []) = if c == b'"' then some [] else none
drop_quote (c ∷ d ∷ s) = elim (drop_quote (d ∷ s)) [ none ↦ none | some front ↦ some (c ∷ front) ]

-- `s.substr(1, s.size() - 2)`, if there is a quote at either end, two of them.
unquoted : Bytes → Bytes
unfolding drop_quote
unquoted [] = []
unquoted (c ∷ s) =
    if c == b'"' then elim (drop_quote s) [ none ↦ c ∷ s | some inner ↦ inner ] else c ∷ s

unfoldable pub parse_toml_scalar : Bytes → Bytes
unfolding white_front white_back unquoted
parse_toml_scalar s = unquoted (white_back (white_front s))

unfoldable pub escaped : Bytes → Bytes
escaped [] = []
escaped (c ∷ s) = if c == b'\\' || c == b'"' then b'\\' ∷ c ∷ escaped s else c ∷ escaped s

unfoldable pub toml_quote : Bytes → Bytes
unfolding escaped
toml_quote v = b'"' ∷ (escaped v ++ b'"' ∷ [])

unfoldable pub in_int : Bool → ℕ → Option ℤ
in_int false n = if leb n (2 ^ 31 - 1) then some (pos n) else none
in_int true zero = some (pos 0)
in_int true (suc n) = if leb n (2 ^ 31 - 1) then some (negsuc n) else none

unfoldable pub read_int : Bool → Bytes → Option ℤ
unfolding in_int
read_int neg [] = none
read_int neg (c ∷ ds) = in_int neg (value 0 (c ∷ ds))

-- std::from_chars for an int; `none` if there is an error.
unfoldable pub from_chars : Bytes → Option ℤ
unfolding read_int span_digits
from_chars [] = none
from_chars (c ∷ s) =
    if c == b'-' then read_int true (span_digits s).0 else read_int false (span_digits (c ∷ s)).0
