-- ===== src/Json/Unicode.antt =====
-- src/json.hpp: the `\u` escapes of a string against an independent reading of UTF-8.
use bitcoin_tui.Base.{
  ℕ, suc, ◌+◌, ◌-◌, ◌*◌, ◌<◌, Bool, ◌&&◌, [], ◌∷◌, ◌++◌, Bytes, ltb, leb, Option, none, some,
  if◌then◌else◌, length, ok, ◌≡◌, arith, not,
}
use bitcoin_tui.Json.Scan.{utf8, string_loop, parse_string_val, expect, consume, skip_ws}
use bitcoin_tui.Json.Dump.{print_u}
use bitcoin_tui.Json.Strings.{string_loop-print_u}

-- A continuation byte of UTF-8.
abbrev is_continuation : ℕ → Bool
is_continuation b = leb 0x80 b && leb b 0xBF

-- The code points that UTF-16 uses in pairs; no code point of Unicode has such a number.
abbrev pub is_surrogate : ℕ → Bool
is_surrogate cp = leb 0xD800 cp && leb cp 0xDFFF

-- The code point of a whole sequence of one, two or three bytes, by the table of RFC 3629: the
-- shortest form only, and no surrogate.
pub decode_utf8 : Bytes → Option ℕ
decode_utf8 (a ∷ []) = if ltb a 0x80 then some a else none
decode_utf8 (a ∷ b ∷ []) =
    let cp = (a - 0xC0) * 64 + (b - 0x80) in
    if leb 0xC0 a && leb a 0xDF && is_continuation b && leb 0x80 cp then some cp else none
decode_utf8 (a ∷ b ∷ c ∷ []) =
    let cp = (a - 0xE0) * 4096 + (b - 0x80) * 64 + (c - 0x80) in
    if leb 0xE0 a
      && leb a 0xEF
      && is_continuation b
      && is_continuation c
      && leb 0x800 cp
      && not (is_surrogate cp)
    then some cp
    else none
decode_utf8 _ = none

decode_utf8-utf8 :
    (cp : ℕ) → cp < 65536 → decode_utf8 (utf8 cp) ≡ (if is_surrogate cp then none else some cp)
unfolding decode_utf8 utf8
decode_utf8-utf8 cp h = ground arith

length-print_u :
    (cp : ℕ) (rest : Bytes) → length (print_u cp ++ b'"' ∷ rest) + 1 ≡ suc (suc (length rest + 6))
unfolding print_u
length-print_u cp rest = omega arith

-- A string that holds one `\u` escape of a number below 2^16, its four hexadecimal digits in lower
-- case, is read, up to its closing quote, as bytes that are the UTF-8 form of that code point; but
-- the escape of a surrogate, even of the first or second half of a pair, gives bytes that are no
-- UTF-8.
pub parse_string_val-print_u :
    (cp : ℕ) (rest : Bytes)
    → cp < 65536
    → (parse_string_val (b'"' ∷ (print_u cp ++ b'"' ∷ rest)) ≡ ok (utf8 cp, rest))
      × (decode_utf8 (utf8 cp) ≡ (if is_surrogate cp then none else some cp))
unfolding parse_string_val expect consume skip_ws string_loop
parse_string_val-print_u cp rest h = (
  rw (length-print_u cp rest, string_loop-print_u (suc (length rest + 6)) cp [] (b'"' ∷ rest) h),
  decode_utf8-utf8 cp h,
)
