-- ===== src/Json/Strings.antt =====
-- src/json.hpp: what `quote` writes, `parse_string_val` reads back; escapes and UTF-8.
use bitcoin_tui.Base.{
  ℕ, zero, suc, ◌+◌, ◌*◌, ◌/◌, ◌%◌, ◌≤◌, ◌<◌, [], ◌∷◌, ◌++◌, append_assoc, append-nil, Bytes,
  length, length-append, ok, ◌≡◌, ap, arith,
}
use bitcoin_tui.Json.Scan.{
  hex_value, hex_loop, utf8, unicode_escape, escape, string_loop, parse_string_val, expect, consume,
  skip_ws,
}
use bitcoin_tui.Json.Dump.{hex_digit, print_u, quote_byte, quote_bytes, quote}

pub hex_value-hex_digit : (d : ℕ) → d < 16 → hex_value (hex_digit d) ≡ ok d
unfolding hex_value hex_digit
hex_value-hex_digit d h = ground arith

-- The four digits of `\u%04x` are read as the number that was printed.
hex_loop-print_u :
    (c : ℕ) (rest : Bytes)
    → c < 65536
    → hex_loop 4 0 (
        hex_digit (c / 4096 % 16)
        ∷ hex_digit (c / 256 % 16)
        ∷ hex_digit (c / 16 % 16)
        ∷ hex_digit (c % 16)
        ∷ rest)
      ≡ ok (c, rest)
unfolding hex_loop
hex_loop-print_u c rest h =
    let value : ((0 * 16 + c / 4096 % 16) * 16 + c / 256 % 16) * 16 + c / 16 % 16 ≡ c / 16 =
      omega arith in
    rw
      (
        hex_value-hex_digit (c / 4096 % 16) (omega arith),
        hex_value-hex_digit (c / 256 % 16) (omega arith),
        hex_value-hex_digit (c / 16 % 16) (omega arith),
        hex_value-hex_digit (c % 16) (omega arith),
        value,
      )
      (ap (λ n. ok (n, rest)) (omega arith))

-- An escape of a code point below 2^16 that `quote` could write appends its UTF-8 form.
unicode_escape-print_u :
    (c : ℕ) (rest : Bytes)
    → c < 65536
    → escape (
        b'u'
        ∷ (hex_digit (c / 4096 % 16)
            ∷ hex_digit (c / 256 % 16)
            ∷ hex_digit (c / 16 % 16)
            ∷ hex_digit (c % 16)
            ∷ rest))
      ≡ ok (utf8 c, rest)
unfolding escape unicode_escape
unicode_escape-print_u c rest h = rw (hex_loop-print_u c rest h) (ground arith)

-- One round of the loop over `\u%04x` appends the UTF-8 form of the code point.
pub string_loop-print_u :
    (f c : ℕ) (out rest : Bytes)
    → c < 65536
    → string_loop (suc f) out (print_u c ++ rest) ≡ string_loop f (out ++ utf8 c) rest
unfolding string_loop print_u
string_loop-print_u f c out rest h = rw (unicode_escape-print_u c rest h)

utf8_ascii : (c : ℕ) → c < 0x80 → utf8 c ≡ c ∷ []
unfolding utf8
utf8_ascii c h = ground arith

string_loop_control :
    (f c : ℕ) (out rest : Bytes)
    → c < 0x20
    → string_loop (suc f) out (print_u c ++ rest) ≡ string_loop f (out ++ c ∷ []) rest
string_loop_control f c out rest h =
    rw (string_loop-print_u f c out rest (omega arith), utf8_ascii c (omega arith))

-- One round of the loop over what `quote` wrote for a byte appends that byte.
string_loop-quote_byte :
    (f c : ℕ) (out rest : Bytes)
    → string_loop (suc f) out (quote_byte c ++ rest) ≡ string_loop f (out ++ c ∷ []) rest
unfolding string_loop quote_byte escape
string_loop-quote_byte f c out rest = ground (arith, string_loop_control f c out rest)

-- The loop reads the bytes of a string back, one round for each, and stops at the closing quote.
string_loop-quote_bytes :
    (s : Bytes) (f : ℕ) (out rest : Bytes)
    → length s < f
    → string_loop f out (quote_bytes s ++ b'"' ∷ rest) ≡ ok (out ++ s, rest)
unfolding quote_bytes
string_loop-quote_bytes [] zero out rest h = absurd (omega arith)
string_loop-quote_bytes [] (suc f) out rest h = unfold string_loop in rw append-nil
string_loop-quote_bytes (c ∷ s) zero out rest h = absurd (omega arith)
string_loop-quote_bytes (c ∷ s) (suc f) out rest h =
    rw (append_assoc (quote_byte c), string_loop-quote_byte f c out)
      (rw (string_loop-quote_bytes s f (out ++ c ∷ []) rest (omega arith), append_assoc))

length-quote_byte : (c : ℕ) → 1 ≤ length (quote_byte c)
unfolding quote_byte print_u
length-quote_byte c = ground arith

length-append_bytes : (xs ys : Bytes) → length (xs ++ ys) ≡ length xs + length ys
length-append_bytes = length-append

length-quote_bytes : (s : Bytes) → length s ≤ length (quote_bytes s)
unfolding quote_bytes
length-quote_bytes [] = omega arith
length-quote_bytes (c ∷ s) =
    omega (arith, length-append_bytes, length-quote_byte c, length-quote_bytes s)

-- What `quote` writes for a string is read back as that string, whatever bytes it holds and
-- whatever follows it, and nothing of what follows is read.
pub parse_string_val-quote : (s rest : Bytes) → parse_string_val (quote s ++ rest) ≡ ok (s, rest)
unfolding parse_string_val quote expect consume skip_ws
parse_string_val-quote s rest =
    rw (append_assoc (quote_bytes s)) (
      string_loop-quote_bytes s _ [] rest
        (omega (arith, length-append_bytes, length-quote_bytes s)))
