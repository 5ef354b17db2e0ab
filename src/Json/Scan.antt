-- ===== src/Json/Scan.antt =====
-- src/json.hpp: the parts of `Parser` that do not recur on values. A parser takes the text from
-- `pos` on, and returns what it read with the text that is left.
use bitcoin_tui.Base.{
  ℕ, zero, suc, ◌+◌, ◌-◌, ◌*◌, ◌/◌, ◌%◌, Bool, ◌||◌, ◌&&◌, [], ◌∷◌, ◌++◌, Bytes, codes, ltb, leb,
  ◌==◌, if◌then◌else◌, length, Outcome, ok, throw, out_of_fuel, json_exception, bind,
}

abbrev pub Parser {ℓ} : Type ℓ → Type ℓ
Parser A = Bytes → Outcome (A × Bytes)

module _ {ℓ} {A : Type ℓ} where
  abbrev pub pure : A → Parser A
  pure a s = ok (a, s)

  abbrev pub fail : Bytes → Parser A
  fail what s = throw (json_exception what)

  abbrev pub run : Bytes → Parser A → Outcome (A × Bytes)
  run s p = p s

module _ {ℓ κ} {A : Type ℓ} {B : Type κ} where
  infixl 1 ◌>>=◌ ◌>>◌
  abbrev pub ◌>>=◌ : Parser A → (A → Parser B) → Parser B
  p >>= f = λ s. bind (p s) λ (a, rest). f a rest

  abbrev pub ◌>>◌ : Parser A → Parser B → Parser B
  p >> q = p >>= λ _. q

abbrev pub is_ws : ℕ → Bool
is_ws c = c == 0x20 || c == 0x09 || c == 0x0d || c == 0x0a

unfoldable pub skip_ws : Bytes → Bytes
skip_ws [] = []
skip_ws (c ∷ s) = let rest = skip_ws s in if is_ws c then rest else c ∷ s

-- The byte that comes next, and a zero byte at the end.
abbrev pub front : Bytes → ℕ
front [] = 0
front (c ∷ s) = c

unfoldable pub peek : Parser ℕ
peek s = ok (front (skip_ws s), skip_ws s)

abbrev pub consume_from : Bytes → Outcome (ℕ × Bytes)
consume_from [] = throw (json_exception (codes "Unexpected end of input"))
consume_from (c ∷ s) = ok (c, s)

unfoldable pub consume : Parser ℕ
consume s = consume_from (skip_ws s)

unfoldable pub expect : ℕ → Parser (Unit {0})
expect c = do
  got ← consume
  if got == c
      then pure tt
      else fail (codes "Expected '" ++ (c ∷ codes "', got '" ++ (got ∷ codes "'")))

-- One hexadecimal digit of an escape, of either case.
unfoldable pub hex_value : ℕ → Outcome ℕ
hex_value h =
    if leb b'0' h && leb h b'9'
    then ok (h - b'0')
    else if leb b'a' h && leb h b'f'
    then ok (h - b'a' + 10)
    else if leb b'A' h && leb h b'F'
    then ok (h - b'A' + 10)
    else throw (json_exception (codes "Bad hex in \\u escape"))

-- `cp <<= 4; cp |= digit` for each of `n` digits: the low four bits are free, so `|` adds.
unfoldable pub hex_loop : ℕ → ℕ → Parser ℕ
unfolding hex_value
hex_loop zero cp s = ok (cp, s)
hex_loop (suc n) cp [] = throw (json_exception (codes "Truncated \\u escape"))
hex_loop (suc n) cp (h ∷ s) = bind (hex_value h) λ d. hex_loop n (cp * 16 + d) s

-- A code point of up to 16 bits in UTF-8. Each `|` joins disjoint bits, so it adds.
unfoldable pub utf8 : ℕ → Bytes
utf8 cp =
    if ltb cp 0x80
    then cp ∷ []
    else if ltb cp 0x800
    then (0xC0 + cp / 64) ∷ (0x80 + cp % 64) ∷ []
    else (0xE0 + cp / 4096) ∷ (0x80 + (cp / 64) % 64) ∷ (0x80 + cp % 64) ∷ []

unfoldable pub unicode_escape : Parser Bytes
unfolding hex_loop utf8
unicode_escape s =
    if ltb (length s) 4
    then throw (json_exception (codes "Truncated \\u escape"))
    else bind (hex_loop 4 0 s) λ (cp, rest). ok (utf8 cp, rest)

-- The `switch` behind a backslash: what it appends to the string.
unfoldable pub escape : Parser Bytes
unfolding unicode_escape
escape [] = throw (json_exception (codes "Unterminated string"))
escape (e ∷ s) =
    if e == b'"'
    then ok (b'"' ∷ [], s)
    else if e == b'\\'
    then ok (b'\\' ∷ [], s)
    else if e == b'/'
    then ok (b'/' ∷ [], s)
    else if e == b'b'
    then ok (0x08 ∷ [], s)
    else if e == b'f'
    then ok (0x0c ∷ [], s)
    else if e == b'n'
    then ok (0x0a ∷ [], s)
    else if e == b'r'
    then ok (0x0d ∷ [], s)
    else if e == b't'
    then ok (0x09 ∷ [], s)
    else if e == b'u'
    then unicode_escape s
    else ok (e ∷ [], s)

-- The loop of `parse_string_val`; a round reads one byte at least.
unfoldable pub string_loop : ℕ → Bytes → Parser Bytes
string_loop zero out s = out_of_fuel
string_loop (suc f) out [] = throw (json_exception (codes "Unterminated string"))
string_loop (suc f) out (c ∷ s) =
    let plain = string_loop f (out ++ c ∷ []) s in
    let escaped = bind (escape s) (λ (u, rest). string_loop f (out ++ u) rest) in
    if c == b'"' then ok (out, s) else if c == b'\\' then escaped else plain

unfoldable pub parse_string_val : Parser Bytes
parse_string_val = do expect b'"'; (λ s. string_loop (length s + 1) [] s)
