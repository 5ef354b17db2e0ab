-- ===== src/Json/Bounds.antt =====
-- src/json.hpp: the parts of the parser end within their fuel and consume what they read.
use bitcoin_tui.Base.{
  ℕ, zero, suc, ◌+◌, ◌*◌, ◌≤◌, ◌<◌, true, [], ◌∷◌, ◌++◌, Bytes, ◌==◌, ◌||◌, ltb, length, take,
  length-drop, length-take, Ensures, returns, throws, Ensures-if, Ensures-if_apply, Ensures-of,
  Post, Ensures-bind, Ensures-map, ◌≡◌, ◌≢◌, refl, ap, arith, is_digit, span_digits,
  outcome_of-Ensures, stoll-Ensures, same_bytes, same_bytes→eq,
}
use bitcoin_tui.Json.Value.{Floats}
use bitcoin_tui.Json.Scan.{
  skip_ws, consume, consume_from, expect, hex_value, hex_loop, unicode_escape, escape, string_loop,
  parse_string_val,
}
use bitcoin_tui.Json.Parser.{
  take_minus, take_fraction, take_sign, take_exponent, scan_number, keyword, parse_number,
}
use bitcoin_tui.Json.Valid.{IsValid}

abbrev pub Shorter {ℓ} : {A : Type ℓ} → Bytes → A × Bytes → Type 0
Shorter s (a, rest) = length rest < length s

pub length-skip_ws : (s : Bytes) → length (skip_ws s) ≤ length s
unfolding skip_ws
length-skip_ws [] = omega arith
length-skip_ws (c ∷ s) = ground (arith, length-skip_ws s)

consume_from-Post : (s t : Bytes) → length t ≤ length s → Post (Shorter s) (consume_from t)
consume_from-Post s [] h = tt
consume_from-Post s (c ∷ t) h = h

pub consume-Ensures : (s : Bytes) → Ensures (Shorter s) (consume s)
unfolding consume
consume-Ensures s = Ensures-of _ (consume_from-Post s (skip_ws s) (length-skip_ws s))

pub expect-Ensures : (c : ℕ) (s : Bytes) → Ensures (Shorter s) (expect c s)
unfolding expect
expect-Ensures c s =
    Ensures-bind (consume-Ensures s)
      (λ (got, rest) h. Ensures-if_apply (got == c) _ _ (λ e. returns h) (λ e. throws))

hex_value-Ensures : (h : ℕ) → Ensures (λ d. Unit) (hex_value h)
unfolding hex_value
hex_value-Ensures h = Ensures-of _ (ground arith)

hex_loop-Ensures :
    (n cp : ℕ) (s : Bytes) → Ensures (λ (c, rest). length rest ≤ length s) (hex_loop n cp s)
unfolding hex_loop
hex_loop-Ensures zero cp s = returns (omega arith)
hex_loop-Ensures (suc n) cp [] = throws
hex_loop-Ensures (suc n) cp (h ∷ s) =
    Ensures-bind (hex_value-Ensures h)
      λ d _. Ensures-map (hex_loop-Ensures n (cp * 16 + d) s) λ (c, rest) l. omega arith

unicode_escape-Ensures :
    (s : Bytes) → Ensures (λ (u, rest). length rest ≤ length s) (unicode_escape s)
unfolding unicode_escape
unicode_escape-Ensures s =
    Ensures-if (ltb (length s) 4) (λ e. throws)
      (λ e. Ensures-bind (hex_loop-Ensures 4 0 s) λ (cp, rest) l. returns l)

escape-Ensures : (s : Bytes) → Ensures (Shorter s) (escape s)
unfolding escape
escape-Ensures [] = throws
escape-Ensures (e ∷ s) =
    Ensures-if (e == b'"') (λ _. returns (omega arith))
      λ _.
        Ensures-if (e == b'\\') (λ _. returns (omega arith))
          λ _.
            Ensures-if (e == b'/') (λ _. returns (omega arith))
              λ _.
                Ensures-if (e == b'b') (λ _. returns (omega arith))
                  λ _.
                    Ensures-if (e == b'f') (λ _. returns (omega arith))
                      λ _.
                        Ensures-if (e == b'n') (λ _. returns (omega arith))
                          λ _.
                            Ensures-if (e == b'r') (λ _. returns (omega arith))
                              λ _.
                                Ensures-if (e == b't') (λ _. returns (omega arith))
                                  λ _.
                                    Ensures-if (e == b'u')
                                      (λ _.
                                        Ensures-map (unicode_escape-Ensures s)
                                          λ (u, rest) l. omega arith)
                                      (λ _. returns (omega arith))

string_loop-Ensures :
    (f : ℕ) (out s : Bytes)
    → length s < f
    → Ensures (λ (t, rest). length rest ≤ length s) (string_loop f out s)
unfolding string_loop
string_loop-Ensures zero out s h = absurd (omega arith)
string_loop-Ensures (suc f) out [] h = throws
string_loop-Ensures (suc f) out (c ∷ s) h =
    Ensures-if (c == b'"') (λ _. returns (omega arith))
      λ _.
        Ensures-if (c == b'\\')
          (λ _. Ensures-bind (escape-Ensures s) λ (u, rest) l.
            Ensures-map (string_loop-Ensures f (out ++ u) rest (omega arith))
              λ (t, more) m. omega arith)
          (λ _.
            Ensures-map (string_loop-Ensures f (out ++ c ∷ []) s (omega arith))
              λ (t, more) m. omega arith)

pub parse_string_val-Ensures : (s : Bytes) → Ensures (Shorter s) (parse_string_val s)
unfolding parse_string_val
parse_string_val-Ensures s = Ensures-bind (expect-Ensures b'"' s) λ (_, t) h.
    Ensures-map (string_loop-Ensures (length t + 1) [] t (omega arith)) λ (u, rest) l. omega arith

length-span_digits : (s : Bytes) → length (span_digits s).1 ≤ length s
unfolding span_digits
length-span_digits [] = omega arith
length-span_digits (c ∷ s) = ground (arith, length-span_digits s)

span_digits-consumes :
    (c : ℕ) (s : Bytes) → is_digit c ≡ true → length (span_digits (c ∷ s)).1 ≤ length s
unfolding span_digits
span_digits-consumes c s h = ground (arith, length-span_digits s)

length-take_fraction : (s : Bytes) → length (take_fraction s).2 ≤ length s
unfolding take_fraction
length-take_fraction [] = omega arith
length-take_fraction (c ∷ s) = ground (arith, length-span_digits s)

length-take_sign : (s : Bytes) → length (take_sign s).1 ≤ length s
unfolding take_sign
length-take_sign [] = omega arith
length-take_sign (c ∷ s) = ground arith

length-take_exponent : (s : Bytes) → length (take_exponent s).2 ≤ length s
unfolding take_exponent
length-take_exponent [] = omega arith
length-take_exponent (c ∷ s) =
    ground (arith, length-span_digits (take_sign s).1, length-take_sign s)

-- A number that begins as parse_value wants it takes one byte at least.
scan_number-consumes :
    (c : ℕ) (s : Bytes)
    → (c == b'-' || is_digit c) ≡ true
    → length (scan_number (c ∷ s)).rest ≤ length s
unfolding scan_number take_minus
scan_number-consumes c s h =
    let t = (span_digits (take_minus (c ∷ s)).1).1 in
    let u = (take_fraction t).2 in
    ground (
      arith,
      length-take_exponent u,
      length-take_fraction t,
      length-span_digits s,
      span_digits-consumes c s,
    )

pub parse_number-Ensures :
    (fl : Floats) (c : ℕ) (s : Bytes)
    → (c == b'-' || is_digit c) ≡ true
    → Ensures
        (λ (v, rest). IsValid (λ _. Unit) v × (length rest ≤ length s))
        (parse_number fl (c ∷ s))
unfolding parse_number IsValid
parse_number-Ensures fl c s h =
    let n = scan_number (c ∷ s) in
    let l = scan_number-consumes c s h in
    Ensures-if n.is_float
      (λ _. Ensures-bind (outcome_of-Ensures (fl.stod n.num)) λ d _. returns (tt, l))
      (λ _. Ensures-bind (stoll-Ensures n.num) λ i hi. returns (hi, l))

length_pos : (s : Bytes) → s ≢ [] → 0 < length s
length_pos [] h = absurd (h refl)
length_pos (c ∷ s) h = omega arith

pub keyword-Ensures : (word what s : Bytes) → word ≢ [] → Ensures (Shorter s) (keyword word what s)
unfolding keyword
keyword-Ensures word what s h =
    Ensures-if (same_bytes (take (length word) s) word)
      (λ e. returns (
        omega (
          arith,
          length-drop (length word) s,
          length-take (length word) s,
          length_pos word h,
          ap length (same_bytes→eq _ _ e),
        )))
      (λ _. throws)
