-- ===== src/Json/Blank.antt =====
-- src/json.hpp: white space in front of a token makes no difference.
use bitcoin_tui.Base.{
  ℕ, zero, suc, ◌*◌, true, [], ◌∷◌, ◌++◌, Bytes, ◌≡◌, refl, arith, replicate, ℤ, pos, negsuc,
}
use bitcoin_tui.Json.Value.{Floats}
use bitcoin_tui.Json.Scan.{is_ws, skip_ws, peek, consume, expect, parse_string_val}
use bitcoin_tui.Json.Parser.{parse_value}
use bitcoin_tui.Json.Dump.{new_line, space_if_pretty}

abbrev pub Blank : Bytes → Type 0
Blank [] = Unit
Blank (c ∷ s) = (is_ws c ≡ true) × Blank s

pub skip_ws-Blank : (w s : Bytes) → Blank w → skip_ws (w ++ s) ≡ skip_ws s
unfolding skip_ws
skip_ws-Blank [] s h = refl
skip_ws-Blank (c ∷ w) s h = ground (arith, skip_ws-Blank w s h.1)

replicate-Blank : (n : ℕ) → Blank (replicate n 0x20)
replicate-Blank zero = tt
replicate-Blank (suc n) = (refl, replicate-Blank n)

pub new_line-Blank : (indent : ℤ) (depth : ℕ) → Blank (new_line indent depth)
unfolding new_line
new_line-Blank (pos indent) depth = (refl, replicate-Blank (depth * indent))
new_line-Blank (negsuc n) depth = tt

pub space_if_pretty-Blank : (indent : ℤ) → Blank (space_if_pretty indent)
unfolding space_if_pretty
space_if_pretty-Blank (pos indent) = (refl, tt)
space_if_pretty-Blank (negsuc n) = tt

pub peek-Blank : (w s : Bytes) → Blank w → peek (w ++ s) ≡ peek s
unfolding peek
peek-Blank w s h = rw (skip_ws-Blank w s h)

pub parse_string_val-Blank :
    (w s : Bytes) → Blank w → parse_string_val (w ++ s) ≡ parse_string_val s
unfolding parse_string_val expect consume
parse_string_val-Blank w s h = rw (skip_ws-Blank w s h)

-- White space in front of a value is skipped.
pub parse_value-Blank :
    (fl : Floats) (f : ℕ) (w s : Bytes) → Blank w → parse_value fl f (w ++ s) ≡ parse_value fl f s
unfolding parse_value
parse_value-Blank fl zero w s h = refl
parse_value-Blank fl (suc f) w s h = rw (peek-Blank w s h)
