-- ===== src/Json/Parser.antt =====
-- src/json.hpp: `parse_number`, `parse_value` and `parse`. What a call leaves of the text is no
-- structural part of it, so the calls of `parse_value` run on fuel.
use bitcoin_tui.Base.{
  ℕ, zero, suc, ◌+◌, ◌*◌, Bool, true, false, ◌||◌, [], ◌∷◌, ◌++◌, Bytes, codes, ◌==◌, if◌then◌else◌,
  length, take, drop, Outcome, ok, throw, out_of_fuel, json_exception, bind, outcome_of, same_bytes,
  is_digit, span_digits, stoll,
}
use bitcoin_tui.Json.Value.{
  Floats, Json, Items, Fields, null, bool, int, float, string, array, object, no_items, no_fields,
  push_back, insert,
}
use bitcoin_tui.Json.Scan.{
  Parser, pure, fail, run, ◌>>=◌, ◌>>◌, skip_ws, peek, consume, expect, parse_string_val,
}

-- What `parse_number` cuts out of the text.
pub record NumberText : Type 0 where
  pub num : Bytes
  pub is_float : Bool
  pub rest : Bytes

-- `if (src[pos] == '-') ++pos`
unfoldable pub take_minus : Bytes → Bytes × Bytes
take_minus [] = ([], [])
take_minus (c ∷ s) = if c == b'-' then (c ∷ [], s) else ([], c ∷ s)

-- The fraction: a point and the digits behind it.
unfoldable pub take_fraction : Bytes → Bool × Bytes × Bytes
unfolding span_digits
take_fraction [] = (false, [], [])
take_fraction (c ∷ s) =
    if c == b'.' then (true, c ∷ (span_digits s).0, (span_digits s).1) else (false, [], c ∷ s)

-- The optional sign of the exponent.
unfoldable pub take_sign : Bytes → Bytes × Bytes
take_sign [] = ([], [])
take_sign (c ∷ s) = if c == b'+' || c == b'-' then (c ∷ [], s) else ([], c ∷ s)

-- The exponent: its letter, its sign and its digits.
unfoldable pub take_exponent : Bytes → Bool × Bytes × Bytes
unfolding span_digits take_sign
take_exponent [] = (false, [], [])
take_exponent (c ∷ s) =
    let (sign, t) = take_sign s in
    if c == b'e' || c == b'E'
    then (true, c ∷ sign ++ (span_digits t).0, (span_digits t).1)
    else (false, [], c ∷ s)

unfoldable pub scan_number : Bytes → NumberText
unfolding take_minus span_digits take_fraction take_exponent
scan_number s =
    let (minus, s₁) = take_minus s in
    let (whole, s₂) = span_digits s₁ in
    let (pointed, fraction, s₃) = take_fraction s₂ in
    let (raised, exponent, s₄) = take_exponent s₃ in
    record {
      num = minus ++ (whole ++ (fraction ++ exponent));
      is_float = pointed || raised;
      rest = s₄;
    }

-- `src.substr(pos, n) != word` and `pos += n`
unfoldable pub keyword : Bytes → Bytes → Parser (Unit {0})
keyword word what s =
    if same_bytes (take (length word) s) word
    then ok (tt, drop (length word) s)
    else throw (json_exception what)

module _ (fl : Floats) where
  open fl use {Double, stod}

  unfoldable pub parse_number : Parser (Json Double)
  parse_number s =
      let n = scan_number s in
      if n.is_float
      then bind (outcome_of (stod n.num)) (λ d. ok (float d, n.rest))
      else bind (stoll n.num) (λ i. ok (int i, n.rest))

  -- `parse_value` after its `peek` for a value that holds no other value.
  unfoldable pub parse_scalar : ℕ → Parser (Json Double)
  parse_scalar c =
      if c == b'"'
      then (do s ← parse_string_val; pure (string s))
      else if c == b't'
      then (do keyword (codes "true") (codes "Expected 'true'"); pure (bool true))
      else if c == b'f'
      then (do keyword (codes "false") (codes "Expected 'false'"); pure (bool false))
      else if c == b'n'
      then (do keyword (codes "null") (codes "Expected 'null'"); pure null)
      else if c == b'-' || is_digit c
      then parse_number
      else fail (codes "Unexpected character: " ++ (c ∷ []))

  unfoldable mutual
    pub parse_value : ℕ → Parser (Json Double)
    parse_value zero s = out_of_fuel
    parse_value (suc f) s = run s do
      c ← peek
      if c == b'{'
          then (do
            consume
            next ← peek
            if next == b'}'
                then (do consume; pure (object no_fields))
                else parse_members f no_fields)
          else if c == b'['
          then (do
            consume
            next ← peek
            if next == b']' then (do consume; pure (array no_items)) else parse_elements f no_items)
          else parse_scalar c

    -- The loop over the members of an object, `oval_` so far first.
    pub parse_members : ℕ → Fields Double → Parser (Json Double)
    parse_members zero oval s = out_of_fuel
    parse_members (suc f) oval s = run s do
      key ← parse_string_val
      expect b':'
      v ← parse_value f
      sep ← peek
      if sep == b'}'
          then (do consume; pure (object (insert key v oval)))
          else if sep == b','
          then (do consume; parse_members f (insert key v oval))
          else fail (codes "Expected ',' or '}'")

    -- The loop over the elements of an array, `aval_` so far first.
    pub parse_elements : ℕ → Items Double → Parser (Json Double)
    parse_elements zero aval s = out_of_fuel
    parse_elements (suc f) aval s = run s do
      v ← parse_value f
      sep ← peek
      if sep == b']'
          then (do consume; pure (array (push_back aval v)))
          else if sep == b','
          then (do consume; parse_elements f (push_back aval v))
          else fail (codes "Expected ',' or ']'")

  -- `p.pos != s.size()` behind the value and its white space.
  unfoldable pub finish : Json Double → Bytes → Outcome (Json Double)
  finish v [] = ok v
  finish v (c ∷ s) = throw (json_exception (codes "Trailing content after JSON value"))

  -- Two rounds for each byte and one more are always enough.
  unfoldable pub parse : Bytes → Outcome (Json Double)
  parse s = bind (parse_value (2 * length s + 1) s) λ (v, rest). finish v (skip_ws rest)
