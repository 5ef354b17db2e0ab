-- ===== src/Json/Rendered.antt =====
-- src/json.hpp: single steps of the parser over a text that `dump_impl` wrote.
use bitcoin_tui.Base.{
  ℕ, suc, true, false, ◌∷◌, ◌++◌, Bytes, codes, ◌==◌, if◌then◌else◌, ℤ, ok, bind, ◌≡◌, refl, ◌∙◌,
  arith,
}
use bitcoin_tui.Json.Value.{
  Floats, Json, Items, Fields, null, bool, int, float, string, array, object, no_items, item,
  no_fields, field, push_back, insert,
}
use bitcoin_tui.Json.Scan.{
  Parser, run, pure, fail, ◌>>=◌, ◌>>◌, is_ws, skip_ws, peek, consume, expect, parse_string_val,
}
use bitcoin_tui.Json.Parser.{parse_number, parse_scalar, parse_value, parse_members, parse_elements}
use bitcoin_tui.Json.Dump.{quote, dump_impl}
use bitcoin_tui.Json.Strings.{parse_string_val-quote}
use bitcoin_tui.Json.Numbers.{ReadsBack, starts_number, literal-front, to_string-front}
use bitcoin_tui.Json.Valid.{IsValid}

pub peek_token : (c : ℕ) (t : Bytes) → is_ws c ≡ false → peek (c ∷ t) ≡ ok (c, c ∷ t)
unfolding peek skip_ws
peek_token c t h = rw h

module _ (fl : Floats) where
  open fl use {Double}

  parse_value-number :
      (f c : ℕ) (t : Bytes)
      → starts_number c ≡ true
      → parse_value fl (suc f) (c ∷ t) ≡ parse_number fl (c ∷ t)
  unfolding parse_value peek skip_ws parse_scalar
  parse_value-number f c t h = ground arith

  pub parse_value-starts :
      (f : ℕ) (s rest : Bytes)
      → (c : ℕ) × (t : Bytes) × (s ≡ c ∷ t) × (starts_number c ≡ true)
      → parse_value fl (suc f) (s ++ rest) ≡ parse_number fl (s ++ rest)
  parse_value-starts f s rest (c, t, e, h) = rw e (parse_value-number f c (t ++ rest) h)

  parse_value-quoted :
      (f : ℕ) (t : Bytes)
      → parse_value fl (suc f) (b'"' ∷ t)
        ≡ bind (parse_string_val (b'"' ∷ t)) (λ (s, rest). ok (string s, rest))
  unfolding parse_value peek skip_ws parse_scalar
  parse_value-quoted f t = refl

  pub parse_value-quote :
      (f : ℕ) (s rest : Bytes) → parse_value fl (suc f) (quote s ++ rest) ≡ ok (string s, rest)
  parse_value-quote f s rest =
      unfold quote in parse_value-quoted f _ ∙ rw (parse_string_val-quote s rest)

  pub parse_value-array :
      (f c : ℕ) (t t' : Bytes)
      → peek t ≡ ok (c, t')
      → (c == b']') ≡ false
      → parse_value fl (suc f) (b'[' ∷ t) ≡ parse_elements fl f no_items t'
  unfolding parse_value skip_ws consume
  parse_value-array f c t t' h ne = rw (peek_token b'[' t refl, h, ne)

  pub parse_value-object :
      (f c : ℕ) (t t' : Bytes)
      → peek t ≡ ok (c, t')
      → (c == b'}') ≡ false
      → parse_value fl (suc f) (b'{' ∷ t) ≡ parse_members fl f no_fields t'
  unfolding parse_value skip_ws consume
  parse_value-object f c t t' h ne = rw (peek_token b'{' t refl, h, ne)

  -- What follows an element in the loop over an array.
  abbrev pub after_element : ℕ → Items Double → Parser (Json Double)
  after_element f aval s = run s do
    sep ← peek
    if sep == b']'
        then (do consume; pure (array aval))
        else if sep == b','
        then (do consume; parse_elements fl f aval)
        else fail (codes "Expected ',' or ']'")

  -- What follows a member in the loop over an object.
  abbrev pub after_member : ℕ → Fields Double → Parser (Json Double)
  after_member f oval s = run s do
    sep ← peek
    if sep == b'}'
        then (do consume; pure (object oval))
        else if sep == b','
        then (do consume; parse_members fl f oval)
        else fail (codes "Expected ',' or '}'")

  pub after_element_end :
      (f : ℕ) (aval : Items Double) (w rest : Bytes)
      → peek (w ++ b']' ∷ rest) ≡ peek (b']' ∷ rest)
      → after_element f aval (w ++ b']' ∷ rest) ≡ ok (array aval, rest)
  unfolding consume skip_ws
  after_element_end f aval w rest h = rw h (unfold peek in refl)

  pub after_element_comma :
      (f : ℕ) (aval : Items Double) (rest : Bytes)
      → after_element f aval (b',' ∷ rest) ≡ parse_elements fl f aval rest
  unfolding consume skip_ws peek
  after_element_comma f aval rest = refl

  pub after_member_end :
      (f : ℕ) (oval : Fields Double) (w rest : Bytes)
      → peek (w ++ b'}' ∷ rest) ≡ peek (b'}' ∷ rest)
      → after_member f oval (w ++ b'}' ∷ rest) ≡ ok (object oval, rest)
  unfolding consume skip_ws
  after_member_end f oval w rest h = rw h (unfold peek in refl)

  pub after_member_comma :
      (f : ℕ) (oval : Fields Double) (rest : Bytes)
      → after_member f oval (b',' ∷ rest) ≡ parse_members fl f oval rest
  unfolding consume skip_ws peek
  after_member_comma f oval rest = refl

  pub parse_elements-value :
      (f : ℕ) (aval : Items Double) (v : Json Double) (s rest : Bytes)
      → parse_value fl f s ≡ ok (v, rest)
      → parse_elements fl (suc f) aval s ≡ after_element f (push_back aval v) rest
  unfolding parse_elements
  parse_elements-value f aval v s rest h = rw h

  pub parse_members-value :
      (f : ℕ) (oval : Fields Double) (key : Bytes) (v : Json Double) (s t rest : Bytes)
      → parse_string_val s ≡ ok (key, b':' ∷ t)
      → parse_value fl f t ≡ ok (v, rest)
      → parse_members fl (suc f) oval s ≡ after_member f (insert key v oval) rest
  unfolding parse_members expect consume skip_ws
  parse_members-value f oval key v s t rest hk hv = rw (hk, hv)

  -- A rendered value begins with a byte that is no white space and closes nothing.
  pub record IsOpening (c : ℕ) : Type 0 where
    pub no_space : is_ws c ≡ false
    pub no_bracket : (c == b']') ≡ false

  unfoldable pub Opens : Bytes → Type 0
  Opens s = (c : ℕ) × (t : Bytes) × (s ≡ c ∷ t) × IsOpening c

  number-Opens :
      (s : Bytes) → (c : ℕ) × (t : Bytes) × (s ≡ c ∷ t) × (starts_number c ≡ true) → Opens s
  unfolding Opens
  number-Opens s (c, t, e, h) =
      (c, t, e, record { no_space = ground arith; no_bracket = ground arith })

  pub dump_impl-Opens :
      (indent : ℤ) (depth : ℕ) (v : Json Double)
      → IsValid (ReadsBack fl) v
      → Opens (dump_impl fl indent depth v)
  unfolding dump_impl IsValid Opens quote
  dump_impl-Opens indent depth null h = (_, _, refl, record { no_space = refl; no_bracket = refl })
  dump_impl-Opens indent depth (bool true) h =
      (_, _, refl, record { no_space = refl; no_bracket = refl })
  dump_impl-Opens indent depth (bool false) h =
      (_, _, refl, record { no_space = refl; no_bracket = refl })
  dump_impl-Opens indent depth (int i) h = number-Opens _ (to_string-front i)
  dump_impl-Opens indent depth (float d) h =
      rw (h.finite, h.printed) (number-Opens _ (literal-front h.literal h.literal_valid))
  dump_impl-Opens indent depth (string s) h =
      (_, _, refl, record { no_space = refl; no_bracket = refl })
  dump_impl-Opens indent depth (array no_items) h =
      (_, _, refl, record { no_space = refl; no_bracket = refl })
  dump_impl-Opens indent depth (array (item v xs)) h =
      (_, _, refl, record { no_space = refl; no_bracket = refl })
  dump_impl-Opens indent depth (object no_fields) h =
      (_, _, refl, record { no_space = refl; no_bracket = refl })
  dump_impl-Opens indent depth (object (field k v fs)) h =
      (_, _, refl, record { no_space = refl; no_bracket = refl })

  -- `peek` behind the opening bracket of a rendered array.
  pub peek-Opens :
      (w s rest : Bytes)
      → peek (w ++ (s ++ rest)) ≡ peek (s ++ rest)
      → Opens s
      → (c : ℕ) × (peek (w ++ (s ++ rest)) ≡ ok (c, s ++ rest)) × ((c == b']') ≡ false)
  unfolding Opens
  peek-Opens w s rest h (c, t, e, o) =
      (c, h ∙ rw e (peek_token c (t ++ rest) o.no_space), o.no_bracket)
