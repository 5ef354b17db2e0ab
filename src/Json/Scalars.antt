-- ===== src/Json/Scalars.antt =====
-- src/json.hpp: the parser over rendered scalars and empty containers, and what follows an element.
use bitcoin_tui.Base.{
  ℕ, suc, Bool, true, false, ◌∷◌, ◌++◌, Bytes, ℤ, pos, negsuc, ok, ◌≡◌, refl, ◌∙◌, to_string,
  compare_bytes,
}
use bitcoin_tui.Json.Value.{
  Floats, Items, Fields, null, bool, int, float, string, array, object, no_items, item, no_fields,
  field,
}
use bitcoin_tui.Json.Scan.{skip_ws, peek, consume}
use bitcoin_tui.Json.Parser.{keyword, parse_scalar, parse_value}
use bitcoin_tui.Json.Dump.{new_line, dump_impl, dump_items, dump_fields}
use bitcoin_tui.Json.Numbers.{
  ReadsBack, literal-front, to_string-front, parse_number-to_string, parse_number-print,
}
use bitcoin_tui.Json.Literals.{EndsNumber}
use bitcoin_tui.Json.Blank.{Blank, new_line-Blank}
use bitcoin_tui.Json.Valid.{IsValid}
use bitcoin_tui.Json.Rendered.{parse_value-starts, parse_value-quote}

module _ (fl : Floats) (indent : ℤ) where
  open fl use {Double}

  pub Blank-line : (depth : ℕ) → Blank (new_line indent depth)
  Blank-line depth = new_line-Blank indent depth

  pub reads_int :
      (depth f : ℕ) (i : ℤ) (rest : Bytes)
      → IsValid (ReadsBack fl) (int i)
      → EndsNumber rest
      → parse_value fl (suc f) (dump_impl fl indent depth (int i) ++ rest) ≡ ok (int i, rest)
  unfolding dump_impl IsValid
  reads_int depth f i rest h hr =
      parse_value-starts fl f (to_string i) rest (to_string-front i)
      ∙ parse_number-to_string fl i rest h hr

  pub reads_float :
      (depth f : ℕ) (d : Double) (rest : Bytes)
      → IsValid (ReadsBack fl) (float d)
      → EndsNumber rest
      → parse_value fl (suc f) (dump_impl fl indent depth (float d) ++ rest) ≡ ok (float d, rest)
  unfolding dump_impl IsValid
  reads_float depth f d rest h hr = rw h.finite (
      parse_value-starts fl f (fl.print d) rest
        (rw h.printed (literal-front h.literal h.literal_valid))
      ∙ parse_number-print fl d rest h hr)

  pub reads_bool :
      (depth f : ℕ) (b : Bool) (rest : Bytes)
      → parse_value fl (suc f) (dump_impl fl indent depth (bool b) ++ rest) ≡ ok (bool b, rest)
  unfolding dump_impl parse_value peek skip_ws parse_scalar keyword compare_bytes
  reads_bool depth f true rest = refl
  reads_bool depth f false rest = refl

  pub reads_null :
      (depth f : ℕ) (rest : Bytes)
      → parse_value fl (suc f) (dump_impl fl indent depth null ++ rest) ≡ ok (null, rest)
  unfolding dump_impl parse_value peek skip_ws parse_scalar keyword compare_bytes
  reads_null depth f rest = refl

  pub reads_empty_array :
      (depth f : ℕ) (rest : Bytes)
      → parse_value fl (suc f) (dump_impl fl indent depth (array no_items) ++ rest)
        ≡ ok (array no_items, rest)
  unfolding dump_impl parse_value peek skip_ws consume
  reads_empty_array depth f rest = refl

  pub reads_empty_object :
      (depth f : ℕ) (rest : Bytes)
      → parse_value fl (suc f) (dump_impl fl indent depth (object no_fields) ++ rest)
        ≡ ok (object no_fields, rest)
  unfolding dump_impl parse_value peek skip_ws consume
  reads_empty_object depth f rest = refl

  pub reads_string :
      (depth f : ℕ) (s rest : Bytes)
      → parse_value fl (suc f) (dump_impl fl indent depth (string s) ++ rest) ≡ ok (string s, rest)
  unfolding dump_impl
  reads_string depth f s rest = parse_value-quote fl f s rest

  pub closing-EndsNumber :
      (depth b : ℕ) (rest : Bytes)
      → EndsNumber (b ∷ rest)
      → EndsNumber (new_line indent depth ++ b ∷ rest)
  unfolding new_line
  closing-EndsNumber depth b rest h =
      elim indent as (λ i. EndsNumber (new_line i depth ++ b ∷ rest)) [
        | pos n ↦ (refl, refl, refl, refl)
        | negsuc n ↦ h
      ]

  pub items-EndsNumber :
      (depth : ℕ) (xs : Items Double) (rest : Bytes)
      → EndsNumber (dump_items fl indent depth false xs ++ (new_line indent depth ++ b']' ∷ rest))
  unfolding dump_items
  items-EndsNumber depth no_items rest = closing-EndsNumber depth b']' rest (refl, refl, refl, refl)
  items-EndsNumber depth (item v xs) rest = (refl, refl, refl, refl)

  pub fields-EndsNumber :
      (depth : ℕ) (fs : Fields Double) (rest : Bytes)
      → EndsNumber (dump_fields fl indent depth false fs ++ (new_line indent depth ++ b'}' ∷ rest))
  unfolding dump_fields
  fields-EndsNumber depth no_fields rest =
      closing-EndsNumber depth b'}' rest (refl, refl, refl, refl)
  fields-EndsNumber depth (field k v fs) rest = (refl, refl, refl, refl)
