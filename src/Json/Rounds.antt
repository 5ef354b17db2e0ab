-- ===== src/Json/Rounds.antt =====
-- src/json.hpp: the depth of calls that reading a value takes, against the length of its text.
use bitcoin_tui.Base.{ℕ, ◌+◌, ◌≤◌, false, [], ◌++◌, Bytes, length, length-append, ℤ, ◌≡◌, ap, arith}
use bitcoin_tui.Json.Value.{
  Floats, Json, Items, Fields, null, bool, int, float, string, array, object, no_items, item,
  no_fields, field,
}
use bitcoin_tui.Json.Dump.{dump_impl, dump_items, dump_fields}
use bitcoin_tui.Json.Numbers.{ReadsBack}
use bitcoin_tui.Json.Valid.{IsValid, AreValid, HoldValid}
use bitcoin_tui.Json.Layout.{array_text, object_text, items_text, fields_text}
use bitcoin_tui.Json.Rendered.{dump_impl-Opens, Opens}

module _ {D : Type 0} where
  unfoldable mutual
    -- The nested calls that reading the value takes.
    pub rounds : Json D → ℕ
    rounds (array xs) = 1 + rounds_items xs
    rounds (object fs) = 1 + rounds_fields fs
    rounds null = 1
    rounds _ = 1

    pub rounds_items : Items D → ℕ
    rounds_items no_items = 0
    rounds_items (item v xs) = 1 + (rounds v + rounds_items xs)

    pub rounds_fields : Fields D → ℕ
    rounds_fields no_fields = 0
    rounds_fields (field k v fs) = 1 + (rounds v + rounds_fields fs)

  pub rounds_pos : (v : Json D) → 1 ≤ rounds v
  unfolding rounds
  rounds_pos null = omega arith
  rounds_pos _ = omega arith

module _ (fl : Floats) (indent : ℤ) where
  open fl use {Double}

  length-bytes : (xs ys : Bytes) → length (xs ++ ys) ≡ length xs + length ys
  length-bytes = length-append

  length-Opens : (s : Bytes) → Opens fl s → 1 ≤ length s
  unfolding Opens
  length-Opens s (c, t, e, o) = rw e (omega arith)

  length-Valid :
      (v : Json Double) (depth : ℕ)
      → IsValid (ReadsBack fl) v
      → 1 ≤ length (dump_impl fl indent depth v)
  length-Valid v depth h = length-Opens _ (dump_impl-Opens fl indent depth v h)

  length-array :
      (v : Json Double) (xs : Items Double) (depth : ℕ)
      → 2
          + length (dump_impl fl indent (depth + 1) v)
          + length (dump_items fl indent depth false xs)
        ≤ length (dump_impl fl indent depth (array (item v xs)))
  length-array v xs depth =
      omega (arith, length-bytes, ap length (array_text fl indent depth v xs []))

  length-object :
      (k : Bytes) (v : Json Double) (fs : Fields Double) (depth : ℕ)
      → 2
          + length (dump_impl fl indent (depth + 1) v)
          + length (dump_fields fl indent depth false fs)
        ≤ length (dump_impl fl indent depth (object (field k v fs)))
  length-object k v fs depth =
      omega (arith, length-bytes, ap length (object_text fl indent depth k v fs []))

  length-items :
      (v : Json Double) (xs : Items Double) (depth : ℕ)
      → 1
          + length (dump_impl fl indent (depth + 1) v)
          + length (dump_items fl indent depth false xs)
        ≤ length (dump_items fl indent depth false (item v xs))
  length-items v xs depth =
      omega (arith, length-bytes, ap length (items_text fl indent depth v xs []))

  length-fields :
      (k : Bytes) (v : Json Double) (fs : Fields Double) (depth : ℕ)
      → 1
          + length (dump_impl fl indent (depth + 1) v)
          + length (dump_fields fl indent depth false fs)
        ≤ length (dump_fields fl indent depth false (field k v fs))
  length-fields k v fs depth =
      omega (arith, length-bytes, ap length (fields_text fl indent depth k v fs []))

  mutual
    unfolding rounds IsValid

    -- A rendered value is at least as long as the calls that reading it takes.
    pub rounds-le :
        (v : Json Double) (depth : ℕ)
        → IsValid (ReadsBack fl) v
        → rounds v ≤ length (dump_impl fl indent depth v)
    rounds-le (array (item v xs)) depth h =
        omega (
          arith,
          length-array v xs depth,
          rounds-le v (depth + 1) h.0,
          rounds_items-le xs depth h.1,
        )
    rounds-le (object (field k v fs)) depth h = omega (
      arith,
      length-object k v fs depth,
      rounds-le v (depth + 1) h.1.0,
      rounds_fields-le fs depth h.1.1,
    )
    rounds-le (array no_items) depth h = length-Valid (array no_items) depth h
    rounds-le (object no_fields) depth h = length-Valid (object no_fields) depth h
    rounds-le null depth h = length-Valid null depth h
    rounds-le (bool b) depth h = length-Valid (bool b) depth h
    rounds-le (int i) depth h = length-Valid (int i) depth h
    rounds-le (float d) depth h = length-Valid (float d) depth h
    rounds-le (string s) depth h = length-Valid (string s) depth h

    rounds_items-le :
        (xs : Items Double) (depth : ℕ)
        → AreValid (ReadsBack fl) xs
        → rounds_items xs ≤ length (dump_items fl indent depth false xs)
    rounds_items-le no_items depth h = omega arith
    rounds_items-le (item v xs) depth h =
        omega (
          arith,
          length-items v xs depth,
          rounds-le v (depth + 1) h.0,
          rounds_items-le xs depth h.1,
        )

    rounds_fields-le :
        (fs : Fields Double) (depth : ℕ)
        → HoldValid (ReadsBack fl) fs
        → rounds_fields fs ≤ length (dump_fields fl indent depth false fs)
    rounds_fields-le no_fields depth h = omega arith
    rounds_fields-le (field k v fs) depth h = omega (
      arith,
      length-fields k v fs depth,
      rounds-le v (depth + 1) h.0,
      rounds_fields-le fs depth h.1,
    )
