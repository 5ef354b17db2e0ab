-- ===== src/Json/RoundTrip.antt =====
-- src/json.hpp: `parse` reads back what `dump` wrote, at every indentation.
use bitcoin_tui.Base.{
  ℕ, zero, suc, ◌+◌, ◌*◌, ◌≤◌, false, [], ◌∷◌, ◌++◌, append-nil, Bytes, ◌==◌, length, ℤ, ok, ◌≡◌,
  refl, ap, ◌∙◌, arith,
}
use bitcoin_tui.Json.Value.{
  Floats, Json, Items, Fields, null, bool, int, float, string, array, object, no_items, item,
  no_fields, field, push_back, insert,
}
use bitcoin_tui.Json.Scan.{skip_ws, peek}
use bitcoin_tui.Json.Parser.{parse_value, finish, parse}
use bitcoin_tui.Json.Dump.{
  quote, new_line, space_if_pretty, dump_impl, dump_items, dump_fields, dump,
}
use bitcoin_tui.Json.Strings.{parse_string_val-quote}
use bitcoin_tui.Json.Numbers.{ReadsBack}
use bitcoin_tui.Json.Literals.{EndsNumber}
use bitcoin_tui.Json.Blank.{
  peek-Blank, parse_string_val-Blank, parse_value-Blank, space_if_pretty-Blank,
}
use bitcoin_tui.Json.Valid.{IsValid, AreValid, HoldValid}
use bitcoin_tui.Json.Gather.{push_all, push_all_lem, insert_all, insert_all_lem}
use bitcoin_tui.Json.Rounds.{rounds, rounds_items, rounds_fields, rounds_pos, rounds-le}
use bitcoin_tui.Json.Scalars.{
  Blank-line, reads_int, reads_float, reads_bool, reads_null, reads_string, reads_empty_array,
  reads_empty_object, items-EndsNumber, fields-EndsNumber,
}
use bitcoin_tui.Json.Layout.{array_text, object_text, items_text, fields_text}
use bitcoin_tui.Json.Rendered.{
  parse_value-array, parse_value-object, after_element, after_member, after_element_end,
  after_element_comma, after_member_end, after_member_comma, parse_elements-value,
  parse_members-value, peek_token, dump_impl-Opens, peek-Opens,
}

module _ (fl : Floats) (indent : ℤ) where
  open fl use {Double}

  -- Behind an opening bracket `peek` skips the line break and finds the first element.
  opens :
      (depth : ℕ) (v : Json Double) (rest : Bytes)
      → IsValid (ReadsBack fl) v
      → (c : ℕ) × (peek (new_line indent (depth + 1) ++ (dump_impl fl indent (depth + 1) v ++ rest))
          ≡ ok (c, dump_impl fl indent (depth + 1) v ++ rest))
        × ((c == b']') ≡ false)
  opens depth v rest h =
      peek-Opens fl _ _ rest (peek-Blank _ _ (Blank-line fl indent (depth + 1)))
        (dump_impl-Opens fl indent (depth + 1) v h)

  reads_no_items :
      (depth f : ℕ) (aval : Items Double) (rest : Bytes)
      → after_element fl f aval
          (dump_items fl indent depth false no_items ++ (new_line indent depth ++ b']' ∷ rest))
        ≡ ok (array aval, rest)
  unfolding dump_items
  reads_no_items depth f aval rest =
      after_element_end fl f aval _ rest (peek-Blank _ _ (Blank-line fl indent depth))

  reads_no_fields :
      (depth f : ℕ) (oval : Fields Double) (rest : Bytes)
      → after_member fl f oval
          (dump_fields fl indent depth false no_fields ++ (new_line indent depth ++ b'}' ∷ rest))
        ≡ ok (object oval, rest)
  unfolding dump_fields
  reads_no_fields depth f oval rest =
      after_member_end fl f oval _ rest (peek-Blank _ _ (Blank-line fl indent depth))

  opens_member :
      (depth : ℕ) (k rest : Bytes)
      → peek (new_line indent (depth + 1) ++ (quote k ++ rest)) ≡ ok (b'"', quote k ++ rest)
  opens_member depth k rest =
      peek-Blank _ _ (Blank-line fl indent (depth + 1)) ∙ unfold quote in peek_token b'"' _ refl

  reads_spaced :
      (v : Json Double) (depth f : ℕ) (rest : Bytes)
      → parse_value fl f (dump_impl fl indent (depth + 1) v ++ rest) ≡ ok (v, rest)
      → parse_value fl f (space_if_pretty indent ++ (dump_impl fl indent (depth + 1) v ++ rest))
        ≡ ok (v, rest)
  reads_spaced v depth f rest h = parse_value-Blank fl f _ _ (space_if_pretty-Blank indent) ∙ h

  mutual
    unfolding rounds push_all insert_all IsValid

    reads_value :
        (v : Json Double) (depth f : ℕ) (rest : Bytes)
        → IsValid (ReadsBack fl) v
        → EndsNumber rest
        → rounds v ≤ f
        → parse_value fl f (dump_impl fl indent depth v ++ rest) ≡ ok (v, rest)
    reads_value v depth zero rest h hr n = absurd (omega (arith, rounds_pos v))
    reads_value null depth (suc f) rest h hr n = reads_null fl indent depth f rest
    reads_value (bool b) depth (suc f) rest h hr n = reads_bool fl indent depth f b rest
    reads_value (int i) depth (suc f) rest h hr n = reads_int fl indent depth f i rest h hr
    reads_value (float d) depth (suc f) rest h hr n = reads_float fl indent depth f d rest h hr
    reads_value (string s) depth (suc f) rest h hr n = reads_string fl indent depth f s rest
    reads_value (array no_items) depth (suc f) rest h hr n =
        reads_empty_array fl indent depth f rest
    reads_value (array (item v xs)) depth (suc zero) rest h hr n = absurd (omega arith)
    reads_value (array (item v xs)) depth (suc (suc f)) rest h hr n =
        let tail = new_line indent depth ++ b']' ∷ rest in
        let more = dump_items fl indent depth false xs ++ tail in
        let (c, hp, hc) = opens depth v more h.0 in
        rw (array_text fl indent depth v xs rest) (
          parse_value-array fl (suc f) c _ _ hp hc
          ∙ (parse_elements-value fl f no_items v _ more (
                reads_value v (depth + 1) f more h.0 (items-EndsNumber fl indent depth xs rest)
                  (omega arith))
              ∙ (reads_items xs depth f (push_back no_items v) rest h.1 (omega arith)
                  ∙ ap (λ ys. ok (array ys, rest)) (push_all_lem (item v xs)))))
    reads_value (object no_fields) depth (suc f) rest h hr n =
        reads_empty_object fl indent depth f rest
    reads_value (object (field k v fs)) depth (suc zero) rest h hr n = absurd (omega arith)
    reads_value (object (field k v fs)) depth (suc (suc f)) rest h hr n =
        let tail = new_line indent depth ++ b'}' ∷ rest in
        let more = dump_fields fl indent depth false fs ++ tail in
        rw (object_text fl indent depth k v fs rest) (
          parse_value-object fl (suc f) b'"' _ _ (opens_member depth k _) refl
          ∙ (parse_members-value fl f no_fields k v _ _ more (parse_string_val-quote k _) (
                reads_spaced v depth f more (
                  reads_value v (depth + 1) f more h.1.0 (fields-EndsNumber fl indent depth fs rest)
                    (omega arith)))
              ∙ (reads_fields fs depth f (insert k v no_fields) rest h.1.1 (omega arith)
                  ∙ ap (λ ys. ok (object ys, rest)) (insert_all_lem (field k v fs) h.0))))

    reads_items :
        (xs : Items Double) (depth f : ℕ) (aval : Items Double) (rest : Bytes)
        → AreValid (ReadsBack fl) xs
        → rounds_items xs ≤ f
        → after_element fl f aval
            (dump_items fl indent depth false xs ++ (new_line indent depth ++ b']' ∷ rest))
          ≡ ok (array (push_all aval xs), rest)
    reads_items no_items depth f aval rest h n = reads_no_items depth f aval rest
    reads_items (item v xs) depth zero aval rest h n = absurd (omega arith)
    reads_items (item v xs) depth (suc f) aval rest h n =
        let tail = new_line indent depth ++ b']' ∷ rest in
        let more = dump_items fl indent depth false xs ++ tail in
        rw (items_text fl indent depth v xs tail) (
          after_element_comma fl (suc f) aval _
          ∙ (parse_elements-value fl f aval v _ more (
                parse_value-Blank fl f _ _ (Blank-line fl indent (depth + 1))
                ∙ reads_value v (depth + 1) f more h.0 (items-EndsNumber fl indent depth xs rest)
                    (omega arith))
              ∙ reads_items xs depth f (push_back aval v) rest h.1 (omega arith)))

    reads_fields :
        (fs : Fields Double) (depth f : ℕ) (oval : Fields Double) (rest : Bytes)
        → HoldValid (ReadsBack fl) fs
        → rounds_fields fs ≤ f
        → after_member fl f oval
            (dump_fields fl indent depth false fs ++ (new_line indent depth ++ b'}' ∷ rest))
          ≡ ok (object (insert_all oval fs), rest)
    reads_fields no_fields depth f oval rest h n = reads_no_fields depth f oval rest
    reads_fields (field k v fs) depth zero oval rest h n = absurd (omega arith)
    reads_fields (field k v fs) depth (suc f) oval rest h n =
        let tail = new_line indent depth ++ b'}' ∷ rest in
        let more = dump_fields fl indent depth false fs ++ tail in
        rw (fields_text fl indent depth k v fs tail) (
          after_member_comma fl (suc f) oval _
          ∙ (parse_members-value fl f oval k v _ _ more
                (parse_string_val-Blank _ _ (Blank-line fl indent (depth + 1))
                  ∙ parse_string_val-quote k _)
                (reads_spaced v depth f more (
                  reads_value v (depth + 1) f more h.0 (fields-EndsNumber fl indent depth fs rest)
                    (omega arith)))
              ∙ reads_fields fs depth f (insert k v oval) rest h.1 (omega arith)))

-- With enough fuel the parser reads a rendered value off the front of any text that does not go on
-- with a byte of a number.
pub parse_value-dump_impl :
    (fl : Floats) (indent : ℤ) (depth f : ℕ) (v : Json fl.Double) (rest : Bytes)
    → IsValid (ReadsBack fl) v
    → EndsNumber rest
    → length (dump_impl fl indent depth v) ≤ f
    → parse_value fl f (dump_impl fl indent depth v ++ rest) ≡ ok (v, rest)
parse_value-dump_impl fl indent depth f v rest h hr n =
    reads_value fl indent v depth f rest h hr (omega (arith, rounds-le fl indent v depth h))

-- What `dump` wrote, at any indentation or none, `parse` reads back as the same value: for every
-- value whose objects are in map order, whose integers fit int64_t and whose doubles print as a
-- float literal that std::stod reads back.
pub parse-dump :
    (fl : Floats) (indent : ℤ) (v : Json fl.Double)
    → IsValid (ReadsBack fl) v
    → parse fl (dump fl indent v) ≡ ok v
unfolding parse dump finish skip_ws
parse-dump fl indent v h =
    let s = dump_impl fl indent 0 v in
    let whole = parse_value-dump_impl fl indent 0 (2 * length s + 1) v [] h tt (omega arith) in
    rw (rw append-nil at whole)
