-- ===== src/Json/Layout.antt =====
-- src/json.hpp: how the text of `dump_impl` divides into the tokens that the parser's loops read.
use bitcoin_tui.Base.{ℕ, ◌+◌, false, ◌∷◌, ◌++◌, append_assoc, Bytes, ℤ, ◌≡◌}
use bitcoin_tui.Json.Value.{Floats, Json, Items, Fields, array, object, item, field}
use bitcoin_tui.Json.Dump.{quote, new_line, space_if_pretty, dump_impl, dump_items, dump_fields}

module _ (fl : Floats) (indent : ℤ) where
  open fl use {Double}

  pub array_text :
      (depth : ℕ) (v : Json Double) (xs : Items Double) (rest : Bytes)
      → dump_impl fl indent depth (array (item v xs)) ++ rest
        ≡ b'['
          ∷ (new_line indent (depth + 1)
              ++ (dump_impl fl indent (depth + 1) v
                  ++ (dump_items fl indent depth false xs
                      ++ (new_line indent depth ++ b']' ∷ rest))))
  unfolding dump_impl
  array_text depth v xs rest = simp append_assoc

  -- A member from its key on, without the line break before it.
  abbrev pub member_text : ℕ → Bytes → Json Double → Bytes → Bytes
  member_text depth k v rest =
      quote k ++ (b':' ∷ (space_if_pretty indent ++ (dump_impl fl indent (depth + 1) v ++ rest)))

  pub object_text :
      (depth : ℕ) (k : Bytes) (v : Json Double) (fs : Fields Double) (rest : Bytes)
      → dump_impl fl indent depth (object (field k v fs)) ++ rest
        ≡ b'{'
          ∷ (new_line indent (depth + 1)
              ++ member_text depth k v
                  (dump_fields fl indent depth false fs ++ (new_line indent depth ++ b'}' ∷ rest)))
  unfolding dump_impl
  object_text depth k v fs rest = simp append_assoc

  pub items_text :
      (depth : ℕ) (v : Json Double) (xs : Items Double) (rest : Bytes)
      → dump_items fl indent depth false (item v xs) ++ rest
        ≡ b','
          ∷ (new_line indent (depth + 1)
              ++ (dump_impl fl indent (depth + 1) v
                  ++ (dump_items fl indent depth false xs ++ rest)))
  unfolding dump_items
  items_text depth v xs rest = simp append_assoc

  pub fields_text :
      (depth : ℕ) (k : Bytes) (v : Json Double) (fs : Fields Double) (rest : Bytes)
      → dump_fields fl indent depth false (field k v fs) ++ rest
        ≡ b','
          ∷ (new_line indent (depth + 1)
              ++ member_text depth k v (dump_fields fl indent depth false fs ++ rest))
  unfolding dump_fields
  fields_text depth k v fs rest = simp append_assoc
