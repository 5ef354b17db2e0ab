-- ===== src/Json/Dump.antt =====
-- src/json.hpp: `quote`, `dump_impl` and `dump`.
use bitcoin_tui.Base.{
  ℕ, ◌+◌, ◌-◌, ◌*◌, ◌/◌, ◌%◌, Bool, true, false, [], ◌∷◌, ◌++◌, Bytes, codes, ltb, ◌==◌,
  if◌then◌else◌, replicate, ℤ, pos, negsuc, to_string,
}
use bitcoin_tui.Json.Value.{
  Floats, Json, Items, Fields, null, bool, int, float, string, array, object, no_items, item,
  no_fields, field,
}

unfoldable pub hex_digit : ℕ → ℕ
hex_digit d = if ltb d 10 then b'0' + d else b'a' + d - 10

-- snprintf "\\u%04x"
unfoldable pub print_u : ℕ → Bytes
print_u c =
    b'\\'
    ∷ b'u'
    ∷ hex_digit (c / 4096 % 16)
    ∷ hex_digit (c / 256 % 16)
    ∷ hex_digit (c / 16 % 16)
    ∷ hex_digit (c % 16)
    ∷ []

-- What one round of `quote` appends.
unfoldable pub quote_byte : ℕ → Bytes
quote_byte c =
    if c == b'"'
    then b'\\' ∷ b'"' ∷ []
    else if c == b'\\'
    then b'\\' ∷ b'\\' ∷ []
    else if c == 0x08
    then b'\\' ∷ b'b' ∷ []
    else if c == 0x0c
    then b'\\' ∷ b'f' ∷ []
    else if c == 0x0a
    then b'\\' ∷ b'n' ∷ []
    else if c == 0x0d
    then b'\\' ∷ b'r' ∷ []
    else if c == 0x09
    then b'\\' ∷ b't' ∷ []
    else if ltb c 0x20
    then print_u c
    else c ∷ []

unfoldable pub quote_bytes : Bytes → Bytes
quote_bytes [] = []
quote_bytes (c ∷ s) = quote_byte c ++ quote_bytes s

unfoldable pub quote : Bytes → Bytes
quote s = b'"' ∷ (quote_bytes s ++ b'"' ∷ [])

-- `if (pretty) { out += '\n'; out += std::string(depth * indent, ' '); }`
unfoldable pub new_line : ℤ → ℕ → Bytes
new_line (pos indent) depth = 0x0a ∷ replicate (depth * indent) 0x20
new_line (negsuc n) depth = []

-- `if (pretty) out += ' ';`
unfoldable pub space_if_pretty : ℤ → Bytes
space_if_pretty (pos indent) = 0x20 ∷ []
space_if_pretty (negsuc n) = []

abbrev pub comma_unless : Bool → Bytes
comma_unless first = if first then [] else b',' ∷ []

module _ (fl : Floats) where
  open fl use {Double, print, is_finite}

  unfoldable mutual
    pub dump_impl : ℤ → ℕ → Json Double → Bytes
    dump_impl indent depth null = codes "null"
    dump_impl indent depth (bool b) = if b then codes "true" else codes "false"
    dump_impl indent depth (int i) = to_string i
    dump_impl indent depth (float d) = if is_finite d then print d else codes "null"
    dump_impl indent depth (string s) = quote s
    dump_impl indent depth (array no_items) = codes "[]"
    dump_impl indent depth (array (item v xs)) =
        b'[' ∷ (dump_items indent depth true (item v xs) ++ (new_line indent depth ++ b']' ∷ []))
    dump_impl indent depth (object no_fields) = codes "{}"
    dump_impl indent depth (object (field k v fs)) =
        b'{'
        ∷ (dump_fields indent depth true (field k v fs) ++ (new_line indent depth ++ b'}' ∷ []))

    pub dump_items : ℤ → ℕ → Bool → Items Double → Bytes
    dump_items indent depth first no_items = []
    dump_items indent depth first (item v xs) =
        comma_unless first
        ++ (new_line indent (depth + 1)
            ++ (dump_impl indent (depth + 1) v ++ dump_items indent depth false xs))

    pub dump_fields : ℤ → ℕ → Bool → Fields Double → Bytes
    dump_fields indent depth first no_fields = []
    dump_fields indent depth first (field k v fs) =
        comma_unless first
        ++ (new_line indent (depth + 1)
            ++ (quote k
                ++ (b':'
                    ∷ (space_if_pretty indent
                        ++ (dump_impl indent (depth + 1) v ++ dump_fields indent depth false fs)))))

  unfoldable pub dump : ℤ → Json Double → Bytes
  dump indent v = dump_impl indent 0 v
