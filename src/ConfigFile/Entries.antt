-- ===== src/ConfigFile/Entries.antt =====
-- src/tabs/luatab.cpp: the reader on each line that the writer writes.
use bitcoin_tui.Base.{
  ◌≢◌, Digits, to_decimal, to_decimal-ne-nil, to_decimal-Digits, Bool, true, false, List, [], ◌∷◌,
  ◌++◌, Bytes, codes, compare_bytes, if◌then◌else◌, Option, none, some, ℤ, pos, negsuc, to_string,
  append_assoc, append-nil, ◌≡◌, refl, ◌∙◌, ap, sym, arith,
}
use bitcoin_tui.State.{empty}
use bitcoin_tui.Config.{pop_return, split_at}
use bitcoin_tui.Format.{trim_front, trimmed}
use bitcoin_tui.ConfigFile.Text.{parse_toml_scalar, escaped, toml_quote}
use bitcoin_tui.ConfigFile.Lines.{pop_return-kept}
use bitcoin_tui.ConfigFile.Scalars.{
  parse_toml_scalar-toml_quote, InInt, from_chars-to_string, to_string-Lacks,
}
use bitcoin_tui.ConfigFile.{
  emit_elements, emit_array, emit_refresh, emit_settingstab, emit_debug, emit_debug_file,
}
use bitcoin_tui.ConfigFile.Table.{
  LuaRef, boolean, number, string, table, ConfigTable, entry, classify, unblanked, set_key,
  append_some, or_int, read_entry, read_lines,
}
use bitcoin_tui.ConfigFile.Keys.{
  read_line, quoted-kept, entry-tab, entry-allow_rpc, entry-refresh, entry-debug_file,
  unblanked-quote,
}

-- What is read back of each value.
abbrev pub kept_strings : List (Option Bytes) → List Bytes
kept_strings [] = []
kept_strings (none ∷ arr) = kept_strings arr
kept_strings (some e ∷ arr) = if empty e then kept_strings arr else escaped e ∷ kept_strings arr

abbrev pub strings_of : LuaRef → List Bytes
strings_of (table arr) = kept_strings arr
strings_of _ = []

abbrev pub int_of : LuaRef → ℤ → ℤ
int_of (number i) def = i
int_of _ def = def

abbrev pub shown_of : LuaRef → Bool
shown_of (boolean false) = false
shown_of _ = true

abbrev pub on_of : LuaRef → Bool
on_of (boolean true) = true
on_of _ = false

abbrev pub text_of : LuaRef → Bytes
text_of (string s) = escaped s
text_of _ = []

empty-escaped : (v : Bytes) → empty (escaped v) ≡ empty v
unfolding escaped
empty-escaped [] = refl
empty-escaped (c ∷ v) = ground arith

read_line-tab :
    (e : Bytes) (t : ConfigTable)
    → read_line (codes "tab = " ++ toml_quote e) t
      ≡ record t { tabs = append_some (escaped e) t.tabs }
unfolding read_entry set_key
read_line-tab e t =
    rw
      (
        quoted-kept (codes "tab = ") e,
        entry-tab (toml_quote e),
        unblanked-quote e,
        parse_toml_scalar-toml_quote e,
      )
      refl

read_line-allow_rpc :
    (e : Bytes) (t : ConfigTable)
    → read_line (codes "allow-rpc = " ++ toml_quote e) t
      ≡ record t { allow_rpc = append_some (escaped e) t.allow_rpc }
unfolding read_entry set_key
read_line-allow_rpc e t =
    rw
      (
        quoted-kept (codes "allow-rpc = ") e,
        entry-allow_rpc (toml_quote e),
        unblanked-quote e,
        parse_toml_scalar-toml_quote e,
      )
      refl

append_some-escaped :
    (e : Bytes) (xs ys : List Bytes)
    → append_some (escaped e) xs ++ ys ≡ xs ++ (if empty e then ys else escaped e ∷ ys)
unfolding append_some
append_some-escaped e xs ys =
    rw (empty-escaped e) (ground (arith, append_assoc xs (escaped e ∷ []) ys))

read_lines-tabs :
    (arr : List (Option Bytes)) (t : ConfigTable)
    → read_lines t (emit_elements (codes "tab") arr)
      ≡ record t { tabs = t.tabs ++ kept_strings arr }
unfolding emit_elements read_lines
read_lines-tabs [] t = rw (append-nil t.tabs) refl
read_lines-tabs (none ∷ arr) t = read_lines-tabs arr t
read_lines-tabs (some e ∷ arr) t =
    ap (λ u. read_lines u (emit_elements (codes "tab") arr)) (read_line-tab e t)
    ∙ read_lines-tabs arr (record t { tabs = append_some (escaped e) t.tabs })
    ∙ ap (λ xs. record t { tabs = xs })
        (append_some-escaped e t.tabs (kept_strings arr) ∙ ground arith)

read_lines-rpcs :
    (arr : List (Option Bytes)) (t : ConfigTable)
    → read_lines t (emit_elements (codes "allow-rpc") arr)
      ≡ record t { allow_rpc = t.allow_rpc ++ kept_strings arr }
unfolding emit_elements read_lines
read_lines-rpcs [] t = rw (append-nil t.allow_rpc) refl
read_lines-rpcs (none ∷ arr) t = read_lines-rpcs arr t
read_lines-rpcs (some e ∷ arr) t =
    ap (λ u. read_lines u (emit_elements (codes "allow-rpc") arr)) (read_line-allow_rpc e t)
    ∙ read_lines-rpcs arr (record t { allow_rpc = append_some (escaped e) t.allow_rpc })
    ∙ ap (λ xs. record t { allow_rpc = xs })
        (append_some-escaped e t.allow_rpc (kept_strings arr) ∙ ground arith)

pub read_lines-emit_tabs :
    (r : LuaRef) (t : ConfigTable)
    → read_lines t (emit_array (codes "tab") r) ≡ record t { tabs = t.tabs ++ strings_of r }
unfolding emit_array read_lines
read_lines-emit_tabs (table arr) t = read_lines-tabs arr t
read_lines-emit_tabs _ t = rw (append-nil t.tabs) refl

pub read_lines-emit_rpcs :
    (r : LuaRef) (t : ConfigTable)
    → read_lines t (emit_array (codes "allow-rpc") r)
      ≡ record t { allow_rpc = t.allow_rpc ++ strings_of r }
unfolding emit_array read_lines
read_lines-emit_rpcs (table arr) t = read_lines-rpcs arr t
read_lines-emit_rpcs _ t = rw (append-nil t.allow_rpc) refl

abbrev pub IsInt : LuaRef → Type 0
IsInt (number i) = InInt i
IsInt _ = Unit

unblanked-Digits : (ds : Bytes) → ds ≢ [] → Digits ds → unblanked (b' ' ∷ ds) ≡ ds
unfolding unblanked trim_front
unblanked-Digits [] h hd = absurd (h refl)
unblanked-Digits (c ∷ ds) h hd = ground arith

unblanked-to_string : (i : ℤ) → unblanked (b' ' ∷ to_string i) ≡ to_string i
unfolding to_string
unblanked-to_string (pos n) =
    unblanked-Digits (to_decimal n) (to_decimal-ne-nil n) (to_decimal-Digits n)
unblanked-to_string (negsuc n) = unfold unblanked trim_front in refl

pub read_lines-emit_refresh :
    (r : LuaRef) (t : ConfigTable)
    → IsInt r
    → read_lines t (emit_refresh r) ≡ record t { refresh = int_of r t.refresh }
unfolding emit_refresh read_lines read_entry set_key or_int
read_lines-emit_refresh (number i) t h =
    rw
      (
        pop_return-kept (codes "refresh = " ++ to_string i) (ground (arith, to_string-Lacks 13 i)),
        entry-refresh (to_string i),
        unblanked-to_string i,
        from_chars-to_string i h,
      )
      refl
read_lines-emit_refresh _ t h = refl

pub read_lines-emit_settingstab :
    (r : LuaRef) (t : ConfigTable)
    → t.settingstab ≡ true
    → read_lines t (emit_settingstab r) ≡ record t { settingstab = shown_of r }
unfolding emit_settingstab read_lines read_entry set_key entry classify split_at trimmed trim_front
    compare_bytes pop_return parse_toml_scalar
read_lines-emit_settingstab (boolean false) t e = refl
read_lines-emit_settingstab (boolean true) t e = rw (sym e) refl
read_lines-emit_settingstab _ t e = rw (sym e) refl

pub read_lines-emit_debug :
    (r : LuaRef) (t : ConfigTable)
    → t.debug ≡ false
    → read_lines t (emit_debug r) ≡ record t { debug = on_of r }
unfolding emit_debug read_lines read_entry set_key entry classify split_at trimmed trim_front
    compare_bytes pop_return parse_toml_scalar
read_lines-emit_debug (boolean true) t e = refl
read_lines-emit_debug (boolean false) t e = rw (sym e) refl
read_lines-emit_debug _ t e = rw (sym e) refl

pub read_lines-emit_debug_file :
    (r : LuaRef) (t : ConfigTable)
    → t.debug_file ≡ []
    → read_lines t (emit_debug_file r) ≡ record t { debug_file = text_of r }
unfolding emit_debug_file read_lines read_entry set_key
read_lines-emit_debug_file (string []) t e = unfold escaped in rw (sym e) refl
read_lines-emit_debug_file (string (c ∷ s)) t e =
    rw
      (
        quoted-kept (codes "debug-file = ") (c ∷ s),
        entry-debug_file (toml_quote (c ∷ s)),
        unblanked-quote (c ∷ s),
        parse_toml_scalar-toml_quote (c ∷ s),
      )
      refl
read_lines-emit_debug_file _ t e = rw (sym e) refl
