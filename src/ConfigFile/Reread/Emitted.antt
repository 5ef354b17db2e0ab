-- ===== src/ConfigFile/Reread/Emitted.antt =====
-- src/main.cpp: what a reload reads of each line that the Settings tab writes.
use bitcoin_tui.Base.{
  Bool, true, false, Bool-cases, Option-cases, ◌||◌, ◌==◌, inl, inr, List, [], ◌∷◌, ◌++◌,
  append_assoc, append-nil, Bytes, codes, same_bytes, same_bytes→eq, compare_bytes, take, to_string,
  Option, none, some, ◌≡◌, refl, ◌∙◌, ap, sym, arith,
}
use bitcoin_tui.Config.{pop_return, split_at}
use bitcoin_tui.Format.{trim_front, trimmed}
use bitcoin_tui.ConfigFile.Text.{escaped, toml_quote}
use bitcoin_tui.ConfigFile.Lines.{pop_return-kept}
use bitcoin_tui.ConfigFile.Scalars.{drop_quote-quote, to_string-Lacks}
use bitcoin_tui.ConfigFile.Keys.{
  quoted-kept, entry-tab, entry-allow_rpc, entry-refresh, entry-debug_file,
}
use bitcoin_tui.ConfigFile.{
  emit_elements, emit_array, emit_refresh, emit_settingstab, emit_debug, emit_debug_file,
}
use bitcoin_tui.ConfigFile.Table.{
  LuaRef, boolean, number, string, table, Key, tab_key, allow_rpc_key, refresh_key, settingstab_key,
  debug_file_key, entry, classify,
}
use bitcoin_tui.Reload.Specs.{Reread, parse_val, add_spec, reread_key, reread_line, reread_lines}

-- What the reload makes of an entry, by its key.
abbrev pub reread_entry : Option (Key × Bytes) → Reread → Reread
reread_entry (some (settingstab_key, val)) r = record r {
  settings_visible = same_bytes (take 4 (trim_front val)) (codes "true");
}
reread_entry (some (tab_key, val)) r = add_spec (trim_front val) r
reread_entry _ r = r

reread_key-classify :
    (key val : Bytes) (r : Reread)
    → reread_key key val r ≡ reread_entry (some (classify key, val)) r
unfolding reread_key classify
reread_key-classify key val r = elim (Bool-cases (same_bytes key (codes "settingstab"))) [
  | inl e ↦ rw (same_bytes→eq key (codes "settingstab") e) (unfold compare_bytes in refl)
  | inr e ↦ elim (Bool-cases (same_bytes key (codes "tab"))) [
    | inl k ↦ rw (same_bytes→eq key (codes "tab") k) (unfold compare_bytes in refl)
    | inr k ↦ rw (e, k) (ground arith)
  ]
]

pub reread_line-entry :
    (line : Bytes) (r : Reread) → reread_line line r ≡ reread_entry (entry line) r
unfolding reread_line entry
reread_line-entry [] r = refl
reread_line-entry (c ∷ s) r = elim (Bool-cases (c == b';' || c == b'#')) [
  | inl e ↦ rw e refl
  | inr e ↦ elim (Option-cases (split_at b'=' (c ∷ s))) [
    | inl o ↦ rw (e, o) refl
    | inr ((key, val), o) ↦ rw (e, o) (reread_key-classify (trimmed key) val r)
  ]
]

-- The specs that are read of the values written: each with the backslashes that the writer put in.
abbrev specs_in : List (Option Bytes) → List Bytes
specs_in [] = []
specs_in (none ∷ arr) = specs_in arr
specs_in (some e ∷ arr) = escaped e ∷ specs_in arr

abbrev pub specs_of : LuaRef → List Bytes
specs_of (table arr) = specs_in arr
specs_of _ = []

-- The flag of the command line, unless `false` has been written.
abbrev pub visible_of : Bool → LuaRef → Bool
visible_of show (boolean false) = false
visible_of show _ = show

abbrev reread_one : Bytes → Reread → Reread
reread_one l r = reread_line (pop_return l) r

add_spec-toml_quote :
    (e : Bytes) (r : Reread)
    → add_spec (trim_front (b' ' ∷ toml_quote e)) r
      ≡ record r { new_specs = r.new_specs ++ escaped e ∷ [] }
unfolding trim_front toml_quote add_spec parse_val
add_spec-toml_quote e r = rw (drop_quote-quote (escaped e)) refl

reread_one-tab :
    (e : Bytes) (r : Reread)
    → reread_one (codes "tab = " ++ toml_quote e) r
      ≡ record r { new_specs = r.new_specs ++ escaped e ∷ [] }
reread_one-tab e r =
    ap (λ l. reread_line l r) (quoted-kept (codes "tab = ") e)
    ∙ reread_line-entry (codes "tab = " ++ toml_quote e) r
    ∙ ap (λ o. reread_entry o r) (entry-tab (toml_quote e))
    ∙ add_spec-toml_quote e r

-- A line whose entry the reload does not look at.
reread_one-other :
    (l : Bytes) (r : Reread) (k : Key) (v : Bytes)
    → pop_return l ≡ l
    → entry l ≡ some (k, v)
    → reread_entry (some (k, v)) r ≡ r
    → reread_one l r ≡ r
reread_one-other l r k v e o same =
    ap (λ s. reread_line s r) e ∙ reread_line-entry l r ∙ ap (λ s. reread_entry s r) o ∙ same

reread_lines-tabs :
    (arr : List (Option Bytes)) (r : Reread)
    → reread_lines r (emit_elements (codes "tab") arr)
      ≡ record r { new_specs = r.new_specs ++ specs_in arr }
unfolding emit_elements reread_lines
reread_lines-tabs [] r = rw (append-nil r.new_specs) refl
reread_lines-tabs (none ∷ arr) r = reread_lines-tabs arr r
reread_lines-tabs (some e ∷ arr) r =
    ap (λ u. reread_lines u (emit_elements (codes "tab") arr)) (reread_one-tab e r)
    ∙ reread_lines-tabs arr (record r { new_specs = r.new_specs ++ escaped e ∷ [] })
    ∙ ap (λ xs. record r { new_specs = xs })
        (append_assoc r.new_specs (escaped e ∷ []) (specs_in arr))

reread_lines-rpcs :
    (arr : List (Option Bytes)) (r : Reread)
    → reread_lines r (emit_elements (codes "allow-rpc") arr) ≡ r
unfolding emit_elements reread_lines
reread_lines-rpcs [] r = refl
reread_lines-rpcs (none ∷ arr) r = reread_lines-rpcs arr r
reread_lines-rpcs (some e ∷ arr) r =
    ap (λ u. reread_lines u (emit_elements (codes "allow-rpc") arr))
      (reread_one-other (codes "allow-rpc = " ++ toml_quote e) r allow_rpc_key (b' ' ∷ toml_quote e)
        (quoted-kept (codes "allow-rpc = ") e) (entry-allow_rpc (toml_quote e)) refl)
    ∙ reread_lines-rpcs arr r

pub reread_lines-emit_tabs :
    (v : LuaRef) (r : Reread)
    → reread_lines r (emit_array (codes "tab") v)
      ≡ record r { new_specs = r.new_specs ++ specs_of v }
unfolding emit_array reread_lines
reread_lines-emit_tabs (table arr) r = reread_lines-tabs arr r
reread_lines-emit_tabs _ r = rw (append-nil r.new_specs) refl

pub reread_lines-emit_rpcs :
    (v : LuaRef) (r : Reread) → reread_lines r (emit_array (codes "allow-rpc") v) ≡ r
unfolding emit_array reread_lines
reread_lines-emit_rpcs (table arr) r = reread_lines-rpcs arr r
reread_lines-emit_rpcs _ r = refl

pub reread_lines-emit_refresh : (v : LuaRef) (r : Reread) → reread_lines r (emit_refresh v) ≡ r
unfolding emit_refresh reread_lines
reread_lines-emit_refresh (number i) r =
    reread_one-other (codes "refresh = " ++ to_string i) r refresh_key (b' ' ∷ to_string i)
      (pop_return-kept (codes "refresh = " ++ to_string i) (ground (arith, to_string-Lacks 13 i)))
      (entry-refresh (to_string i)) refl
reread_lines-emit_refresh _ r = refl

pub reread_lines-emit_debug_file :
    (v : LuaRef) (r : Reread) → reread_lines r (emit_debug_file v) ≡ r
unfolding emit_debug_file reread_lines
reread_lines-emit_debug_file (string []) r = refl
reread_lines-emit_debug_file (string (c ∷ s)) r =
    reread_one-other (codes "debug-file = " ++ toml_quote (c ∷ s)) r debug_file_key
      (b' ' ∷ toml_quote (c ∷ s)) (quoted-kept (codes "debug-file = ") (c ∷ s))
      (entry-debug_file (toml_quote (c ∷ s))) refl
reread_lines-emit_debug_file _ r = refl

pub reread_lines-emit_debug : (v : LuaRef) (r : Reread) → reread_lines r (emit_debug v) ≡ r
unfolding emit_debug reread_lines reread_line reread_key split_at trimmed trim_front compare_bytes
    pop_return
reread_lines-emit_debug (boolean true) r = refl
reread_lines-emit_debug (boolean false) r = refl
reread_lines-emit_debug _ r = refl

pub reread_lines-emit_settingstab :
    (v : LuaRef) (show : Bool) (r : Reread)
    → r.settings_visible ≡ show
    → reread_lines r (emit_settingstab v) ≡ record r { settings_visible = visible_of show v }
unfolding emit_settingstab reread_lines reread_line reread_key split_at trimmed trim_front
    compare_bytes pop_return
reread_lines-emit_settingstab (boolean false) show r e = refl
reread_lines-emit_settingstab (boolean true) show r e = rw (sym e) refl
reread_lines-emit_settingstab _ show r e = rw (sym e) refl
