-- ===== src/ConfigFile/Written.antt =====
-- src/tabs/luatab.cpp: the file that a write of config.toml leaves.
use bitcoin_tui.Base.{
  true, false, Bool-cases, inl, inr, List, [], ◌∷◌, ◌++◌, Bytes, codes, map, Option, none, some,
  to_string, ◌≡◌, refl, ◌∙◌, ap, arith,
}
use bitcoin_tui.State.{empty}
use bitcoin_tui.Config.{pop_return}
use bitcoin_tui.Config.Cookie.{Lacks}
use bitcoin_tui.ConfigFile.Text.{lines, unlines, escaped, toml_quote}
use bitcoin_tui.ConfigFile.Lines.{
  AreLines, AreLines-append, Lacks-append, lines-unlines, lines-AreLines, pop_return-Lacks,
}
use bitcoin_tui.ConfigFile.Scalars.{escaped-Lacks, to_string-Lacks}
use bitcoin_tui.ConfigFile.Entries.{IsInt}
use bitcoin_tui.ConfigFile.Readers.{EndOnce}
use bitcoin_tui.ConfigFile.ReadBack.{with_written, read_lines-new_lines}
use bitcoin_tui.ConfigFile.Others.{other_lines, new_lines-other}
use bitcoin_tui.ConfigFile.{
  managed, emit_elements, emit_array, emit_refresh, emit_settingstab, emit_debug, emit_debug_file,
  emit_key, count, write_line, write_lines, write_rest, old_lines, new_lines, write_config_table,
}
use bitcoin_tui.ConfigFile.Table.{
  LuaRef, boolean, number, string, table, LuaConfig, Key, tab_key, allow_rpc_key, refresh_key,
  settingstab_key, debug_key, debug_file_key, entry, read_config_table,
}

-- No string among the values holds a line feed.
abbrev AreOneLine : List (Option Bytes) → Type 0
AreOneLine [] = Unit
AreOneLine (none ∷ arr) = AreOneLine arr
AreOneLine (some e ∷ arr) = Lacks b'\n' e × AreOneLine arr

abbrev pub IsOneLine : LuaRef → Type 0
IsOneLine (table arr) = AreOneLine arr
IsOneLine (string s) = Lacks b'\n' s
IsOneLine _ = Unit

-- The values that the writer takes: a number that is an int, and strings of one line.
pub record IsPlain (cfg : LuaConfig) : Type 0 where
  pub tabs : IsOneLine cfg.tabs
  pub allow_rpc : IsOneLine cfg.allow_rpc
  pub refresh : IsInt cfg.refresh
  pub debug_file : IsOneLine cfg.debug_file

toml_quote-Lacks : (v : Bytes) → Lacks b'\n' v → Lacks b'\n' (toml_quote v)
unfolding toml_quote
toml_quote-Lacks v h =
    (refl, Lacks-append b'\n' (escaped v) (b'"' ∷ []) (escaped-Lacks b'\n' v refl h) (refl, tt))

emit_elements-AreLines :
    (key : Bytes) (arr : List (Option Bytes))
    → Lacks b'\n' key
    → AreOneLine arr
    → AreLines (emit_elements key arr)
unfolding emit_elements
emit_elements-AreLines key [] k h = tt
emit_elements-AreLines key (none ∷ arr) k h = emit_elements-AreLines key arr k h
emit_elements-AreLines key (some e ∷ arr) k h = (
  Lacks-append b'\n' key (codes " = " ++ toml_quote e) k
      (refl, (refl, (refl, toml_quote-Lacks e h.0))),
  emit_elements-AreLines key arr k h.1,
)

emit_array-AreLines :
    (key : Bytes) (r : LuaRef) → Lacks b'\n' key → IsOneLine r → AreLines (emit_array key r)
unfolding emit_array
emit_array-AreLines key (table arr) k h = emit_elements-AreLines key arr k h
emit_array-AreLines key _ k h = tt

emit_refresh-AreLines : (r : LuaRef) → AreLines (emit_refresh r)
unfolding emit_refresh
emit_refresh-AreLines (number i) = (
  Lacks-append b'\n' (codes "refresh = ") (to_string i) (ground arith)
      (to_string-Lacks b'\n' i (omega arith)),
  tt,
)
emit_refresh-AreLines _ = tt

emit_settingstab-AreLines : (r : LuaRef) → AreLines (emit_settingstab r)
unfolding emit_settingstab
emit_settingstab-AreLines (boolean false) = ground arith
emit_settingstab-AreLines (boolean true) = tt
emit_settingstab-AreLines _ = tt

emit_debug-AreLines : (r : LuaRef) → AreLines (emit_debug r)
unfolding emit_debug
emit_debug-AreLines (boolean true) = ground arith
emit_debug-AreLines (boolean false) = tt
emit_debug-AreLines _ = tt

emit_debug_file-AreLines : (r : LuaRef) → IsOneLine r → AreLines (emit_debug_file r)
unfolding emit_debug_file
emit_debug_file-AreLines (string []) h = tt
emit_debug_file-AreLines (string (c ∷ s)) h = (
  Lacks-append b'\n' (codes "debug-file = ") (toml_quote (c ∷ s)) (ground arith)
      (toml_quote-Lacks (c ∷ s) h),
  tt,
)
emit_debug_file-AreLines _ h = tt

module _ (cfg : LuaConfig) (plain : IsPlain cfg) where
  emit_key-AreLines : (k : Key) → AreLines (emit_key cfg k)
  unfolding emit_key
  emit_key-AreLines tab_key = emit_array-AreLines (codes "tab") cfg.tabs (ground arith) plain.tabs
  emit_key-AreLines allow_rpc_key =
      emit_array-AreLines (codes "allow-rpc") cfg.allow_rpc (ground arith) plain.allow_rpc
  emit_key-AreLines refresh_key = emit_refresh-AreLines cfg.refresh
  emit_key-AreLines settingstab_key = emit_settingstab-AreLines cfg.settingstab
  emit_key-AreLines debug_key = emit_debug-AreLines cfg.debug
  emit_key-AreLines debug_file_key = emit_debug_file-AreLines cfg.debug_file plain.debug_file
  emit_key-AreLines _ = tt

  write_line-AreLines :
      (line : Bytes) (o : Option (Key × Bytes)) (out : List Bytes) (written : List Key)
      → Lacks b'\n' line
      → AreLines out
      → AreLines (write_line cfg line o (out, written)).0
  unfolding write_line
  write_line-AreLines line none out written h k = AreLines-append out (line ∷ []) k (h, tt)
  write_line-AreLines line (some (key, v)) out written h k = ground (
    arith,
    AreLines-append out (line ∷ []) k (h, tt),
    AreLines-append out (emit_key cfg key) k (emit_key-AreLines key),
  )

  write_lines-AreLines :
      (existing out : List Bytes) (written : List Key)
      → AreLines existing
      → AreLines out
      → AreLines (write_lines cfg existing (out, written)).0
  unfolding write_lines
  write_lines-AreLines [] out written h k = k
  write_lines-AreLines (l ∷ existing) out written h k =
      let line = pop_return l in
      let st = write_line cfg line (entry line) (out, written) in
      write_lines-AreLines existing st.0 st.1 h.1
        (write_line-AreLines line (entry line) out written (pop_return-Lacks b'\n' l h.0) k)

  write_rest-AreLines :
      (keys : List Key) (out : List Bytes) (written : List Key)
      → AreLines out
      → AreLines (write_rest cfg keys (out, written))
  unfolding write_rest
  write_rest-AreLines [] out written h = h
  write_rest-AreLines (k ∷ keys) out written h = elim (Bool-cases (count k written)) [
    | inl c ↦ rw c (write_rest-AreLines keys out written h)
    | inr c ↦ rw c (
        write_rest-AreLines keys (out ++ emit_key cfg k) written
          (AreLines-append out (emit_key cfg k) h (emit_key-AreLines k)))
  ]

  old_lines-AreLines : (old : Option Bytes) → AreLines (old_lines old)
  unfolding old_lines
  old_lines-AreLines none = tt
  old_lines-AreLines (some text) = lines-AreLines text

  pub new_lines-AreLines : (old : Option Bytes) → AreLines (new_lines cfg old)
  unfolding new_lines
  new_lines-AreLines old =
      let st = write_lines cfg (old_lines old) ([], []) in
      write_rest-AreLines managed st.0 st.1
        (write_lines-AreLines (old_lines old) [] [] (old_lines-AreLines old) tt)

  -- Where the file can be written, the lines of other keys are in it as they were, in their order,
  -- comments and blank lines included, but for a carriage return at the end: for a number that is an
  -- int and strings without line feeds.
  pub write_config_table-other :
      (path : Bytes) (old : Option Bytes)
      → empty path ≡ false
      → (text : Bytes) × (write_config_table path true cfg old ≡ (true, some text))
        × (other_lines (lines text) ≡ other_lines (map pop_return (old_lines old)))
  unfolding write_config_table
  write_config_table-other path old h = (
    unlines (new_lines cfg old),
    rw h refl,
    ap other_lines (lines-unlines (new_lines cfg old) (new_lines-AreLines old))
        ∙ new_lines-other cfg old,
  )

  -- Where the file can be written, what is read back of it has the values written: each string with
  -- the backslashes that the writer put in, the empty ones left out, and the default for what is
  -- written as none; and the host and the port that the old file had. This holds for a number that
  -- is an int, strings without line feeds, and an old file no line of which ends with two carriage
  -- returns, whatever keys it holds and how often.
  pub read_config_table-write_config_table :
      (path : Bytes) (old : Option Bytes)
      → empty path ≡ false
      → EndOnce (old_lines old)
      → (text : Bytes) × (write_config_table path true cfg old ≡ (true, some text))
        × (read_config_table (some text) ≡ with_written cfg (read_config_table old))
  unfolding write_config_table read_config_table
  read_config_table-write_config_table path old h ends = (
    unlines (new_lines cfg old),
    rw h refl,
    rw (lines-unlines (new_lines cfg old) (new_lines-AreLines old))
        (read_lines-new_lines cfg old plain.refresh ends),
  )
