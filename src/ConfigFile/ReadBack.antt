-- ===== src/ConfigFile/ReadBack.antt =====
-- src/tabs/luatab.cpp: reading config.toml after it has been written.
use bitcoin_tui.Base.{
  true, false, List, [], ◌∷◌, Bytes, if◌then◌else◌, Option, none, some, pos, ◌≡◌, refl, ◌∙◌,
}
use bitcoin_tui.ConfigFile.Readers.{EndOnce, Reader, run-new_lines}
use bitcoin_tui.ConfigFile.Entries.{
  strings_of, int_of, shown_of, on_of, text_of, IsInt, read_lines-emit_tabs, read_lines-emit_rpcs,
  read_lines-emit_refresh, read_lines-emit_settingstab, read_lines-emit_debug,
  read_lines-emit_debug_file,
}
use bitcoin_tui.ConfigFile.{is_managed, emit_key, count, old_lines, new_lines}
use bitcoin_tui.ConfigFile.Table.{
  LuaConfig, ConfigTable, default_config, Key, tab_key, allow_rpc_key, refresh_key, host_key,
  port_key, settingstab_key, debug_key, debug_file_key, unknown, set_key, read_entry, unblanked,
  read_lines, read_config_table,
}

module _ (cfg : LuaConfig) where
  -- What the reader makes of the written keys, with the defaults for the others, and with the host
  -- and the port of `t`.
  abbrev shown : List Key → ConfigTable → ConfigTable
  shown written t = record {
    tabs = if count tab_key written then strings_of cfg.tabs else [];
    allow_rpc = if count allow_rpc_key written then strings_of cfg.allow_rpc else [];
    refresh = if count refresh_key written then int_of cfg.refresh (pos 5) else pos 5;
    host = t.host;
    port = t.port;
    settingstab = if count settingstab_key written then shown_of cfg.settingstab else true;
    debug = if count debug_key written then on_of cfg.debug else false;
    debug_file = if count debug_file_key written then text_of cfg.debug_file else [];
    exists = true;
  }

  read_lines-emit_key :
      (k : Key) (written : List Key) (t : ConfigTable)
      → IsInt cfg.refresh
      → is_managed k ≡ true
      → count k written ≡ false
      → read_lines (shown written t) (emit_key cfg k) ≡ shown (k ∷ written) t
  unfolding emit_key is_managed
  read_lines-emit_key tab_key written t i m h =
      read_lines-emit_tabs cfg.tabs (shown written t) ∙ rw h refl
  read_lines-emit_key allow_rpc_key written t i m h =
      read_lines-emit_rpcs cfg.allow_rpc (shown written t) ∙ rw h refl
  read_lines-emit_key refresh_key written t i m h =
      read_lines-emit_refresh cfg.refresh (shown written t) i ∙ rw h refl
  read_lines-emit_key settingstab_key written t i m h =
      read_lines-emit_settingstab cfg.settingstab (shown written t) (rw h refl)
  read_lines-emit_key debug_key written t i m h =
      read_lines-emit_debug cfg.debug (shown written t) (rw h refl)
  read_lines-emit_key debug_file_key written t i m h =
      read_lines-emit_debug_file cfg.debug_file (shown written t) (rw h refl)
  read_lines-emit_key _ written t i m h = cc

  set_key-other :
      (k : Key) (v : Bytes) (written : List Key) (t : ConfigTable)
      → is_managed k ≡ false
      → set_key k v (shown written t) ≡ shown written (set_key k v t)
  unfolding is_managed set_key
  set_key-other host_key v written t m = refl
  set_key-other port_key v written t m = refl
  set_key-other unknown v written t m = refl
  set_key-other _ v written t m = cc

  set_key-managed :
      (k : Key) (v : Bytes) (written : List Key) (t : ConfigTable)
      → is_managed k ≡ true
      → shown written t ≡ shown written (set_key k v t)
  unfolding is_managed set_key
  set_key-managed host_key v written t m = cc
  set_key-managed port_key v written t m = cc
  set_key-managed unknown v written t m = refl
  set_key-managed _ v written t m = refl

  -- What is read back, over what the old file had.
  abbrev pub with_written : ConfigTable → ConfigTable
  with_written t = record t {
    tabs = strings_of cfg.tabs;
    allow_rpc = strings_of cfg.allow_rpc;
    refresh = int_of cfg.refresh (pos 5);
    settingstab = shown_of cfg.settingstab;
    debug = on_of cfg.debug;
    debug_file = text_of cfg.debug_file;
    exists = true;
  }

  shown-again :
      (k : Key) (done : List Key) (t : ConfigTable)
      → count k done ≡ true
      → shown done t ≡ shown (k ∷ done) t
  shown-again tab_key done t c = rw c refl
  shown-again allow_rpc_key done t c = rw c refl
  shown-again refresh_key done t c = rw c refl
  shown-again settingstab_key done t c = rw c refl
  shown-again debug_key done t c = rw c refl
  shown-again debug_file_key done t c = rw c refl
  shown-again _ done t c = refl

  abbrev table_reader : IsInt cfg.refresh → Reader cfg ConfigTable
  table_reader i = record {
    run = read_lines;
    step = read_entry;
    shown = shown;
    run_nil = λ t. unfold read_lines in refl;
    run_cons = λ t l ls. unfold read_lines in refl;
    no_entry = λ t. unfold read_entry in refl;
    on_other = λ k v written t m. unfold read_entry in set_key-other k (unblanked v) written t m;
    on_managed =
        λ k v written t m. unfold read_entry in set_key-managed k (unblanked v) written t m;
    on_emitted = λ k written t m c. read_lines-emit_key k written t i m c;
    on_again = shown-again;
  }

  abbrev empty_file : ConfigTable
  empty_file = record default_config { exists = true }

  read_old :
      (old : Option Bytes)
      → with_written (read_lines empty_file (old_lines old)) ≡ with_written (read_config_table old)
  unfolding old_lines read_lines read_config_table
  read_old none = refl
  read_old (some text) = refl

  pub read_lines-new_lines :
      (old : Option Bytes)
      → IsInt cfg.refresh
      → EndOnce (old_lines old)
      → read_lines empty_file (new_lines cfg old) ≡ with_written (read_config_table old)
  read_lines-new_lines old i ends =
      (run-new_lines (table_reader i) empty_file old refl ends).1 ∙ read_old old
