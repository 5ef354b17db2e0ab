-- ===== src/ConfigFile/Reread.antt =====
-- src/main.cpp: what a reload reads of a file that the Settings tab has written.
pub mod Emitted
use bitcoin_tui.Base.{
  [], Bool, true, false, List, ◌∷◌, Bytes, if◌then◌else◌, Option, some, ◌≡◌, refl, ◌∙◌, ap,
}
use bitcoin_tui.State.{empty}
use bitcoin_tui.Config.{pop_return}
use bitcoin_tui.ConfigFile.Text.{unlines}
use bitcoin_tui.ConfigFile.Lines.{lines-unlines}
use bitcoin_tui.ConfigFile.Readers.{EndOnce, Reader, run-new_lines}
use bitcoin_tui.ConfigFile.{is_managed, emit_key, count, old_lines, new_lines, write_config_table}
use bitcoin_tui.ConfigFile.Table.{
  LuaConfig, Key, tab_key, allow_rpc_key, refresh_key, host_key, port_key, unknown, settingstab_key,
  debug_key, debug_file_key,
}
use bitcoin_tui.ConfigFile.Written.{IsPlain, new_lines-AreLines}
use bitcoin_tui.Reload.Specs.{Reread, reread_lines, reread}
use bitcoin_tui.ConfigFile.Reread.Emitted.{
  reread_entry, reread_line-entry, specs_of, visible_of, reread_lines-emit_tabs,
  reread_lines-emit_rpcs, reread_lines-emit_refresh, reread_lines-emit_debug_file,
  reread_lines-emit_debug, reread_lines-emit_settingstab,
}

module _ (cfg : LuaConfig) (show : Bool) where
  -- What the reload makes of the written keys, with what it begins with for the others.
  abbrev shown : List Key → Reread → Reread
  shown written r = record {
    new_specs = if count tab_key written then specs_of cfg.tabs else [];
    settings_visible =
        if count settingstab_key written then visible_of show cfg.settingstab else show;
  }

  reread_lines-emit_key :
      (k : Key) (written : List Key) (r : Reread)
      → is_managed k ≡ true
      → count k written ≡ false
      → reread_lines (shown written r) (emit_key cfg k) ≡ shown (k ∷ written) r
  unfolding emit_key is_managed
  reread_lines-emit_key tab_key written r m h =
      reread_lines-emit_tabs cfg.tabs (shown written r) ∙ rw h refl
  reread_lines-emit_key allow_rpc_key written r m h = reread_lines-emit_rpcs cfg.allow_rpc _
  reread_lines-emit_key refresh_key written r m h = reread_lines-emit_refresh cfg.refresh _
  reread_lines-emit_key settingstab_key written r m h =
      reread_lines-emit_settingstab cfg.settingstab show _ (rw h refl)
  reread_lines-emit_key debug_key written r m h = reread_lines-emit_debug cfg.debug _
  reread_lines-emit_key debug_file_key written r m h = reread_lines-emit_debug_file cfg.debug_file _
  reread_lines-emit_key _ written r m h = cc

  shown-other :
      (k : Key) (v : Bytes) (written : List Key) (r : Reread)
      → is_managed k ≡ false
      → reread_entry (some (k, v)) (shown written r) ≡ shown written r
  unfolding is_managed
  shown-other host_key v written r m = refl
  shown-other port_key v written r m = refl
  shown-other unknown v written r m = refl
  shown-other _ v written r m = cc

  shown-again :
      (k : Key) (done : List Key) (r : Reread)
      → count k done ≡ true
      → shown done r ≡ shown (k ∷ done) r
  shown-again tab_key done r c = rw c refl
  shown-again settingstab_key done r c = rw c refl
  shown-again _ done r c = refl

  abbrev spec_reader : Reader cfg Reread
  spec_reader = record {
    run = reread_lines;
    step = reread_entry;
    shown = shown;
    run_nil = λ r. unfold reread_lines in refl;
    run_cons = λ r l ls.
        unfold reread_lines in ap (λ u. reread_lines u ls) (reread_line-entry (pop_return l) r);
    no_entry = λ r. refl;
    on_other = shown-other;
    on_managed = λ k v written r m. refl;
    on_emitted = reread_lines-emit_key;
    on_again = shown-again;
  }

  abbrev before_file : Reread
  before_file = record { new_specs = []; settings_visible = show }

  reread_lines-new_lines :
      (old : Option Bytes)
      → EndOnce (old_lines old)
      → reread_lines before_file (new_lines cfg old) ≡ record {
        new_specs = specs_of cfg.tabs;
        settings_visible = visible_of show cfg.settingstab;
      }
  reread_lines-new_lines old ends = (run-new_lines spec_reader before_file old refl ends).1

  -- When the Settings tab could write the file, a reload reads the tabs that it listed, in their
  -- order and each with the backslashes that the writer put in, whatever tabs the old file had, and
  -- the Settings tab is hidden if it is switched off, and otherwise as on the command line. This
  -- holds for a number that is an int, strings without line feeds, and an old file no line of which
  -- ends with two carriage returns.
  pub reread-write_config_table :
      (path : Bytes) (old : Option Bytes)
      → IsPlain cfg
      → empty path ≡ false
      → EndOnce (old_lines old)
      → (text : Bytes) × (write_config_table path true cfg old ≡ (true, some text))
        × (reread show path (some text) ≡ record {
          new_specs = specs_of cfg.tabs;
          settings_visible = visible_of show cfg.settingstab;
        })
  unfolding write_config_table reread
  reread-write_config_table path old plain h ends = (
    unlines (new_lines cfg old),
    rw h refl,
    rw (h, lines-unlines (new_lines cfg old) (new_lines-AreLines cfg plain old))
        (reread_lines-new_lines old ends),
  )
