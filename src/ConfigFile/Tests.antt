-- ===== src/ConfigFile/Tests.antt =====
-- Runs of config.toml.
use bitcoin_tui.Base.{
  true, false, [], ◌∷◌, Bytes, codes, compare_bytes, to_string, to_decimal, map, Option, none, some,
  pos, ◌≡◌, refl, arith,
}
use bitcoin_tui.Config.{pop_return, split_at}
use bitcoin_tui.Format.{trimmed, trim_front}
use bitcoin_tui.ConfigFile.Text.{lines, unlines, toml_quote, parse_toml_scalar, drop_quote}
use bitcoin_tui.ConfigFile.Reread.{reread-write_config_table}
use bitcoin_tui.ConfigFile.Reread.Emitted.{specs_of, visible_of}
use bitcoin_tui.Reload.Specs.{reread, reread_line}
use bitcoin_tui.ConfigFile.Readers.{EndOnce}
use bitcoin_tui.ConfigFile.ReadBack.{with_written}
use bitcoin_tui.ConfigFile.Others.{other_lines}
use bitcoin_tui.ConfigFile.Written.{
  IsPlain, write_config_table-other, read_config_table-write_config_table,
}
use bitcoin_tui.ConfigFile.{
  is_managed, emit_key, write_line, write_lines, write_rest, old_lines, new_lines,
  write_config_table,
}
use bitcoin_tui.ConfigFile.Table.{
  nil, boolean, number, string, table, LuaConfig, entry, classify, read_config_table, read_entry,
}

-- A path with a backslash, as on Windows, with one more each time that it is written.
abbrev cfg : LuaConfig
cfg = record {
  tabs = table (some (codes "a.lua") ∷ none ∷ some (codes "b.lua,k=v") ∷ []);
  allow_rpc = nil;
  refresh = number (pos 7);
  settingstab = boolean false;
  debug = boolean false;
  debug_file = string (codes "d\\log");
}

abbrev old : Option Bytes
old = some (
    unlines (
      codes "# mine"
      ∷ codes "tab = old.lua"
      ∷ codes "port = 18443"
      ∷ codes "tab = older.lua"
      ∷ codes "debug = true"
      ∷ []))

written :
    new_lines cfg old
    ≡ codes "# mine"
      ∷ codes "tab = \"a.lua\""
      ∷ codes "tab = \"b.lua,k=v\""
      ∷ codes "port = 18443"
      ∷ codes "debug-file = \"d\\\\log\""
      ∷ codes "refresh = 7"
      ∷ codes "settingstab = false"
      ∷ []
unfolding new_lines old_lines lines unlines write_lines write_line write_rest emit_key is_managed
    entry classify split_at trimmed trim_front pop_return toml_quote to_string to_decimal
    compare_bytes
written = refl

cfg-IsPlain : IsPlain cfg
cfg-IsPlain = record {
  tabs = ground arith;
  allow_rpc = tt;
  refresh = omega arith;
  debug_file = ground arith;
}

write_config_table-other_example :
    (text : Bytes) × (write_config_table (codes "p") true cfg old ≡ (true, some text))
    × (other_lines (lines text) ≡ other_lines (map pop_return (old_lines old)))
write_config_table-other_example = write_config_table-other cfg cfg-IsPlain (codes "p") old refl

old-EndOnce : EndOnce (old_lines old)
unfolding old_lines lines unlines pop_return
old-EndOnce = (refl, (refl, (refl, (refl, (refl, tt)))))

read_config_table-write_config_table_example :
    (text : Bytes) × (write_config_table (codes "p") true cfg old ≡ (true, some text))
    × (read_config_table (some text) ≡ with_written cfg (read_config_table old))
read_config_table-write_config_table_example =
    read_config_table-write_config_table cfg cfg-IsPlain (codes "p") old refl old-EndOnce

reread-write_config_table_example :
    (text : Bytes) × (write_config_table (codes "p") true cfg old ≡ (true, some text))
    × (reread true (codes "p") (some text) ≡ record {
      new_specs = specs_of cfg.tabs;
      settings_visible = visible_of true cfg.settingstab;
    })
reread-write_config_table_example =
    reread-write_config_table cfg true (codes "p") old cfg-IsPlain refl old-EndOnce

abbrev by_hand : Bytes
by_hand = unlines (codes "tab = \"a.lua\" " ∷ codes "settingstab = \"true\"" ∷ [])

-- Quotes and a blank at the end: the Settings tab shows the script and itself as configured.
by_hand-settings :
    ((read_config_table (some by_hand)).tabs ≡ codes "a.lua" ∷ [])
    × ((read_config_table (some by_hand)).settingstab ≡ true)
unfolding read_config_table lines unlines entry classify split_at trimmed trim_front pop_return
    compare_bytes parse_toml_scalar read_entry
by_hand-settings = (refl, refl)

-- The reload takes the quotes for a part of the path, and hides the Settings tab.
by_hand-reload :
    reread true (codes "p") (some by_hand)
    ≡ record { new_specs = codes "\"a.lua\" " ∷ []; settings_visible = false }
unfolding reread lines unlines split_at trimmed trim_front pop_return compare_bytes drop_quote
    reread_line
by_hand-reload = refl
