-- ===== src/ConfigFile.antt =====
-- src/tabs/luatab.cpp: config.toml, as the Settings tab reads and writes it.
pub mod Text
pub mod Table
pub mod Lines
pub mod Scalars
pub mod Keys
pub mod Entries
pub mod Readers
pub mod ReadBack
pub mod Others
pub mod Written
pub mod Reread
mod Tests
use bitcoin_tui.Base.{
  ℕ, Bool, true, false, not, ◌||◌, List, [], ◌∷◌, ◌++◌, Bytes, codes, ◌==◌, if◌then◌else◌, Option,
  none, some, to_string,
}
use bitcoin_tui.State.{empty}
use bitcoin_tui.Config.{pop_return}
use bitcoin_tui.ConfigFile.Text.{lines, unlines, toml_quote}
use bitcoin_tui.ConfigFile.Table.{
  LuaRef, LuaConfig, Key, entry, boolean, number, string, table, tab_key, allow_rpc_key,
  refresh_key, host_key, port_key, settingstab_key, debug_key, debug_file_key, unknown, Key,
}

unfoldable pub is_managed : Key → Bool
is_managed host_key = false
is_managed port_key = false
is_managed unknown = false
is_managed _ = true

-- The managed keys, in the order of std::set<std::string>.
abbrev pub managed : List Key
managed = allow_rpc_key ∷ debug_key ∷ debug_file_key ∷ refresh_key ∷ settingstab_key ∷ tab_key ∷ []

emit_elements : Bytes → List (Option Bytes) → List Bytes
emit_elements key [] = []
emit_elements key (none ∷ more) = emit_elements key more
emit_elements key (some e ∷ more) = (key ++ (codes " = " ++ toml_quote e)) ∷ emit_elements key more

pub emit_array : Bytes → LuaRef → List Bytes
unfolding emit_elements
emit_array key (table arr) = emit_elements key arr
emit_array key _ = []

pub emit_refresh : LuaRef → List Bytes
emit_refresh (number r) = (codes "refresh = " ++ to_string r) ∷ []
emit_refresh _ = []

pub emit_settingstab : LuaRef → List Bytes
emit_settingstab (boolean false) = codes "settingstab = false" ∷ []
emit_settingstab _ = []

pub emit_debug : LuaRef → List Bytes
emit_debug (boolean true) = codes "debug = true" ∷ []
emit_debug _ = []

pub emit_debug_file : LuaRef → List Bytes
emit_debug_file (string s) = if empty s then [] else (codes "debug-file = " ++ toml_quote s) ∷ []
emit_debug_file _ = []

unfoldable pub emit_key : LuaConfig → Key → List Bytes
unfolding emit_array emit_refresh emit_settingstab emit_debug emit_debug_file
emit_key cfg tab_key = emit_array (codes "tab") cfg.tabs
emit_key cfg allow_rpc_key = emit_array (codes "allow-rpc") cfg.allow_rpc
emit_key cfg refresh_key = emit_refresh cfg.refresh
emit_key cfg settingstab_key = emit_settingstab cfg.settingstab
emit_key cfg debug_key = emit_debug cfg.debug
emit_key cfg debug_file_key = emit_debug_file cfg.debug_file
emit_key cfg _ = []

-- The keys written so far, as a set.
abbrev number_of : Key → ℕ
number_of tab_key = 0
number_of allow_rpc_key = 1
number_of refresh_key = 2
number_of host_key = 3
number_of port_key = 4
number_of settingstab_key = 5
number_of debug_key = 6
number_of debug_file_key = 7
number_of unknown = 8

abbrev pub count : Key → List Key → Bool
count k [] = false
count k (j ∷ written) = number_of k == number_of j || count k written

-- The lines so far and the keys written, after one more line of the old file.
unfoldable pub write_line :
    LuaConfig → Bytes → Option (Key × Bytes) → List Bytes × List Key → List Bytes × List Key
unfolding is_managed
write_line cfg line none (out, written) = (out ++ line ∷ [], written)
write_line cfg line (some (key, val)) (out, written) =
    if is_managed key
    then if count key written then (out, written) else (out ++ emit_key cfg key, key ∷ written)
    else (out ++ line ∷ [], written)

unfoldable pub write_lines : LuaConfig → List Bytes → List Bytes × List Key → List Bytes × List Key
write_lines cfg [] st = st
write_lines cfg (line ∷ existing) st =
    write_lines cfg existing (write_line cfg (pop_return line) (entry (pop_return line)) st)

unfoldable pub write_rest : LuaConfig → List Key → List Bytes × List Key → List Bytes
write_rest cfg [] (out, written) = out
write_rest cfg (key ∷ more) (out, written) =
    write_rest cfg more ((if count key written then out else out ++ emit_key cfg key), written)

pub old_lines : Option Bytes → List Bytes
old_lines none = []
old_lines (some text) = lines text

unfoldable pub new_lines : LuaConfig → Option Bytes → List Bytes
unfolding old_lines
new_lines cfg old = write_rest cfg managed (write_lines cfg (old_lines old) ([], []))

-- Whether it is written, and the file: for a path, whether the file can be opened for writing, and
-- its old text, `none` if there is none.
unfoldable pub write_config_table : Bytes → Bool → LuaConfig → Option Bytes → Bool × Option Bytes
write_config_table path opens cfg old =
    if empty path || not opens then (false, old) else (true, some (unlines (new_lines cfg old)))
