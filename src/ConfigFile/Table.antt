-- ===== src/ConfigFile/Table.antt =====
-- src/tabs/luatab.cpp: read_config_table. The tables of Lua are records of the values that they hold
-- under the keys that are used.
use bitcoin_tui.Base.{
  Bool, true, false, ◌||◌, List, [], ◌∷◌, ◌++◌, Bytes, codes, same_bytes, ◌==◌, if◌then◌else◌,
  Option, none, some, ℤ, pos,
}
use bitcoin_tui.State.{empty}
use bitcoin_tui.Config.{pop_return, split_at}
use bitcoin_tui.Format.{trim_front, trimmed}
use bitcoin_tui.ConfigFile.Text.{lines, parse_toml_scalar, from_chars}

-- The values of Lua: a number as the int that it is cast to, a table as its elements from 1 to its
-- length, `none` for one that is no string.
pub data LuaRef : Type 0 where
  nil : LuaRef
  boolean : Bool → LuaRef
  number : ℤ → LuaRef
  string : Bytes → LuaRef
  table : List (Option Bytes) → LuaRef

-- What the script hands over.
pub record LuaConfig : Type 0 where
  pub tabs : LuaRef
  pub allow_rpc : LuaRef
  pub refresh : LuaRef
  pub settingstab : LuaRef
  pub debug : LuaRef
  pub debug_file : LuaRef

-- What it gets.
pub record ConfigTable : Type 0 where
  pub tabs : List Bytes
  pub allow_rpc : List Bytes
  pub refresh : ℤ
  pub host : Bytes
  pub port : ℤ
  pub settingstab : Bool
  pub debug : Bool
  pub debug_file : Bytes
  pub exists : Bool

abbrev pub default_config : ConfigTable
default_config = record {
  tabs = [];
  allow_rpc = [];
  refresh = pos 5;
  host = codes "127.0.0.1";
  port = pos 8332;
  settingstab = true;
  debug = false;
  debug_file = [];
  exists = false;
}

-- The keys of both functions: the writer has no case for the host and the port.
pub data Key : Type 0 where
  tab_key allow_rpc_key refresh_key host_key port_key settingstab_key debug_key debug_file_key
        unknown :
      Key

unfoldable pub classify : Bytes → Key
classify k =
    if same_bytes k (codes "tab")
    then tab_key
    else if same_bytes k (codes "allow-rpc")
    then allow_rpc_key
    else if same_bytes k (codes "refresh")
    then refresh_key
    else if same_bytes k (codes "host")
    then host_key
    else if same_bytes k (codes "port")
    then port_key
    else if same_bytes k (codes "settingstab")
    then settingstab_key
    else if same_bytes k (codes "debug")
    then debug_key
    else if same_bytes k (codes "debug-file")
    then debug_file_key
    else unknown

-- The key of a line and what stands behind its `=`; `none` for a comment or another line.
unfoldable pub entry : Bytes → Option (Key × Bytes)
unfolding classify
entry [] = none
entry (c ∷ s) = if c == b';' || c == b'#' then none else elim (split_at b'=' (c ∷ s)) [
  | none ↦ none
  | some (key, val) ↦ some (classify (trimmed key), val)
]

-- Blanks in front of the value are taken off, unless it has nothing else.
unfoldable pub unblanked : Bytes → Bytes
unblanked val = if empty (trim_front val) then val else trim_front val

unfoldable pub or_int : Option ℤ → ℤ → ℤ
or_int none def = def
or_int (some i) def = i

unfoldable pub append_some : Bytes → List Bytes → List Bytes
append_some sv out = if empty sv then out else out ++ sv ∷ []

is_true : Bytes → Bool
is_true val = same_bytes (parse_toml_scalar val) (codes "true")

unfoldable pub set_key : Key → Bytes → ConfigTable → ConfigTable
unfolding or_int append_some is_true
set_key tab_key val t = record t { tabs = append_some (parse_toml_scalar val) t.tabs }
set_key allow_rpc_key val t = record t {
  allow_rpc = append_some (parse_toml_scalar val) t.allow_rpc;
}
set_key refresh_key val t = record t { refresh = or_int (from_chars val) t.refresh }
set_key host_key val t = record t { host = parse_toml_scalar val }
set_key port_key val t = record t { port = or_int (from_chars val) t.port }
set_key settingstab_key val t = record t { settingstab = is_true val }
set_key debug_key val t = record t { debug = is_true val }
set_key debug_file_key val t = record t { debug_file = parse_toml_scalar val }
set_key unknown val t = t

unfoldable pub read_entry : Option (Key × Bytes) → ConfigTable → ConfigTable
unfolding set_key unblanked
read_entry none t = t
read_entry (some (key, val)) t = set_key key (unblanked val) t

unfoldable pub read_lines : ConfigTable → List Bytes → ConfigTable
read_lines t [] = t
read_lines t (line ∷ more) = read_lines (read_entry (entry (pop_return line)) t) more

-- `none` is a file that cannot be opened.
unfoldable pub read_config_table : Option Bytes → ConfigTable
unfolding read_lines
read_config_table none = default_config
read_config_table (some text) = read_lines (record default_config { exists = true }) (lines text)
