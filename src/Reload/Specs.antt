-- ===== src/Reload/Specs.antt =====
-- src/main.cpp: the specs of the tabs, as a reload reads them from config.toml, and the options and
-- the tab that each of them makes.
use bitcoin_tui.Base.{
  Bool, true, false, not, ◌||◌, List, [], ◌∷◌, ◌++◌, take, Bytes, codes, same_bytes, ◌==◌,
  if◌then◌else◌, Option, none, some, Outcome, ok, bind,
}
use bitcoin_tui.State.{empty}
use bitcoin_tui.Config.{pop_return, split_at}
use bitcoin_tui.Format.{trim_front, trimmed}
use bitcoin_tui.ConfigFile.Text.{push, lines, drop_quote}
use bitcoin_tui.Json.Value.{Floats, Json, null, string}
use bitcoin_tui.Json.Access.{assign, contains, index, get_string, or_default}
use bitcoin_tui.Json.Parser.{parse}
use bitcoin_tui.Reload.{LuaTabs}

-- What is read: the specs, and whether the Settings tab is shown.
pub record Reread : Type 0 where
  pub new_specs : List Bytes
  pub settings_visible : Bool

-- The lambda parse_val.
unfoldable pub parse_val : Bytes → Bytes
parse_val [] = []
parse_val (c ∷ s) =
    if c == b'"' then elim (drop_quote s) [ none ↦ c ∷ s | some inner ↦ inner ] else c ∷ s

-- A value without the blanks in front of it is a spec, unless nothing is left.
unfoldable pub add_spec : Bytes → Reread → Reread
unfolding parse_val
add_spec val r = if empty val then r else record r { new_specs = r.new_specs ++ parse_val val ∷ [] }

-- The key of a line without its blanks, and what stands behind its `=`.
unfoldable pub reread_key : Bytes → Bytes → Reread → Reread
unfolding add_spec
reread_key key val r =
    if same_bytes key (codes "settingstab")
    then record r { settings_visible = same_bytes (take 4 (trim_front val)) (codes "true") }
    else if same_bytes key (codes "tab")
    then add_spec (trim_front val) r
    else r

unfoldable pub reread_line : Bytes → Reread → Reread
unfolding reread_key
reread_line [] r = r
reread_line (c ∷ s) r = if c == b';' || c == b'#' then r else elim (split_at b'=' (c ∷ s)) [
  | none ↦ r
  | some (key, val) ↦ reread_key (trimmed key) val r
]

unfoldable pub reread_lines : Reread → List Bytes → Reread
reread_lines r [] = r
reread_lines r (line ∷ more) = reread_lines (reread_line (pop_return line) r) more

-- From the flag of the command line, the path of the file and its text, `none` if it cannot be opened.
unfoldable pub reread : Bool → Bytes → Option Bytes → Reread
unfolding reread_lines
reread show_settings_tab cfg_path none = record {
  new_specs = [];
  settings_visible = show_settings_tab;
}
reread show_settings_tab cfg_path (some text) =
    let r : Reread = record { new_specs = []; settings_visible = show_settings_tab } in
    if empty cfg_path then r else reread_lines r (lines text)

-- The calls of std::getline with a comma until the spec is over.
unfoldable pub tokens : Bytes → List Bytes
unfolding push
tokens [] = []
tokens (c ∷ s) = let more = tokens s in if c == b',' then [] ∷ more else push c more

unfoldable pub starts_with_brace : Bytes → Bool
starts_with_brace [] = false
starts_with_brace (c ∷ s) = c == b'{'

-- `true` also where get<std::string> throws.
is_missing : Outcome Bytes → Bool
is_missing (ok script) = empty script
is_missing _ = true

-- `{D}` is the type of doubles.
module _ {D : Type 0} where
  unfoldable pub add_option : Option (Bytes × Bytes) → Json D → Outcome (Json D)
  add_option none options = ok options
  add_option (some (key, val)) options = assign key (string val) options

  -- The tokens behind the first: those with a `=` are options.
  unfoldable pub add_options : List Bytes → Json D → Outcome (Json D)
  unfolding add_option
  add_options [] options = ok options
  add_options (token ∷ more) options =
      bind (add_option (split_at b'=' token) options) (add_options more)

  unfoldable pub options_of : List Bytes → Outcome (Json D)
  unfolding add_options
  options_of [] = ok null
  options_of (token ∷ more) = bind (assign (codes "script") (string token) null) (add_options more)

  -- LuaTab::script_path: make_lua_tab has seen that the script is a string.
  unfoldable pub script_path_of : Json D → Bytes
  script_path_of options =
      if contains (codes "script") options
      then or_default (get_string (index (codes "script") options)) []
      else []

  -- The tab with its options; `none` where an exception is thrown. `start` is the constructor of
  -- LuaTab, which loads the script and starts its thread.
  unfoldable pub make_lua_tab :
      {S : Type 0} → (Json D → Option S) → Outcome (Json D) → Option (Json D × S)
  unfolding is_missing
  make_lua_tab start (ok options) =
      if not (contains (codes "script") options)
        || is_missing (get_string (index (codes "script") options))
      then none
      else elim (start options) [ none ↦ none | some s ↦ some (options, s) ]
  make_lua_tab start _ = none

unfoldable pub parse_tab_spec : (floats : Floats) → Bytes → Outcome (Json floats.Double)
unfolding starts_with_brace tokens options_of
parse_tab_spec floats tab_spec =
    if starts_with_brace tab_spec then parse floats tab_spec else options_of (tokens tab_spec)

-- The tabs that the specs make, with their options.
unfoldable pub lua_tabs :
    {S : Type 0} (floats : Floats)
    → (Json floats.Double → Option S)
    → (S → Bool)
    → LuaTabs (Json floats.Double × S)
lua_tabs floats start has_ended = record {
  script_path = λ tab. script_path_of tab.0;
  finished = λ tab. has_ended tab.1;
  make = λ spec. make_lua_tab start (parse_tab_spec floats spec);
}
