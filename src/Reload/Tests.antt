-- ===== src/Reload/Tests.antt =====
-- src/main.cpp: a reload with one tab from the configuration and the Settings tab.
use bitcoin_tui.Base.{
  Bool, true, false, List, [], ◌∷◌, Bytes, codes, compare_bytes, same_bytes, Option, some, ok, ◌+◌,
  ◌≡◌, refl,
}
use bitcoin_tui.Config.{split_at}
use bitcoin_tui.ConfigFile.Text.{push}
use bitcoin_tui.Json.Value.{Json, string, object, field, no_fields, insert}
use bitcoin_tui.Json.Access.{assign}
use bitcoin_tui.Json.Tests.{text_floats}
use bitcoin_tui.Reload.Specs.{tokens, starts_with_brace, options_of, lua_tabs}
use bitcoin_tui.Reload.Again.{ArePlain, reload-reload}
use bitcoin_tui.Reload.{spec_path, LuaTabs, AutoTabs, rebuild, reload}
use bitcoin_tui.Reload.Kept.{occurrences, rebuild-occurrences}

-- A tab is its path.
abbrev by_path : LuaTabs Bytes
by_path = record { script_path = λ p. p; finished = λ p. false; make = λ spec. some spec }

abbrev settings : AutoTabs
settings = record {
  auto_tab_paths = codes "settings.lua" ∷ [];
  settings_tab_path = codes "settings.lua";
  settings_visible = true;
}

abbrev is_settings_tab : Bytes → Bool
is_settings_tab p = same_bytes p (codes "settings.lua")

rebuild-occurrences_example :
    occurrences is_settings_tab
        (rebuild by_path settings
          (codes "b.lua" ∷ [])
          (codes "a.lua" ∷ codes "settings.lua" ∷ [])).lua_tab_ptrs
      + occurrences is_settings_tab
          (rebuild by_path settings
            (codes "b.lua" ∷ [])
            (codes "a.lua" ∷ codes "settings.lua" ∷ [])).retired
    ≡ occurrences is_settings_tab (codes "a.lua" ∷ codes "settings.lua" ∷ [])
      + occurrences is_settings_tab
          (rebuild by_path settings
            (codes "b.lua" ∷ [])
            (codes "a.lua" ∷ codes "settings.lua" ∷ [])).made
rebuild-occurrences_example =
    rebuild-occurrences by_path is_settings_tab settings (codes "b.lua" ∷ [])
      (codes "a.lua" ∷ codes "settings.lua" ∷ [])

-- The state of a tab is whether its thread has ended.
abbrev started : Json Bytes → Option Bool
started options = some false

abbrev has_ended : Bool → Bool
has_ended state = state

abbrev two_specs : List Bytes
two_specs = codes "b.lua" ∷ codes "a.lua,x=1" ∷ []

two_specs-ArePlain : ArePlain two_specs
unfolding starts_with_brace spec_path tokens push split_at compare_bytes
two_specs-ArePlain = ((refl, refl, tt), ((refl, refl, (refl, tt)), tt))

reload-reload_example :
    reload
      (lua_tabs text_floats started has_ended)
      settings
      two_specs
      (reload (lua_tabs text_floats started has_ended) settings two_specs ([], []))
    ≡ reload (lua_tabs text_floats started has_ended) settings two_specs ([], [])
reload-reload_example =
    reload-reload text_floats started has_ended (λ options. (false, refl)) settings two_specs
      ([], []) two_specs-ArePlain

-- An option with the name of the path takes its place.
script_twice :
    options_of {D = Bytes} (tokens (codes "a.lua,script=b.lua"))
    ≡ ok (object (field (codes "script") (string (codes "b.lua")) no_fields))
unfolding options_of tokens push split_at assign insert compare_bytes
script_twice = refl
