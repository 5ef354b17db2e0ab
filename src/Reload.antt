-- ===== src/Reload.antt =====
-- src/main.cpp: the list of the Lua tabs when the configuration is read again.
pub mod Specs
pub mod Script
pub mod Again
pub mod Kept
mod Tests
use bitcoin_tui.Base.{
  Bool, true, false, not, ◌&&◌, ◌==◌, List, [], ◌∷◌, ◌++◌, Bytes, same_bytes, if◌then◌else◌, Option,
  none, some,
}
use bitcoin_tui.State.{empty}

-- The lambda spec_path.
unfoldable pub spec_path : Bytes → Bytes
spec_path [] = []
spec_path (c ∷ spec) = let more = spec_path spec in if c == b',' then [] else c ∷ more

-- `Tab` is LuaTab, with what the renderer asks of it: script_path() and finished(); `make` is
-- make_lua_tab(parse_tab_spec(spec)), which may throw.
pub record LuaTabs (Tab : Type 0) : Type 0 where
  pub script_path : Tab → Bytes
  pub finished : Tab → Bool
  pub make : Bytes → Option Tab

-- What is known of the tabs that no one configures.
pub record AutoTabs : Type 0 where
  pub auto_tab_paths : List Bytes
  pub settings_tab_path : Bytes
  pub settings_visible : Bool

count : Bytes → List Bytes → Bool
count path [] = false
count path (p ∷ paths) = let more = count path paths in if same_bytes path p then true else more

-- The tabs in their order, those that were made and those that are retired.
pub record Rebuilt (Tab : Type 0) : Type 0 where
  pub lua_tab_ptrs : List Tab
  pub made : List Tab
  pub retired : List Tab

module _ {Tab : Type 0} (t : LuaTabs Tab) where
  open t use {script_path, finished, make}

  pub in_front : Tab → Option Tab × List Tab → Option Tab × List Tab
  in_front p (found, pool) = (found, p ∷ pool)

  -- The first tab of that path, and the pool without it: a hole is left out.
  unfoldable pub extract : Bytes → List Tab → Option Tab × List Tab
  unfolding in_front
  extract path [] = (none, [])
  extract path (p ∷ pool) =
      let more = extract path pool in
      if same_bytes (script_path p) path then (some p, pool) else in_front p more

  -- A tab that is reused, or one that is made unless make_lua_tab throws.
  pub with_tab : Option Tab → Option Tab → Rebuilt Tab → Rebuilt Tab
  with_tab (some existing) new r = record r { lua_tab_ptrs = existing ∷ r.lua_tab_ptrs }
  with_tab none (some new) r = record r { lua_tab_ptrs = new ∷ r.lua_tab_ptrs; made = new ∷ r.made }
  with_tab none none r = r

  module _ (auto : AutoTabs) where
    unfoldable pub is_kept : Tab → Bool
    unfolding count
    is_kept p =
        let is_settings =
          not (empty auto.settings_tab_path) && same_bytes (script_path p) auto.settings_tab_path in
        count (script_path p) auto.auto_tab_paths && not (is_settings && not auto.settings_visible)

    -- The loop over what is left in the pool.
    unfoldable pub leftovers : List Tab → Rebuilt Tab
    unfolding is_kept
    leftovers [] = record { lua_tab_ptrs = []; made = []; retired = [] }
    leftovers (p ∷ pool) =
        let r = leftovers pool in
        if is_kept p
        then record r { lua_tab_ptrs = p ∷ r.lua_tab_ptrs }
        else record r { retired = p ∷ r.retired }

    -- The loop over the specs, and the leftovers behind it.
    unfoldable pub rebuild : List Bytes → List Tab → Rebuilt Tab
    unfolding extract with_tab leftovers
    rebuild [] pool = leftovers pool
    rebuild (spec ∷ specs) pool =
        let (existing, rest) = extract (spec_path spec) pool in
        with_tab existing (make spec) (rebuild specs rest)

    -- The dead tabs whose threads have not ended.
    pub unfinished : List Tab → List Tab
    unfinished [] = []
    unfinished (p ∷ dead) = let more = unfinished dead in if finished p then more else p ∷ more

    -- The tabs and the dead tabs behind a reload.
    unfoldable pub reload : List Bytes → List Tab × List Tab → List Tab × List Tab
    unfolding rebuild unfinished
    reload specs (lua_tab_ptrs, dead) =
        let r = rebuild specs lua_tab_ptrs in (r.lua_tab_ptrs, unfinished (dead ++ r.retired))
