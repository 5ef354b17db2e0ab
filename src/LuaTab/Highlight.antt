-- ===== src/LuaTab/Highlight.antt =====
-- src/tabs/luatab.cpp: the panel that is highlighted and the row that is selected in it.
use bitcoin_tui.Base.{
  ℕ, zero, suc, Bool, true, false, not, ◌&&◌, ◌||◌, List, [], ◌∷◌, length, get_elem?, ltb_ℤ, leb_ℤ,
  if◌then◌else◌, none, some, ℤ, pos, negsuc, ◌+ℤ◌, ◌-ℤ◌,
}
use bitcoin_tui.LuaTab.State.{
  Event, escape, arrow_up, arrow_down, LuaPanel, table_panel, summary_panel, LuaPanelRender, LuaTab,
}

unfoldable pub is_table : {Data : Type 0} → LuaPanel Data → Bool
is_table (table_panel table row) = true
is_table summary_panel = false

-- What the keys do to one panel.
module _ {Data Box : Type 0} where
  -- tbl->selected_row() = row
  unfoldable pub select_row : ℤ → LuaPanelRender Data Box → LuaPanelRender Data Box
  select_row row p = elim (p.panel) [
    | table_panel table cur ↦ record p { panel = table_panel table row }
    | summary_panel ↦ p
  ]

  unfoldable pub first_row : LuaPanelRender Data Box → LuaPanelRender Data Box
  first_row p = elim (p.panel) [
    | table_panel table cur ↦ record p {
      panel = table_panel table (if ltb_ℤ cur (pos 0) then pos 0 else cur);
    }
    | summary_panel ↦ p
  ]

  unfoldable pub panel_down : LuaPanelRender Data Box → LuaPanelRender Data Box
  panel_down p = elim (p.panel) [
    | table_panel table cur ↦ record p {
      panel =
          table_panel table
            (if ltb_ℤ cur (pos (length table.rows) -ℤ pos 1) then cur +ℤ pos 1 else cur);
    }
    | summary_panel ↦ record p { scroll_offset = p.scroll_offset +ℤ pos 1 }
  ]

  unfoldable pub panel_up : LuaPanelRender Data Box → LuaPanelRender Data Box
  panel_up p = elim (p.panel) [
    | table_panel table cur ↦ record p {
      panel = table_panel table (if ltb_ℤ (pos 0) cur then cur -ℤ pos 1 else cur);
    }
    | summary_panel ↦ record p {
      scroll_offset =
          if ltb_ℤ (pos 0) p.scroll_offset then p.scroll_offset -ℤ pos 1 else p.scroll_offset;
    }
  ]

  unfoldable pub change :
      (LuaPanelRender Data Box → LuaPanelRender Data Box)
      → ℕ
      → List (LuaPanelRender Data Box)
      → List (LuaPanelRender Data Box)
  change f i [] = []
  change f zero (p ∷ panels) = f p ∷ panels
  change f (suc i) (p ∷ panels) = p ∷ change f i panels

  -- The panel at an index that may be none.
  unfoldable pub at_panel :
      (LuaPanelRender Data Box → LuaPanelRender Data Box)
      → ℤ
      → List (LuaPanelRender Data Box)
      → List (LuaPanelRender Data Box)
  unfolding change
  at_panel f (negsuc i) panels = panels
  at_panel f (pos i) panels = change f i panels

  unfoldable pub is_selectable : ℤ → List (LuaPanelRender Data Box) → Bool
  unfolding is_table
  is_selectable (negsuc i) panels = false
  is_selectable (pos i) panels = elim (get_elem? panels i) [
    | none ↦ false
    | some p ↦ is_table p.panel || p.scrollable
  ]

  -- The loop of `next_selectable`, which starts at `from + dir`; the rounds that are left.
  unfoldable pub selectable_loop : ℕ → ℤ → ℤ → List (LuaPanelRender Data Box) → ℤ
  unfolding is_selectable
  selectable_loop zero i dir panels = negsuc 0
  selectable_loop (suc rounds) i dir panels =
      let more = selectable_loop rounds (i +ℤ dir) dir panels in
      if leb_ℤ (pos 0) i && ltb_ℤ i (pos (length panels))
      then if is_selectable i panels then i else more
      else negsuc 0

  unfoldable pub next_selectable : ℤ → ℤ → List (LuaPanelRender Data Box) → ℤ
  unfolding selectable_loop
  next_selectable from dir panels = selectable_loop (length panels) (from +ℤ dir) dir panels

  -- Arrows when no row is being selected.
  unfoldable pub focus_key : Event → LuaTab Data Box → Bool × LuaTab Data Box
  unfolding next_selectable
  focus_key arrow_down tab =
      let next = next_selectable tab.focused_panel (pos 1) tab.lua_panels in
      (true, if leb_ℤ (pos 0) next then record tab { focused_panel = next } else tab)
  focus_key arrow_up tab =
      let prev = next_selectable tab.focused_panel (negsuc 0) tab.lua_panels in
      (
        true,
        if leb_ℤ (pos 0) prev
            then record tab { focused_panel = prev }
            else record tab { focused_panel = negsuc 0; panel_scrolling = false },
      )
  focus_key _ tab = (false, tab)

  -- Arrows when no panel is highlighted.
  unfoldable pub enter_at : ℤ → LuaTab Data Box → Bool × LuaTab Data Box
  enter_at i tab =
      if leb_ℤ (pos 0) i then (true, record tab { focused_panel = i }) else (false, tab)

  unfoldable pub unfocused_key : Event → LuaTab Data Box → Bool × LuaTab Data Box
  unfolding next_selectable enter_at
  unfocused_key arrow_down tab = enter_at (next_selectable (negsuc 0) (pos 1) tab.lua_panels) tab
  unfocused_key arrow_up tab =
      enter_at (next_selectable (pos (length tab.lua_panels)) (negsuc 0) tab.lua_panels) tab
  unfocused_key _ tab = (false, tab)

  -- Keys while rows are selected or a panel is scrolled.
  unfoldable pub scroll_key : Event → LuaTab Data Box → Bool × LuaTab Data Box
  unfolding select_row panel_down panel_up at_panel
  scroll_key escape tab = (
    true,
    record tab {
      panel_scrolling = false;
      lua_panels = at_panel (select_row (negsuc 0)) tab.focused_panel tab.lua_panels;
    },
  )
  scroll_key arrow_down tab =
      (true, record tab { lua_panels = at_panel panel_down tab.focused_panel tab.lua_panels })
  scroll_key arrow_up tab =
      (true, record tab { lua_panels = at_panel panel_up tab.focused_panel tab.lua_panels })
  scroll_key _ tab = (false, tab)

  unfoldable pub toggle_scrolling : LuaTab Data Box → LuaTab Data Box
  unfolding first_row at_panel
  toggle_scrolling tab = record tab {
    panel_scrolling = not tab.panel_scrolling;
    lua_panels =
        if tab.panel_scrolling
        then tab.lua_panels
        else at_panel first_row tab.focused_panel tab.lua_panels;
  }

  -- The row is selected.
  abbrev pub clicked : ℕ → ℤ → LuaTab Data Box → LuaTab Data Box
  clicked pi row tab = record tab {
    focused_panel = pos pi;
    panel_scrolling = true;
    lua_panels = at_panel (select_row row) (pos pi) tab.lua_panels;
  }
