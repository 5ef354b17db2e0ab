-- ===== src/LuaTab/Fits.antt =====
-- src/tabs/luatab.cpp: what holds of a Lua tab, and what the arrows keep of it.
use bitcoin_tui.Base.{
  ℕ, ◌<◌, Bool, true, false, Bool-cases, length, if◌then◌else◌, leb_ℤ, inl, inr, ℤ, pos, negsuc,
  ◌≡◌, refl, arith,
}
use bitcoin_tui.LuaTab.State.{Event, escape, arrow_up, arrow_down, LuaPanelRender, LuaTab}
use bitcoin_tui.LuaTab.Cursor.{CursorFits}
use bitcoin_tui.LuaTab.Nearest.{
  InFocus, true≢false, next_selectable-InFocus_down, next_selectable-InFocus_up,
  next_selectable-InFocus_last,
}
use bitcoin_tui.LuaTab.Panels.{
  AllFit, Safe, at_panel-AllFit, at_panel-InFocus, select_row-Safe, first_row-Safe, panel_down-Safe,
  panel_up-Safe,
}
use bitcoin_tui.LuaTab.{
  select_row, first_row, panel_down, panel_up, at_panel, next_selectable, focus_key, enter_at,
  unfocused_key, scroll_key, toggle_scrolling,
}

module _ {Data Box : Type 0} where
  -- While the overlays are open their cursor and selection are in range; the highlighted panel
  -- exists, and rows are selected only in one that is highlighted; a selected row is none or an
  -- index, and no panel is scrolled to a negative row.
  pub record WellFormed (tab : LuaTab Data Box) : Type 0 where
    pub input : tab.input_overlay.active ≡ true → CursorFits tab.input_overlay
    pub qr :
        tab.show_qr_overlay ≡ true → (q : ℕ) × (tab.qr_selected ≡ pos q) × (q < length tab.qr_items)
    pub focus : InFocus tab.lua_panels tab.focused_panel
    pub scrolling : tab.panel_scrolling ≡ true → leb_ℤ (pos 0) tab.focused_panel ≡ true
    pub panels : AllFit tab.lua_panels

  -- The same of what a handler comes back with.
  abbrev pub Keeps : Bool × LuaTab Data Box → Type 0
  Keeps out = WellFormed out.1

  pub Keeps-if :
      (b : Bool) (x y : Bool × LuaTab Data Box)
      → (b ≡ true → Keeps x)
      → (b ≡ false → Keeps y)
      → Keeps (if b then x else y)
  Keeps-if true x y hx hy = hx refl
  Keeps-if false x y hx hy = hy refl

  WellFormed-if :
      (b : Bool) {x y : LuaTab Data Box}
      → (b ≡ true → WellFormed x)
      → (b ≡ false → WellFormed y)
      → WellFormed (if b then x else y)
  WellFormed-if true hx hy = hx refl
  WellFormed-if false hx hy = hy refl

  change-Keeps :
      (f : LuaPanelRender Data Box → LuaPanelRender Data Box) (tab : LuaTab Data Box)
      → Safe f
      → WellFormed tab
      → WellFormed (record tab { lua_panels = at_panel f tab.focused_panel tab.lua_panels })
  change-Keeps f tab s w = record {
    input = w.input;
    qr = w.qr;
    focus = at_panel-InFocus f tab.focused_panel tab.lua_panels tab.focused_panel w.focus;
    scrolling = w.scrolling;
    panels = at_panel-AllFit f tab.focused_panel tab.lua_panels s w.panels;
  }

  pub scroll_key-Keeps :
      (event : Event) (tab : LuaTab Data Box) → WellFormed tab → Keeps (scroll_key event tab)
  unfolding scroll_key
  scroll_key-Keeps escape tab w =
      let c =
        change-Keeps (select_row (negsuc 0)) tab (select_row-Safe (negsuc 0) (omega arith)) w in
      record {
        input = c.input;
        qr = c.qr;
        focus = c.focus;
        scrolling = λ e. absurd (true≢false e refl);
        panels = c.panels;
      }
  scroll_key-Keeps arrow_down tab w = change-Keeps panel_down tab panel_down-Safe w
  scroll_key-Keeps arrow_up tab w = change-Keeps panel_up tab panel_up-Safe w
  scroll_key-Keeps _ tab w = w

  -- The highlight moves to `i`.
  focused-Keeps :
      (tab : LuaTab Data Box) (i : ℤ)
      → WellFormed tab
      → InFocus tab.lua_panels i
      → leb_ℤ (pos 0) i ≡ true
      → WellFormed (record tab { focused_panel = i })
  focused-Keeps tab i w f h = record {
    input = w.input;
    qr = w.qr;
    focus = f;
    scrolling = λ e. h;
    panels = w.panels;
  }

  unfocused-Keeps :
      (tab : LuaTab Data Box)
      → WellFormed tab
      → WellFormed (record tab { focused_panel = negsuc 0; panel_scrolling = false })
  unfocused-Keeps tab w = record {
    input = w.input;
    qr = w.qr;
    focus = inl refl;
    scrolling = λ e. absurd (true≢false e refl);
    panels = w.panels;
  }

  pub focus_key-Keeps :
      (event : Event) (tab : LuaTab Data Box)
      → WellFormed tab
      → leb_ℤ (pos 0) tab.focused_panel ≡ true
      → Keeps (focus_key event tab)
  unfolding focus_key
  focus_key-Keeps arrow_down tab w h =
      WellFormed-if (leb_ℤ (pos 0) (next_selectable tab.focused_panel (pos 1) tab.lua_panels))
        (λ ge.
          focused-Keeps tab _ w
            (next_selectable-InFocus_down tab.lua_panels tab.focused_panel w.focus) ge)
        (λ lt. w)
  focus_key-Keeps arrow_up tab w h =
      WellFormed-if (leb_ℤ (pos 0) (next_selectable tab.focused_panel (negsuc 0) tab.lua_panels))
        (λ ge.
          focused-Keeps tab _ w
            (next_selectable-InFocus_up tab.lua_panels tab.focused_panel w.focus h) ge)
        (λ lt. unfocused-Keeps tab w)
  focus_key-Keeps _ tab w h = w

  pub unfocused_key-Keeps :
      (event : Event) (tab : LuaTab Data Box) → WellFormed tab → Keeps (unfocused_key event tab)
  unfolding unfocused_key enter_at
  unfocused_key-Keeps arrow_down tab w =
      Keeps-if (leb_ℤ (pos 0) (next_selectable (negsuc 0) (pos 1) tab.lua_panels)) _ _
        (λ ge.
          focused-Keeps tab _ w (next_selectable-InFocus_down tab.lua_panels (negsuc 0) (inl refl))
            ge)
        (λ lt. w)
  unfocused_key-Keeps arrow_up tab w =
      Keeps-if
        (leb_ℤ (pos 0) (next_selectable (pos (length tab.lua_panels)) (negsuc 0) tab.lua_panels)) _
        _
        (λ ge.
          focused-Keeps tab _ w
            (next_selectable-InFocus_last tab.lua_panels (length tab.lua_panels) (omega arith)) ge)
        (λ lt. w)
  unfocused_key-Keeps _ tab w = w

  pub toggle_scrolling-Keeps :
      (tab : LuaTab Data Box)
      → WellFormed tab
      → leb_ℤ (pos 0) tab.focused_panel ≡ true
      → WellFormed (toggle_scrolling tab)
  unfolding toggle_scrolling
  toggle_scrolling-Keeps tab w h = elim (Bool-cases tab.panel_scrolling) [
    | inl e ↦ simp e record {
      input = w.input;
      qr = w.qr;
      focus = w.focus;
      scrolling = λ e. h;
      panels = w.panels;
    }
    | inr e ↦
        let c = change-Keeps first_row tab first_row-Safe w in
        simp e record {
          input = w.input;
          qr = w.qr;
          focus = c.focus;
          scrolling = λ e. h;
          panels = c.panels;
        }
  ]
