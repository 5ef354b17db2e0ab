-- ===== src/LuaTab.antt =====
-- src/tabs/luatab.cpp: LuaTab::handle_focused_event.
pub mod State
pub mod Overlay
mod Highlight
pub mod Editor
pub mod Editing
pub mod Focus
pub mod Nearest
pub mod Highlighted
pub mod Arrows
pub mod Panels
pub mod Cursor
pub mod Fits
pub mod Keys
pub mod Handled
pub mod Steps
pub mod Hits
pub mod Clicked
pub mod Clicks
mod Tests
unfoldable pub use Highlight.*
use bitcoin_tui.Base.{
  ℕ, zero, suc, Bool, true, false, not, ◌&&◌, ◌||◌, ◌==◌, List, [], ◌∷◌, ◌++◌, Bytes, codes,
  same_bytes, length, get_elem?, ltb_ℤ, leb_ℤ, if◌then◌else◌, Option, none, some, ℤ, pos, negsuc,
  ◌+ℤ◌, ◌-ℤ◌, Outcome, ok,
}
use bitcoin_tui.State.{empty}
use bitcoin_tui.LuaTable.{LuaTable, DataOrder, selected_key}
use bitcoin_tui.LuaTab.State.{
  Event, escape, return_key, arrow_up, arrow_down, character, mouse, LuaPanel, table_panel,
  summary_panel, LuaPanelRender, FooterBtnInfo, LuaTab, clicked_row,
}
use bitcoin_tui.LuaTab.Overlay.{input_key, qr_key}

-- The first button with that key.
unfoldable pub button_of : Bytes → List FooterBtnInfo → Option ℤ
button_of ch [] = none
button_of ch (info ∷ btns) =
    let more = button_of ch btns in
    if not (empty info.key) && same_bytes ch info.key then some info.id else more

-- `key_text` is format_cell with the type of the key column, and `contain` is ftxui::Box::Contain.
module _ {Data Box : Type 0} (o : DataOrder Data) (key_text : LuaTable Data → Data → Bytes)
    (contain : Box → ℤ → ℤ → Bool) where
  -- tbl->selected_key(), for the table at that index if there is one.
  unfoldable pub key_at : ℤ → List (LuaPanelRender Data Box) → Option Bytes
  unfolding selected_key
  key_at (negsuc i) panels = none
  key_at (pos i) panels = elim (get_elem? panels i) [
    | none ↦ none
    | some p ↦ elim (p.panel) [
      | summary_panel ↦ none
      | table_panel table row ↦ elim (selected_key o row table) [
        | none ↦ none
        | some key ↦ some (key_text table key)
      ]
    ]
  ]

  pub emplace : Option Bytes → Bytes → LuaTab Data Box → LuaTab Data Box
  emplace none trigger tab = tab
  emplace (some key) trigger tab = record tab {
    select_queue = tab.select_queue ++ ((key, trigger) ∷ []);
  }

  pub row_of : ℕ → List (LuaPanelRender Data Box) → Option ℤ
  row_of i panels = elim (get_elem? panels i) [
    | none ↦ none
    | some p ↦ elim (p.panel) [ table_panel table row ↦ some row | summary_panel ↦ none ]
  ]

  pub same_ℤ : ℤ → ℤ → Bool
  same_ℤ x y = leb_ℤ x y && leb_ℤ y x

  pub is_at : Option ℤ → ℤ → Bool
  unfolding same_ℤ
  is_at none row = false
  is_at (some cur) row = same_ℤ cur row

  -- A second click on the same row activates it.
  pub activate : Bool → ℕ → LuaTab Data Box → LuaTab Data Box
  unfolding key_at emplace
  activate true pi now = emplace (key_at (pos pi) now.lua_panels) (codes "click") now
  activate false pi now = now

  -- A click on the row of a table.
  unfoldable pub click_row : ℕ → ℤ → LuaTab Data Box → LuaTab Data Box
  unfolding is_at row_of same_ℤ activate
  click_row pi row tab =
      let already_selected =
        same_ℤ tab.focused_panel (pos pi)
        && tab.panel_scrolling
        && is_at (row_of pi tab.lua_panels) row in
      activate already_selected pi (clicked pi row tab)

  pub with_hit : Option (ℕ × ℤ) → LuaTab Data Box → Bool × LuaTab Data Box
  unfolding click_row
  with_hit none tab = (false, tab)
  with_hit (some (pi, row)) tab = (true, click_row pi row tab)

  unfoldable pub mouse_key : Bool → ℤ → ℤ → LuaTab Data Box → Bool × LuaTab Data Box
  unfolding with_hit
  mouse_key false x y tab = (false, tab)
  mouse_key true x y tab = with_hit (clicked_row contain 0 tab.lua_panels x y) tab

  -- Enter and space when rows are selected: the key of the row, if there is one.
  unfoldable pub fired : LuaTab Data Box → Option Bytes
  unfolding key_at
  fired tab = if tab.panel_scrolling then key_at tab.focused_panel tab.lua_panels else none

  pub enter_key : Option Bytes → LuaTab Data Box → Bool × LuaTab Data Box
  unfolding emplace toggle_scrolling
  enter_key (some key) tab = (true, emplace (some key) (codes "enter") tab)
  enter_key none tab = (true, toggle_scrolling tab)

  pub space_key : Option Bytes → LuaTab Data Box → Bool × LuaTab Data Box
  unfolding emplace
  space_key (some key) tab = (true, emplace (some key) (codes "space") tab)
  space_key none tab = (false, tab)

  -- The keys when a panel is highlighted.
  unfoldable pub panel_key : Event → LuaTab Data Box → Bool × LuaTab Data Box
  unfolding enter_key space_key scroll_key focus_key
  panel_key return_key tab = enter_key (fired tab) tab
  panel_key (character ch) tab =
      if same_bytes ch (codes " ") then space_key (fired tab) tab else (false, tab)
  panel_key event tab =
      if tab.panel_scrolling && ltb_ℤ tab.focused_panel (pos (length tab.lua_panels))
      then scroll_key event tab
      else focus_key event tab

  -- Behind the mouse.
  unfoldable pub navigate : Event → LuaTab Data Box → Bool × LuaTab Data Box
  unfolding panel_key unfocused_key
  navigate event tab =
      if length tab.lua_panels == 0
      then (false, tab)
      else if leb_ℤ (pos 0) tab.focused_panel
      then panel_key event tab
      else unfocused_key event tab

  pub with_button : Option ℤ → Event → LuaTab Data Box → Bool × LuaTab Data Box
  unfolding navigate
  with_button (some id) event tab =
      (true, record tab { btn_click_queue = tab.btn_click_queue ++ (id ∷ []) })
  with_button none event tab = navigate event tab

  -- Behind the overlays.
  unfoldable pub panels_key : Event → LuaTab Data Box → Bool × LuaTab Data Box
  unfolding with_button mouse_key navigate
  panels_key (character ch) tab =
      with_button (button_of ch tab.footer_btn_labels) (character ch) tab
  panels_key (mouse left x y) tab = mouse_key left x y tab
  panels_key event tab = navigate event tab

  unfoldable pub handle_focused_event : Event → LuaTab Data Box → Outcome (Bool × LuaTab Data Box)
  unfolding input_key qr_key panels_key
  handle_focused_event event tab =
      if tab.input_overlay.active
      then input_key event tab
      else if tab.show_qr_overlay
      then ok (qr_key event tab)
      else ok (panels_key event tab)
